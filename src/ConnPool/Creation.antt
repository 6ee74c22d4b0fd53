-- ===== src/ConnPool/Creation.antt =====
-- `NewPool`: all the dials succeed, or nothing is left open; and the history of a pool from there.
use hyper_gnomon.Base.{ℕ, suc, ◌≡◌, ◌≢◌, refl, sym, ap, subst, ◌∙◌, inl, inr, arith}
use hyper_gnomon.Base.{
  ◌+◌, ◌⊎◌, ◌++◌, All, if◌then◌else◌, Option-cases, List, [], ◌∷◌, Bool, true, false, none, some,
  length,
}
use mathlib.Core.Bool.{false≢true}
use hyper_gnomon.ConnPool.{Pool, Dialed, connected, refused, Created, created, not_created}
use hyper_gnomon.ConnPool.{close_pool, connections, first_error, new_pool}
use hyper_gnomon.ConnPool.Conservation.{World, Reach, Conserves, Reach-Conserves, count, all_shut}

module _ {C E : Type 0} where
  length-connections :
      (ds : List (Dialed C E)) → first_error ds ≡ none → length (connections ds) ≡ length ds
  length-connections [] none_failed = refl
  length-connections (connected c ∷ ds) none_failed = ap suc (length-connections ds none_failed)
  length-connections (refused e ∷ ds) none_failed = cc

  abbrev pool_created : Pool C → Created C E → Pool C
  pool_created d (created p) = p
  pool_created d (not_created e cs) = d

  not_created≢created : (e : E) (cs : List C) (p : Pool C) → not_created e cs ≢ created p
  not_created≢created e cs p h = cc

  new_pool-failed :
      (size : ℕ) (ds : List (Dialed C E)) (e : E)
      → first_error ds ≡ some e
      → new_pool size ds ≡ not_created e (connections ds)
  unfolding new_pool close_pool
  new_pool-failed size ds e h = rw (h, new_pool) refl

  -- How many of the dials that succeeded made a connection of a kind.
  abbrev pub dialed_count : (C → Bool) → List (Dialed C E) → ℕ
  dialed_count f [] = 0
  dialed_count f (connected c ∷ ds) = (if f c then 1 else 0) + dialed_count f ds
  dialed_count f (refused e ∷ ds) = dialed_count f ds

  abbrev pub IsConnected : Dialed C E → Type 0
  IsConnected (connected c) = Unit {0}
  IsConnected (refused e) = ⊥

  -- The error is that of the first dial that failed.
  pub record FirstRefusal (ds : List (Dialed C E)) (e : E) : Type 0 where
    pub before : List (Dialed C E)
    pub behind : List (Dialed C E)
    pub split : ds ≡ before ++ (refused e ∷ behind)
    pub connected_before : All IsConnected before

  -- A pool that is open, of that size, and has all the connections that were made.
  pub record IsFilled (size : ℕ) (ds : List (Dialed C E)) (p : Pool C) : Type 0 where
    pub all_connected : All IsConnected ds
    pub opened : (p.closed ≡ false) × (p.conns.is_closed ≡ false)
    pub room : (p.size ≡ size) × (p.conns.capacity ≡ size)
    pub none_shut : p.shut ≡ []
    pub holds : (f : C → Bool) → count f p.conns.buffer ≡ dialed_count f ds

  count-connections :
      (f : C → Bool) (ds : List (Dialed C E)) → count f (connections ds) ≡ dialed_count f ds
  count-connections f [] = refl
  count-connections f (connected c ∷ ds) = omega (arith, count-connections f ds)
  count-connections f (refused e ∷ ds) = count-connections f ds

  first_error-none : (ds : List (Dialed C E)) → first_error ds ≡ none → All IsConnected ds
  first_error-none [] h = tt
  first_error-none (connected c ∷ ds) h = (tt, first_error-none ds h)
  first_error-none (refused e ∷ ds) h = cc h

  first_error-some : (ds : List (Dialed C E)) (e : E) → first_error ds ≡ some e → FirstRefusal ds e
  first_error-some [] e h = cc h
  first_error-some (connected c ∷ ds) e h =
      let r = first_error-some ds e h in
      record {
        before = connected c ∷ r.before;
        behind = r.behind;
        split = ap (λ (l : List (Dialed C E)). connected c ∷ l) r.split;
        connected_before = (tt, r.connected_before);
      }
  first_error-some (refused d ∷ ds) e h =
      let q : d ≡ e = cc h in
      record {
        before = [];
        behind = ds;
        split = ap (λ (x : E). refused x ∷ ds) q;
        connected_before = tt;
      }

  -- NewPool either returns an open pool of the asked size that holds, of every kind, as many
  -- connections as were dialed, where every dial succeeded, with none closed; or it returns the
  -- error of the first dial that failed, and has closed, of every kind, as many connections as were
  -- dialed.
  pub new_pool_cases :
      (size : ℕ) (ds : List (Dialed C E))
      → ((p : Pool C) × (new_pool size ds ≡ created p) × IsFilled size ds p)
        ⊎ ((e : E) × (shut : List C) × (new_pool size ds ≡ not_created e shut)
            × FirstRefusal ds e
            × ((f : C → Bool) → count f shut ≡ dialed_count f ds))
  unfolding new_pool
  new_pool_cases size ds = elim (Option-cases (first_error ds)) [
    | inl fine ↦ inl (
      record {
        conns = record { buffer = connections ds; capacity = size; is_closed = false };
        size = size;
        closed = false;
        shut = [];
      },
      rw (fine, new_pool) refl,
      record {
        all_connected = first_error-none ds fine;
        opened = (refl, refl);
        room = (refl, refl);
        none_shut = refl;
        holds = λ f. count-connections f ds;
      },
    )
    | inr (e, bad) ↦ inr (
      e,
      connections ds,
      new_pool-failed size ds e bad,
      first_error-some ds e bad,
      λ f. count-connections f ds,
    )
  ]

  -- A pool that `NewPool` returns holds what it has dialed.
  new_pool-Conserves :
      (size : ℕ) (ds : List (Dialed C E)) (p : Pool C)
      → length ds ≡ size
      → new_pool size ds ≡ created p
      → Conserves (connections ds) (record { pool = p; lent = [] })
  unfolding new_pool
  new_pool-Conserves size ds p width h = elim (Option-cases (first_error ds)) [
    | inr (e, bad) ↦
        absurd (not_created≢created e (connections ds) p (sym (new_pool-failed size ds e bad) ∙ h))
    | inl fine ↦
        let fresh : Pool C = record {
          conns = record { buffer = connections ds; capacity = size; is_closed = false };
          size = size;
          closed = false;
          shut = [];
        } in
        let now : new_pool size ds ≡ created fresh = rw (fine, new_pool) refl in
        subst (λ (t : Pool C). Conserves (connections ds) (record { pool = t; lent = [] }))
          (ap (pool_created fresh) (sym now ∙ h))
          (record {
            agree = refl;
            emptied = λ shut. absurd (false≢true shut);
            capacity = sym width ∙ sym (length-connections ds fine);
            conserved = λ f. omega arith;
          })
  ]

  -- From a pool that NewPool returns, after every order of borrowing, returning what was borrowed
  -- and closing: of every kind of connections, those in the channel, those lent and those closed
  -- are together as many as were dialed; the flag agrees with the channel, a closed pool's channel
  -- is empty, and the capacity is the number dialed.
  pub history-Conserves :
      (size : ℕ) (ds : List (Dialed C E)) (p : Pool C) (w : World C)
      → length ds ≡ size
      → new_pool size ds ≡ created p
      → Reach (record { pool = p; lent = [] }) w
      → Conserves (connections ds) w
  history-Conserves size ds p w width h r =
      Reach-Conserves (connections ds) (record { pool = p; lent = [] }) w r
        (new_pool-Conserves size ds p width h)

  -- After every order of borrowing, returning and closing from a pool that NewPool returns: once
  -- the pool is closed and all that was borrowed has come back, the closed connections are, of
  -- every kind, as many as were dialed, so each is closed exactly once.
  pub history-all_shut :
      (size : ℕ) (ds : List (Dialed C E)) (p : Pool C) (w : World C)
      → length ds ≡ size
      → new_pool size ds ≡ created p
      → Reach (record { pool = p; lent = [] }) w
      → w.pool.closed ≡ true
      → w.lent ≡ []
      → (f : C → Bool) → count f w.pool.shut ≡ count f (connections ds)
  history-all_shut size ds p w width h r shut back f =
      all_shut (connections ds) w (history-Conserves size ds p w width h r) shut back f
