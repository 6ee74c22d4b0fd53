-- ===== src/ConnPool/Conservation.antt =====
-- No connection is lost, doubled or left open.
use hyper_gnomon.Base.{ℕ, ◌+◌, ◌≡◌, ◌≢◌, refl, sym, ap, subst, ◌∙◌, ◌⊎◌, inl, inr, arith}
use hyper_gnomon.Base.{
  List, [], ◌∷◌, ◌++◌, Bool, true, false, Option, some, if◌then◌else◌, length, Bool-cases, if_yes,
  if_no,
}
use mathlib.Core.Bool.{false≢true}
use hyper_gnomon.Chan.Laws.{try_send_cases, receive_cases}
use hyper_gnomon.ConnPool.{Pool, Borrowed, conn, no_conn, get_blocks}
use hyper_gnomon.ConnPool.{Returned, put_done, put_blocks, used}
use hyper_gnomon.ConnPool.{close_pool, get, put, with_conn}

-- A pool and the connections that callers have borrowed.
pub record World (C : Type 0) : Type 0 where
  pub pool : Pool C
  pub lent : List C

module _ {C : Type 0} where
  abbrev pub count : (C → Bool) → List C → ℕ
  count f [] = 0
  count f (c ∷ cs) = (if f c then 1 else 0) + count f cs

  count-append : (f : C → Bool) (xs ys : List C) → count f (xs ++ ys) ≡ count f xs + count f ys
  count-append f [] ys = omega arith
  count-append f (x ∷ xs) ys = omega (arith, count-append f xs ys)

  -- What callers do: they borrow, they return what they have borrowed, and they close the pool.
  pub data Step : World C → World C → Type 0 where
    borrows :
        (p q : Pool C) (c : C) (lent : List C)
        → get p ≡ conn c q
        → Step (record { pool = p; lent = lent }) (record { pool = q; lent = c ∷ lent })
    gives_back :
        (p q : Pool C) (c : C) (xs ys : List C)
        → put (some c) p ≡ put_done q
        → Step (record { pool = p; lent = xs ++ (c ∷ ys) }) (record { pool = q; lent = xs ++ ys })
    closes :
        (p : Pool C) (lent : List C)
        → Step (record { pool = p; lent = lent }) (record { pool = close_pool p; lent = lent })

  -- A history of steps.
  pub data Reach : World C → World C → Type 0 where
    here : (w : World C) → Reach w w
    then_step : (u v w : World C) → Reach u v → Step v w → Reach u w

  -- Of every kind of connections, those in the pool, those that are lent and those that are shut
  -- are together as many as were made.
  pub record Conserves (made : List C) (w : World C) : Type 0 where
    pub agree : w.pool.conns.is_closed ≡ w.pool.closed
    pub emptied : w.pool.closed ≡ true → w.pool.conns.buffer ≡ []
    pub capacity : w.pool.conns.capacity ≡ length made
    pub conserved :
        (f : C → Bool)
        → count f w.pool.conns.buffer + count f w.lent + count f w.pool.shut ≡ count f made

  count-all : (xs : List C) → count (λ c. true) xs ≡ length xs
  count-all [] = refl
  count-all (x ∷ xs) = omega (arith, count-all xs)

  -- Where a connection is lent, the channel has room for it.
  put_cases :
      (made : List C) (p : Pool C) (c : C) (xs ys : List C)
      → Conserves made (record { pool = p; lent = xs ++ (c ∷ ys) })
      → ((p.closed ≡ true) × (put (some c) p ≡ put_done (record p { shut = p.shut ++ (c ∷ []) })))
        ⊎ ((p.closed ≡ false)
            × (put (some c) p
                ≡ put_done
                    (record p { conns = record p.conns { buffer = p.conns.buffer ++ (c ∷ []) } })))
  unfolding put
  put_cases made p c xs ys ok = elim (Bool-cases p.closed) [
    | inl shut ↦ inl (shut, if_yes p.closed _ _ shut)
    | inr live ↦ elim (try_send_cases c p.conns (ok.agree ∙ live)) [
      | inl (done, less) ↦ inr (live, if_no p.closed _ _ live ∙ rw (done, put) refl)
      | inr (done, more) ↦ absurd (
          omega (
            arith,
            ok.capacity,
            ok.conserved (λ d. true),
            count-all p.conns.buffer,
            count-all made,
            count-append (λ d. true) xs (c ∷ ys),
          ))
    ]
  ]

  put_done-injective : (p q : Pool C) → put_done p ≡ put_done q → p ≡ q
  put_done-injective p q e = ap pool_in e
    where
      pool_in : Returned C → Pool C
      pool_in (put_done r) = r
      pool_in put_blocks = p

  get_blocks≢conn : (c : C) (q : Pool C) → ◌≢◌ {A = Borrowed C} get_blocks (conn c q)
  get_blocks≢conn c q e = cc

  no_conn≢conn : (c : C) (q : Pool C) → ◌≢◌ {A = Borrowed C} no_conn (conn c q)
  no_conn≢conn c q e = cc

  []≢∷ : (x : C) (xs : List C) → [] ≢ x ∷ xs
  []≢∷ x xs e = cc

  abbrev world_with : Pool C → List C → Borrowed C → World C
  world_with p lent (conn d r) = record { pool = r; lent = d ∷ lent }
  world_with p lent no_conn = record { pool = p; lent = lent }
  world_with p lent get_blocks = record { pool = p; lent = lent }

  borrow-Conserves :
      (made : List C) (p q : Pool C) (c : C) (lent : List C)
      → get p ≡ conn c q
      → Conserves made (record { pool = p; lent = lent })
      → Conserves made (record { pool = q; lent = c ∷ lent })
  unfolding get
  borrow-Conserves made p q c lent h ok = elim (receive_cases p.conns) [
    | inr (inl (empty, live, wait)) ↦ absurd (get_blocks≢conn c q (sym (rw (wait, get) refl) ∙ h))
    | inr (inr (empty, shut, done)) ↦ absurd (no_conn≢conn c q (sym (rw (done, get) refl) ∙ h))
    | inl (x, xs, at, handed) ↦
        let r : Pool C = record p { conns = record p.conns { buffer = xs } } in
        let now : get p ≡ conn x r = rw (handed, get) refl in
        subst (Conserves made) (ap (world_with p lent) (sym now ∙ h)) (record {
          agree = ok.agree;
          emptied = λ shut. absurd ([]≢∷ x xs (sym (ok.emptied shut) ∙ at));
          capacity = ok.capacity;
          conserved = λ f. omega (arith, ok.conserved f, ap (count f) at);
        })
  ]

  give_back-Conserves :
      (made : List C) (p q : Pool C) (c : C) (xs ys : List C)
      → put (some c) p ≡ put_done q
      → Conserves made (record { pool = p; lent = xs ++ (c ∷ ys) })
      → Conserves made (record { pool = q; lent = xs ++ ys })
  give_back-Conserves made p q c xs ys h ok = elim (put_cases made p c xs ys ok) [
    | inl (shut, done) ↦
        let r : Pool C = record p { shut = p.shut ++ (c ∷ []) } in
        subst (λ (t : Pool C). Conserves made (record { pool = t; lent = xs ++ ys }))
          (put_done-injective r q (sym done ∙ h))
          (record {
            agree = ok.agree;
            emptied = ok.emptied;
            capacity = ok.capacity;
            conserved = λ f. omega (
              arith,
              ok.conserved f,
              count-append f xs ys,
              count-append f xs (c ∷ ys),
              count-append f p.shut (c ∷ []),
            );
          })
    | inr (live, done) ↦
        let r : Pool C = record p {
          conns = record p.conns { buffer = p.conns.buffer ++ (c ∷ []) };
        } in
        subst (λ (t : Pool C). Conserves made (record { pool = t; lent = xs ++ ys }))
          (put_done-injective r q (sym done ∙ h))
          (record {
            agree = ok.agree;
            emptied = λ shut. absurd (false≢true (sym live ∙ shut));
            capacity = ok.capacity;
            conserved = λ f. omega (
              arith,
              ok.conserved f,
              count-append f xs ys,
              count-append f xs (c ∷ ys),
              count-append f p.conns.buffer (c ∷ []),
            );
          })
  ]

  close_pool-Conserves :
      (made : List C) (p : Pool C) (lent : List C)
      → Conserves made (record { pool = p; lent = lent })
      → Conserves made (record { pool = close_pool p; lent = lent })
  unfolding close_pool
  close_pool-Conserves made p lent ok = elim (Bool-cases p.closed) [
    | inl shut ↦
        subst (λ (t : Pool C). Conserves made (record { pool = t; lent = lent }))
          (sym (if_yes p.closed _ _ shut)) ok
    | inr live ↦
        subst (λ (t : Pool C). Conserves made (record { pool = t; lent = lent }))
          (sym (if_no p.closed _ _ live))
          (record {
            agree = refl;
            emptied = λ shut. refl;
            capacity = ok.capacity;
            conserved = λ f. omega (arith, ok.conserved f, count-append f p.shut p.conns.buffer);
          })
  ]

  pub Reach-Conserves :
      (made : List C) (u w : World C) → Reach u w → Conserves made u → Conserves made w
  Reach-Conserves made u w (here v) ok = ok
  Reach-Conserves made u w (then_step t v x r (borrows p q c lent h)) ok =
      borrow-Conserves made p q c lent h (Reach-Conserves made t v r ok)
  Reach-Conserves made u w (then_step t v x r (gives_back p q c xs ys h)) ok =
      give_back-Conserves made p q c xs ys h (Reach-Conserves made t v r ok)
  Reach-Conserves made u w (then_step t v x r (closes p lent)) ok =
      close_pool-Conserves made p lent (Reach-Conserves made t v r ok)

  -- A closed pool whose connections have all come back.
  pub all_shut :
      (made : List C) (w : World C)
      → Conserves made w
      → w.pool.closed ≡ true
      → w.lent ≡ []
      → (f : C → Bool) → count f w.pool.shut ≡ count f made
  all_shut made w ok shut back f =
      omega (arith, ok.conserved f, ap (count f) (ok.emptied shut), ap (count f) back)

  -- If WithConn gets a connection and the pool conserves its connections when the function returns,
  -- whatever others did to the pool meanwhile, then WithConn does not wait, returns the function's
  -- error, and has given the connection back.
  pub with_conn-gives_back :
      {E : Type 0} (fn : C → Pool C → Option E × Pool C) (made : List C) (p q : Pool C) (c : C)
      (lent : List C)
      → get p ≡ conn c q
      → Conserves made (record { pool = (fn c q).1; lent = c ∷ lent })
      → (r : Pool C) × ((with_conn fn p ≡ used (fn c q).0 r)
          × Conserves made (record { pool = r; lent = lent }))
  unfolding with_conn
  with_conn-gives_back fn made p q c lent h ok = elim (put_cases made (fn c q).1 c [] lent ok) [
    | inl (shut, done) ↦ finish _ done
    | inr (live, done) ↦ finish _ done
  ]
    where
      finish :
          (r : Pool C)
          → put (some c) (fn c q).1 ≡ put_done r
          → (r : Pool C) × ((with_conn fn p ≡ used (fn c q).0 r)
              × Conserves made (record { pool = r; lent = lent }))
      finish r done = (
        r,
        (rw (h, with_conn) (rw done refl), give_back-Conserves made (fn c q).1 r c [] lent done ok),
      )
