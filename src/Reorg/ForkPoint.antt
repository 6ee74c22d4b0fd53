-- ===== src/Reorg/ForkPoint.antt =====
-- The search for the fork point: what each answer says of the hashes, and that it looks no further
-- than it must.
use hyper_gnomon.Base.{
  ℕ, zero, suc, ◌+◌, ◌≤◌, ◌<◌, ◌≡◌, ◌≢◌, refl, sym, ap, ◌∙◌, ◌⊎◌, ◌↔◌, inl, inr, arith,
}
use hyper_gnomon.Base.{
  [], ◌∷◌, Bool, true, false, not, ◌&&◌, if◌then◌else◌, Bool-cases, ltb, ltb→lt, lt→ltb, le→not-ltb,
  not-ltb→le,
}
use mathlib.Core.Bool.{false≢true}
use native.Mathlib.Decide.{ℕ_discrete}
use hyper_gnomon.Base.{subst}
use hyper_gnomon.Base.Int.{ℤ, pos, sub_ℕ, ◌-ℤ◌}
use hyper_gnomon.Base.{◌-◌, ◌^◌}
use hyper_gnomon.Codec.Words.Laws.{int64_from_bits-int64_bits}
use hyper_gnomon.Reorg.{sub64}
use hyper_gnomon.Base.Texts.{Bytes, bytes_eq, is_empty, bytes_eq→eq, bytes_eq_refl}
use hyper_gnomon.Reorg.{
  Lookup, found, failed, Lookup-cases, Fork, fork_at, undetermined, lookup_failed,
}
use hyper_gnomon.Reorg.{examine, walk, lowest, find_fork_point}

fork_at≢undetermined : {E : Type 0} (z : ℤ) → ◌≢◌ {A = Fork E} (fork_at z) undetermined
fork_at≢undetermined z e = cc

module _ {E : Type 0} (stored_hash daemon_hash : ℤ → Lookup E) where
  -- Both chains are known at the height and agree: a hash is stored, and the daemon's is the same.
  pub record Agrees (h : ℕ) : Type 0 where
    pub hash : Bytes
    pub filled : is_empty hash ≡ false
    pub stored : stored_hash (pos h) ≡ found hash
    pub daemon : daemon_hash (pos h) ≡ found hash

  -- A hash is stored, and the daemon answers with another or with none.
  pub record Disagrees (h : ℕ) : Type 0 where
    pub ours : Bytes
    pub theirs : Bytes
    pub filled : is_empty ours ≡ false
    pub stored : stored_hash (pos h) ≡ found ours
    pub daemon : daemon_hash (pos h) ≡ found theirs
    pub differ : theirs ≢ ours

  -- The answers that end the search at a height.
  pub data Stops (h : ℕ) : Fork E → Type 0 where
    agreement : Agrees h → Stops h (fork_at (pos h))
    hole : stored_hash (pos h) ≡ found [] → Stops h undetermined
    store_error : (e : E) → stored_hash (pos h) ≡ failed e → Stops h (lookup_failed e)
    daemon_error :
        (s : Bytes) (e : E)
        → is_empty s ≡ false
        → stored_hash (pos h) ≡ found s
        → daemon_hash (pos h) ≡ failed e
        → Stops h (lookup_failed e)

  empty_hash : (s : Bytes) → is_empty s ≡ true → s ≡ []
  empty_hash [] h = refl
  empty_hash (x ∷ s) h = cc

  pass_on : (h : ℕ) (below : Fork E) → Disagrees h → examine stored_hash daemon_hash h below ≡ below
  unfolding examine
  pass_on h below d = elim (Bool-cases (bytes_eq d.ours d.theirs)) [
    | inl same ↦ absurd (d.differ (sym (bytes_eq→eq d.ours d.theirs same)))
    | inr other ↦
        rw (d.stored, examine) (rw (d.filled, d.daemon) (rw other (unmatched (is_empty d.theirs))))
  ]
    where
      unmatched : (t : Bool) → (if not t && false then fork_at (pos h) else below) ≡ below
      unmatched true = refl
      unmatched false = refl

  -- The daemon's answer where a hash is stored.
  compare_daemon :
      (h : ℕ) (below : Fork E) (sh : Bytes)
      → stored_hash (pos h) ≡ found sh
      → is_empty sh ≡ false
      → Stops h (examine stored_hash daemon_hash h below) ⊎ Disagrees h
  unfolding examine
  compare_daemon h below sh l filled = elim (Lookup-cases (daemon_hash (pos h))) [
    | inr (e, m) ↦ inl (rw (l, examine) (rw (filled, m) (daemon_error sh e filled l m)))
    | inl (dh, m) ↦ elim (Bool-cases (bytes_eq sh dh)) [
      | inl same ↦
          let equal : sh ≡ dh = bytes_eq→eq sh dh same in
          let filled' : is_empty dh ≡ false = rw equal at filled in
          inl (
            rw (l, examine)
              (rw (filled, m)
                (rw (filled', same)
                  (agreement (record {
                    hash = sh;
                    filled = filled;
                    stored = l;
                    daemon = rw (← equal) at m;
                  })))))
      | inr other ↦ inr (record {
        ours = sh;
        theirs = dh;
        filled = filled;
        stored = l;
        daemon = m;
        differ = λ e. false≢true (sym other ∙ ap (bytes_eq sh) e ∙ bytes_eq_refl sh);
      })
    ]
  ]

  -- Every height either ends the search or hands it on.
  examine_cases :
      (h : ℕ) (below : Fork E) → Stops h (examine stored_hash daemon_hash h below) ⊎ Disagrees h
  unfolding examine
  examine_cases h below = elim (Lookup-cases (stored_hash (pos h))) [
    | inr (e, l) ↦ inl (rw (l, examine) (store_error e l))
    | inl (sh, l) ↦ elim (Bool-cases (is_empty sh)) [
      | inl blank ↦ inl (rw (l, examine) (rw blank (hole (l ∙ ap found (empty_hash sh blank)))))
      | inr filled ↦ compare_daemon h below sh l filled
    ]
  ]

  Stops-unique :
      (h : ℕ) (r below : Fork E) → Stops h r → examine stored_hash daemon_hash h below ≡ r
  unfolding examine
  Stops-unique h r below (agreement a) =
      rw (a.stored, examine) (rw (a.filled, a.daemon) (rw (a.filled, bytes_eq_refl a.hash) refl))
  Stops-unique h r below (hole e) = rw (e, examine) refl
  Stops-unique h r below (store_error e l) = rw (l, examine) refl
  Stops-unique h r below (daemon_error s e filled l m) = rw (l, examine) (rw (filled, m) refl)

  -- Where the search from `h` down to `lo` ends: at the highest height that is no plain
  -- disagreement, or, if there is none, with no answer.
  abbrev pub Verdict : ℕ → ℕ → Fork E → Type 0
  Verdict h lo r =
      ((k : ℕ) × (lo ≤ k) × (k ≤ h) × Stops k r × ((j : ℕ) → k < j → j ≤ h → Disagrees j))
      ⊎ ((r ≡ undetermined) × ((j : ℕ) → lo ≤ j → j ≤ h → Disagrees j))

  -- The heights up to `suc h` are those up to `h` and `suc h`.
  one_more :
      (P : ℕ → Type 0) (h lo : ℕ)
      → P (suc h)
      → ((j : ℕ) → lo ≤ j → j ≤ h → P j)
      → (j : ℕ) → lo ≤ j
      → j ≤ suc h
      → P j
  one_more P h lo top below j from to = elim (ℕ_discrete j (suc h)) [
    | yes e ↦ subst P (sym e) top
    | no ne ↦ below j from (omega arith)
  ]

  deeper : (h lo : ℕ) (r : Fork E) → Disagrees (suc h) → Verdict h lo r → Verdict (suc h) lo r
  deeper h lo r d (inl (k, from, to, stops, above)) =
      inl (k, from, omega arith, stops, one_more Disagrees h (suc k) d above)
  deeper h lo r d (inr (e, all)) = inr (e, one_more Disagrees h lo d all)

  -- Where the search has only one height left.
  last :
      (h lo : ℕ) → h ≤ lo → lo ≤ h → Verdict h lo (examine stored_hash daemon_hash h undetermined)
  last h lo up down = elim (examine_cases h undetermined) [
    | inl s ↦ inl (h, down, omega arith, s, λ j above to. absurd (omega arith))
    | inr d ↦
        rw (pass_on h undetermined d)
          (inr (refl, λ j from to. subst Disagrees {x = h} {y = j} (omega arith) d))
  ]

  walk_beyond : (h lo : ℕ) → h < lo → walk stored_hash daemon_hash h lo ≡ undetermined
  unfolding walk
  walk_beyond zero lo lt = rw (lt→ltb 0 lo lt) refl
  walk_beyond (suc h) lo lt = rw (lt→ltb (suc h) lo lt) refl

  walk_step :
      (h lo : ℕ)
      → lo ≤ suc h
      → walk stored_hash daemon_hash (suc h) lo
        ≡ examine stored_hash daemon_hash (suc h) (walk stored_hash daemon_hash h lo)
  unfolding walk
  walk_step h lo le = rw (le→not-ltb (suc h) lo le) refl

  walk-Verdict : (h lo : ℕ) → lo ≤ h → Verdict h lo (walk stored_hash daemon_hash h lo)
  unfolding walk
  walk-Verdict zero lo le = rw (le→not-ltb 0 lo le) (last 0 lo (omega arith) le)
  walk-Verdict (suc h) lo le = rw (walk_step h lo le) (elim (Bool-cases (ltb h lo)) [
    | inl beyond ↦
        let lt : h < lo = ltb→lt h lo beyond in
        rw (walk_beyond h lo lt) (last (suc h) lo (omega arith) le)
    | inr inside ↦ elim (examine_cases (suc h) (walk stored_hash daemon_hash h lo)) [
      | inl s ↦ inl (suc h, le, omega arith, s, λ j above to. absurd (omega arith))
      | inr d ↦ rw (pass_on (suc h) (walk stored_hash daemon_hash h lo) d) (
          deeper h lo (walk stored_hash daemon_hash h lo) d
            (walk-Verdict h lo (not-ltb→le h lo inside)))
    ]
  ])

  Stops-not-Disagrees : (h : ℕ) (r : Fork E) → Stops h r → Disagrees h → ⊥
  Stops-not-Disagrees h r s d =
      let a : examine stored_hash daemon_hash h undetermined ≡ r =
        Stops-unique h r undetermined s in
      let b : examine stored_hash daemon_hash h (fork_at (pos h)) ≡ r =
        Stops-unique h r (fork_at (pos h)) s in
      let c : examine stored_hash daemon_hash h undetermined ≡ undetermined =
        pass_on h undetermined d in
      let e : examine stored_hash daemon_hash h (fork_at (pos h)) ≡ fork_at (pos h) =
        pass_on h (fork_at (pos h)) d in
      fork_at≢undetermined (pos h) (sym e ∙ b ∙ sym a ∙ c)

  Verdict-unique : (h lo : ℕ) (r q : Fork E) → Verdict h lo r → Verdict h lo q → r ≡ q
  Verdict-unique h lo r q (inr (e, all)) (inr (e', all')) = e ∙ sym e'
  Verdict-unique h lo r q (inr (e, all)) (inl (k, from, to, s, above)) =
      absurd (Stops-not-Disagrees k q s (all k from to))
  Verdict-unique h lo r q (inl (k, from, to, s, above)) (inr (e, all)) =
      absurd (Stops-not-Disagrees k r s (all k from to))
  Verdict-unique h lo r q (inl (k, from, to, s, above)) (inl (k', from', to', s', above')) =
      elim (ℕ_discrete k k') [
        | yes e ↦
            sym (Stops-unique k r undetermined s)
            ∙ Stops-unique k q undetermined (subst (λ (m : ℕ). Stops m q) (sym e) s')
        | no ne ↦ elim (Bool-cases (ltb k k')) [
          | inl lower ↦ absurd (Stops-not-Disagrees k' q s' (above k' (ltb→lt k k' lower) to'))
          | inr higher ↦
              let le : k' ≤ k = not-ltb→le k k' higher in
              absurd (Stops-not-Disagrees k r s (above' k (omega arith) to))
        ]
      ]

-- The difference of two heights does not wrap.
height_difference : (a b : ℕ) → a < 2 ^ 63 → b < 2 ^ 63 → sub64 (pos a) (pos b) ≡ sub_ℕ a b
unfolding ◌-ℤ◌
height_difference a b top low =
    int64_from_bits-int64_bits (sub_ℕ (a + 0) (0 + b)) (ground arith) ∙ ground arith

-- The lowest height of the search, where nothing wraps.
lowest_lem :
    (suspected depth : ℕ)
    → suspected < 2 ^ 63
    → depth < 2 ^ 63
    → lowest (pos suspected) (pos depth) ≡ suspected - depth
lowest_lem suspected depth top low =
    rw (height_difference suspected depth top low, lowest) (ground arith)

module _ {E : Type 0} (stored_hash daemon_hash : ℤ → Lookup E) where
  -- For an int64 height of at least 1 and a depth that is not negative, the search for the fork
  -- point answers r exactly if r is the verdict on the heights from suspected - depth, or from 0 if
  -- that is negative, up to suspected: at the highest of them that is no plain disagreement, a fork
  -- point if both hashes agree, undetermined if no hash is stored, the error if a lookup fails;
  -- undetermined if all disagree.
  pub find_fork_point-Verdict :
      (suspected depth : ℕ)
      → 1 ≤ suspected
      → suspected < 2 ^ 63
      → depth < 2 ^ 63
      → (r : Fork E)
      → (find_fork_point stored_hash daemon_hash (pos suspected) (pos depth) ≡ r)
        ↔ Verdict stored_hash daemon_hash suspected (suspected - depth) r
  unfolding find_fork_point
  find_fork_point-Verdict suspected depth least top low r =
      rw (lowest_lem suspected depth top low, le→not-ltb suspected 1 least)
        (
          λ e.
              subst (Verdict stored_hash daemon_hash suspected (suspected - depth)) e
                (walk-Verdict stored_hash daemon_hash suspected (suspected - depth) (omega arith)),
          λ v.
              Verdict-unique stored_hash daemon_hash suspected (suspected - depth)
                (walk stored_hash daemon_hash suspected (suspected - depth)) r
                (walk-Verdict stored_hash daemon_hash suspected (suspected - depth) (omega arith))
                v,
        )
