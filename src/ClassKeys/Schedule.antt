-- ===== src/ClassKeys/Schedule.antt =====
-- indexer/classkeys.go: which refreshes of a class ask for the full manifest.
use hyper_gnomon.Base.{
  ℕ, suc, ◌+◌, ◌*◌, ◌/◌, ◌%◌, ◌^◌, ◌<◌, ◌≡◌, ◌≢◌, refl, sym, ap, ◌∙◌, inl, inr, arith, List, [],
  ◌∷◌, false, Option, none, some, Bool-cases, if_yes, if_no, length, lt→ltb, if◌then◌else◌, ◌==◌,
  subst,
}
use hyper_gnomon.Base.Texts.{Bytes, bytes_eq, bytes_eq→eq, bytes_eq_refl, text}
use hyper_gnomon.ClassKeys.{doc_keys, class_keys, Counters, bump, magnitude, pick_refresh_keys}

abbrev pub doc_class : Bytes
doc_class = text "TELA-DOC-1"

-- The calls with the class of documents.
abbrev pub doc_calls : List Bytes → ℕ
doc_calls [] = 0
doc_calls (c ∷ earlier) =
    if bytes_eq c doc_class then suc (doc_calls earlier) else doc_calls earlier

-- The counters after calls with these classes, the last call first.
abbrev pub counters_after : List Bytes → Counters
counters_after [] = []
counters_after (c ∷ earlier) = (pick_refresh_keys c (counters_after earlier)).1

-- What a call answers, by the calls before it; `none` is the full manifest.
pub data Scheduled (class : Bytes) (earlier : List Bytes) : Option (List Bytes) → Type 0 where
  without_keys : class ≢ doc_class → Scheduled class earlier none
  each_tenth :
      (k : ℕ) → class ≡ doc_class → doc_calls earlier + 1 ≡ k * 10 → Scheduled class earlier none
  between :
      (k r : ℕ)
      → class ≡ doc_class
      → doc_calls earlier + 1 ≡ k * 10 + r
      → 0 < r
      → r < 10
      → Scheduled class earlier (some doc_keys)

-- The counter of a class, 0 where there is none.
counter : Bytes → Counters → ℕ
counter class [] = 0
counter class ((c, n) ∷ more) =
    let rest = counter class more in if bytes_eq c class then n else rest

bump-counted : (class : Bytes) (cs : Counters) → (bump class cs).0 ≡ (counter class cs + 1) % 2 ^ 64
unfolding bump counter
bump-counted class [] = refl
bump-counted class ((c, n) ∷ cs) = ground (arith, bump-counted class cs)

counter-bump :
    (class : Bytes) (cs : Counters)
    → counter class (bump class cs).1 ≡ (counter class cs + 1) % 2 ^ 64
unfolding bump counter
counter-bump class [] = if_yes _ _ _ (bytes_eq_refl class)
counter-bump class ((c, n) ∷ cs) = ground (arith, counter-bump class cs)

pick_refresh_keys-without_keys :
    (class : Bytes) (cs : Counters)
    → bytes_eq class doc_class ≡ false
    → pick_refresh_keys class cs ≡ (none, cs)
unfolding pick_refresh_keys class_keys
pick_refresh_keys-without_keys class cs other = rw other refl

pick_refresh_keys-each_tenth :
    (cs : Counters)
    → magnitude (bump doc_class cs).0 % 10 ≡ 0
    → pick_refresh_keys doc_class cs ≡ (none, (bump doc_class cs).1)
unfolding pick_refresh_keys class_keys bytes_eq
pick_refresh_keys-each_tenth cs h = rw h refl

pick_refresh_keys-between :
    (cs : Counters)
    → magnitude (bump doc_class cs).0 % 10 ≢ 0
    → pick_refresh_keys doc_class cs ≡ (some doc_keys, (bump doc_class cs).1)
unfolding pick_refresh_keys class_keys bytes_eq
pick_refresh_keys-between cs h =
    if_no (magnitude (bump doc_class cs).0 % 10 == 0) _ _ (ground (arith, h))

pick_refresh_keys-bump :
    (cs : Counters) → (pick_refresh_keys doc_class cs).1 ≡ (bump doc_class cs).1
pick_refresh_keys-bump cs = elim (Bool-cases (magnitude (bump doc_class cs).0 % 10 == 0)) [
  | inl tenth ↦ λ i. (pick_refresh_keys-each_tenth cs (ground (arith, tenth)) i).1
  | inr other ↦ λ i. (pick_refresh_keys-between cs (λ e. ground (arith, other, e)) i).1
]

doc_calls_bound : (earlier : List Bytes) → doc_calls earlier < length earlier + 1
doc_calls_bound [] = omega arith
doc_calls_bound (c ∷ earlier) = ground (arith, doc_calls_bound earlier)

counter-after :
    (earlier : List Bytes)
    → length earlier < 2 ^ 63
    → counter doc_class (counters_after earlier) ≡ doc_calls earlier
unfolding counter
counter-after [] h = refl
counter-after (c ∷ earlier) h =
    let same = counter-after earlier (omega arith) in
    let bound = doc_calls_bound earlier in
    elim (Bool-cases (bytes_eq c doc_class)) [
      | inl docs ↦
          ap (λ d. counter doc_class (pick_refresh_keys d (counters_after earlier)).1)
            (bytes_eq→eq c doc_class docs)
          ∙ (ap (counter doc_class) (pick_refresh_keys-bump (counters_after earlier))
              ∙ (counter-bump doc_class (counters_after earlier) ∙ (rw (same, docs) (omega arith))))
      | inr other ↦
          ap (λ r. counter doc_class r.1)
            (pick_refresh_keys-without_keys c (counters_after earlier) other)
          ∙ rw other same
    ]

bump-after :
    (earlier : List Bytes)
    → length earlier + 1 < 2 ^ 63
    → magnitude (bump doc_class (counters_after earlier)).0 ≡ doc_calls earlier + 1
unfolding magnitude
bump-after earlier h =
    let bound = doc_calls_bound earlier in
    let small : (doc_calls earlier + 1) % 2 ^ 64 ≡ doc_calls earlier + 1 = omega arith in
    rw (bump-counted doc_class (counters_after earlier), counter-after earlier (omega arith), small)
      (if_yes _ _ _ (lt→ltb (doc_calls earlier + 1) (2 ^ 63) (omega arith)))

doc_refresh-Scheduled :
    (earlier : List Bytes)
    → length earlier + 1 < 2 ^ 63
    → Scheduled doc_class earlier (pick_refresh_keys doc_class (counters_after earlier)).0
doc_refresh-Scheduled earlier h =
    let n = doc_calls earlier + 1 in
    let counted = bump-after earlier h in
    elim (Bool-cases (n % 10 == 0)) [
      | inl tenth ↦
          subst (Scheduled doc_class earlier)
            (sym (
              ap (λ r. r.0)
                (pick_refresh_keys-each_tenth (counters_after earlier)
                  (rw counted (ground (arith, tenth))))))
            (each_tenth (n / 10) refl (ground (arith, tenth)))
      | inr other ↦
          subst (Scheduled doc_class earlier)
            (sym (
              ap (λ r. r.0)
                (pick_refresh_keys-between (counters_after earlier)
                  (rw counted (λ e. ground (arith, other, e))))))
            (between (n / 10) (n % 10) refl (omega arith) (ground (arith, other)) (omega arith))
    ]

-- After any calls of pickRefreshKeys from empty counters, fewer than 2^63 - 1, the next call
-- answers nil, the full manifest, for a class other than TELA-DOC-1 and for each tenth call with
-- TELA-DOC-1, and the keys of the documents for the other calls with TELA-DOC-1, whatever calls
-- with other classes lie between.
pub pick_refresh_keys-Scheduled :
    (class : Bytes) (earlier : List Bytes)
    → length earlier + 1 < 2 ^ 63
    → Scheduled class earlier (pick_refresh_keys class (counters_after earlier)).0
pick_refresh_keys-Scheduled class earlier h = elim (Bool-cases (bytes_eq class doc_class)) [
  | inl docs ↦
      subst (λ c. Scheduled c earlier (pick_refresh_keys c (counters_after earlier)).0)
        (sym (bytes_eq→eq class doc_class docs)) (doc_refresh-Scheduled earlier h)
  | inr other ↦
      subst (Scheduled class earlier)
        (sym (ap (λ r. r.0) (pick_refresh_keys-without_keys class (counters_after earlier) other)))
        (without_keys (λ e. apart class other e))
]
  where
    apart : (c : Bytes) → bytes_eq c doc_class ≡ false → c ≢ doc_class
    apart c other e = cc (other, bytes_eq_refl doc_class, e)
