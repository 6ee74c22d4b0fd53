-- ===== src/Store/Bolt/Laws.antt =====
-- What a key holds after each of the deletions of storage/truncate.go.
use hyper_gnomon.Base.{
  ◌≡◌, refl, ap, ◌∙◌, inl, inr, arith, List, [], ◌∷◌, Bool, true, false, ◌&&◌, not, none,
  Bool-cases, Option-cases, if◌then◌else◌,
}
use hyper_gnomon.Base.Texts.{Bytes, bytes_eq, bytes_eq→eq}
use hyper_gnomon.Base.Dict.{has, keys, is_some, has-keys}
use hyper_gnomon.Store.Keys.Order.{less_bytes}
use hyper_gnomon.Store.Bolt.{
  Engine, IsLawful, IsBelow, IsAscending, has_prefix, seek, prefix_keys, keys_where, at_key,
  delete_all, delete_from_seek, delete_prefix_where, delete_where,
}
use hyper_gnomon.Store.Bolt.Order.{less_bytes_trans, prefix_not_less, past_prefix, below_has}

-- No key of the walk is before the start.
abbrev pub IsFrom : Bytes → List (Bytes × Bytes) → Type 0
IsFrom p [] = Unit {0}
IsFrom p ((k, v) ∷ m) = (less_bytes k p ≡ false) × IsFrom p m

-- What follows a key that is not before the start is not before it either.
below-IsFrom :
    (p k : Bytes) (m : List (Bytes × Bytes)) → less_bytes k p ≡ false → IsBelow k m → IsFrom p m
below-IsFrom p k [] h b = tt
below-IsFrom p k ((j, v) ∷ m) h b = elim (Bool-cases (less_bytes j p)) [
  | inl less ↦ cc (less_bytes_trans k j p b.0 less)
  | inr more ↦ (more, below-IsFrom p k m h b.1)
]

-- A test by a set that has no more than the map may leave the map out.
has-keys_where :
    (pred : Bytes → Bool) (j : Bytes) (m : List (Bytes × Bytes))
    → has j (keys_where pred m) ≡ (pred j && has j (keys m))
has-keys_where pred j [] = ground arith
has-keys_where pred j ((k, v) ∷ m) = elim (Bool-cases (bytes_eq k j)) [
  | inl same ↦
      let e : pred k ≡ pred j = ap pred (bytes_eq→eq k j same) in
      ground (arith, has-keys_where pred j m)
  | inr other ↦ ground (arith, has-keys_where pred j m)
]

pub IsAscending-seek :
    (p : Bytes) (m : List (Bytes × Bytes))
    → IsAscending m
    → IsAscending (seek p m) × IsFrom p (seek p m)
IsAscending-seek p [] a = (tt, tt)
IsAscending-seek p ((k, v) ∷ m) a = elim (Bool-cases (less_bytes k p)) [
  | inl less ↦ rw less (IsAscending-seek p m a.1)
  | inr more ↦ rw more (a, (more, below-IsFrom p k m more a.0))
]

pub has-seek :
    (p j : Bytes) (m : List (Bytes × Bytes))
    → IsAscending m
    → has j (keys (seek p m)) ≡ (not (less_bytes j p) && has j (keys m))
has-seek p j [] a = ground arith
has-seek p j ((k, v) ∷ m) a = elim (Bool-cases (less_bytes k p)) [
  | inl less ↦ rw less (elim (Bool-cases (bytes_eq k j)) [
    | inl same ↦
        let e : less_bytes j p ≡ true = rw (← bytes_eq→eq k j same) less in
        has-seek p j m a.1 ∙ ground (arith, e)
    | inr other ↦ rw other (has-seek p j m a.1)
  ])
  | inr more ↦ rw more (elim (Bool-cases (bytes_eq k j)) [
    | inl same ↦
        let e : less_bytes j p ≡ false = rw (← bytes_eq→eq k j same) more in ground (arith, e)
    | inr other ↦ elim (Bool-cases (has j (keys m))) [
      | inr absent ↦ ground (arith, absent, other)
      | inl found ↦ elim (Bool-cases (less_bytes j p)) [
        | inl less ↦ cc (less_bytes_trans k j p (below_has k j m a.0 found) less)
        | inr e ↦ ground (arith, e)
      ]
    ]
  ])
]

has-prefix_keys :
    (p j : Bytes) (pred : Bytes → Bool) (m : List (Bytes × Bytes))
    → IsAscending m
    → IsFrom p m
    → has j (prefix_keys p pred m) ≡ (has_prefix j p && pred j && has j (keys m))
has-prefix_keys p j pred [] a f = ground arith
has-prefix_keys p j pred ((k, v) ∷ m) a f = elim (Bool-cases (has_prefix k p)) [
  | inl yes_prefix ↦ rw yes_prefix (elim (Bool-cases (bytes_eq k j)) [
    | inl same ↦
        let e : has_prefix j p ≡ true = rw (← bytes_eq→eq k j same) yes_prefix in
        let q : pred k ≡ pred j = ap pred (bytes_eq→eq k j same) in
        ground (arith, e, q, has-prefix_keys p j pred m a.1 f.1)
    | inr other ↦ ground (arith, other, has-prefix_keys p j pred m a.1 f.1)
  ])
  | inr past ↦ rw past (elim (Bool-cases (bytes_eq k j)) [
    | inl same ↦
        let e : has_prefix j p ≡ false = rw (← bytes_eq→eq k j same) past in ground (arith, e)
    | inr other ↦ elim (Bool-cases (has j (keys m))) [
      | inr absent ↦ ground (arith, absent, other)
      | inl found ↦ ground (arith, past_prefix k j p f.0 past (below_has k j m a.0 found))
    ]
  ])
]

module _ (D : Engine) (L : IsLawful D) where
  get-delete_all :
      (ks : List Bytes) (j : Bytes) (b : D.Bucket)
      → at_key D j (delete_all D ks b) ≡ (if has j ks then none else at_key D j b)
  unfolding delete_all
  get-delete_all [] j b = refl
  get-delete_all (k ∷ ks) j b =
      ground (arith, get-delete_all ks j (D.delete k b), L.get-delete k j b)

  -- A deletion of keys that are there and pass a test: the test alone says what is left.
  get-deleted :
      (ks : List Bytes) (test : Bool) (j : Bytes) (b : D.Bucket)
      → has j ks ≡ (test && has j (keys (D.entries b)))
      → at_key D j (delete_all D ks b) ≡ (if test then none else at_key D j b)
  get-deleted ks test j b h = elim (Option-cases (at_key D j b)) [
    | inl e ↦ get-delete_all ks j b ∙ rw (e) (ground arith)
    | inr (v, e) ↦
        let present : has j (keys (D.entries b)) ≡ true = has-keys j (D.entries b) ∙ ap is_some e in
        get-delete_all ks j b ∙ ground (arith, h, present)
  ]

  pub get-delete_where :
      (pred : Bytes → Bool) (j : Bytes) (b : D.Bucket)
      → at_key D j (delete_where D b pred) ≡ (if pred j then none else at_key D j b)
  unfolding delete_where
  get-delete_where pred j b =
      get-deleted (keys_where pred (D.entries b)) (pred j) j b (has-keys_where pred j (D.entries b))

  pub get-delete_from_seek :
      (start j : Bytes) (b : D.Bucket)
      → at_key D j (delete_from_seek D b start)
        ≡ (if not (less_bytes j start) then none else at_key D j b)
  unfolding delete_from_seek
  get-delete_from_seek start j b =
      get-deleted (keys (seek start (D.entries b))) (not (less_bytes j start)) j b
        (has-seek start j (D.entries b) (L.ascending b))

  pub get-delete_prefix_where :
      (prefix : Bytes) (pred : Bytes → Bool) (j : Bytes) (b : D.Bucket)
      → at_key D j (delete_prefix_where D b prefix pred)
        ≡ (if has_prefix j prefix && pred j then none else at_key D j b)
  unfolding delete_prefix_where
  get-delete_prefix_where prefix pred j b =
      get-deleted (prefix_keys prefix pred (seek prefix (D.entries b)))
        (has_prefix j prefix && pred j) j b
        (has-prefix_keys prefix j pred (seek prefix (D.entries b)) (from.0) (from.1)
          ∙ ap (λ (t : Bool). has_prefix j prefix && pred j && t)
              (has-seek prefix j (D.entries b) (L.ascending b))
          ∙ elim (Bool-cases (has_prefix j prefix)) [
            | inl h ↦ ground (arith, prefix_not_less j prefix h)
            | inr h ↦ ground (arith, h)
          ])
    where
      from : IsAscending (seek prefix (D.entries b)) × IsFrom prefix (seek prefix (D.entries b))
      from = IsAscending-seek prefix (D.entries b) (L.ascending b)
