-- ===== src/Base/DictSort.antt =====
-- A Go map in the order of its sorted keys: the same keys have the same values.
use hyper_gnomon.Base.{
  ◌≡◌, refl, sym, ap, ◌∙◌, inl, inr, arith, List, [], ◌∷◌, Bool, true, false, Option, none, some,
  Bool-cases, if◌then◌else◌,
}
use hyper_gnomon.Base.Texts.{Bytes, bytes_eq, bytes_eq→eq, bytes_eq_comm}
use hyper_gnomon.Base.Dict.{get, has, keys}
use hyper_gnomon.Base.Sort.{insert_by, sort_by}

module _ {V : Type 0} where
  -- Each key stands once.
  abbrev pub IsMap : List (Bytes × V) → Type 0
  IsMap [] = Unit {0}
  IsMap ((k, v) ∷ m) = (has k (keys m) ≡ false) × IsMap m

  pub get-absent : (k : Bytes) (m : List (Bytes × V)) → has k (keys m) ≡ false → get k m ≡ none
  get-absent k [] h = refl
  get-absent k ((j, v) ∷ m) h = elim (Bool-cases (bytes_eq j k)) [
    | inl same ↦ ground (arith, h, same)
    | inr other ↦ rw other (get-absent k m (ground (arith, h, other)))
  ]

module _ {V : Type 0} (less : Bytes × V → Bytes × V → Bool) where
  has-insert_by :
      (j k : Bytes) (v : V) (m : List (Bytes × V))
      → has j (keys (insert_by less (k, v) m)) ≡ (if bytes_eq k j then true else has j (keys m))
  has-insert_by j k v [] = refl
  has-insert_by j k v ((i, w) ∷ m) = elim (Bool-cases (less (i, w) (k, v))) [
    | inl before ↦ rw before (ground (arith, has-insert_by j k v m))
    | inr behind ↦ rw behind refl
  ]

  has-sort_by : (j : Bytes) (m : List (Bytes × V)) → has j (keys (sort_by less m)) ≡ has j (keys m)
  has-sort_by j [] = refl
  has-sort_by j ((k, v) ∷ m) =
      has-insert_by j k v (sort_by less m)
      ∙ ap (λ (b : Bool). if bytes_eq k j then true else b) (has-sort_by j m)

  get-insert_by :
      (j k : Bytes) (v : V) (m : List (Bytes × V))
      → has k (keys m) ≡ false
      → get j (insert_by less (k, v) m) ≡ (if bytes_eq k j then some v else get j m)
  get-insert_by j k v [] h = refl
  get-insert_by j k v ((i, w) ∷ m) h = elim (Bool-cases (less (i, w) (k, v))) [
    | inr behind ↦ rw behind refl
    | inl before ↦
        let apart : bytes_eq i k ≡ false = ground (arith, h) in
        let absent : has k (keys m) ≡ false = ground (arith, h, apart) in
        rw before (elim (Bool-cases (bytes_eq i j)) [
          | inl here ↦
              let e : bytes_eq k j ≡ false =
                bytes_eq_comm k j
                ∙ ap (λ (t : Bytes). bytes_eq t k) (sym (bytes_eq→eq i j here))
                ∙ apart in
              rw (here, e) refl
          | inr there ↦ rw there (get-insert_by j k v m absent)
        ])
  ]

  pub get-sort_by : (j : Bytes) (m : List (Bytes × V)) → IsMap m → get j (sort_by less m) ≡ get j m
  get-sort_by j [] h = refl
  get-sort_by j ((k, v) ∷ m) h =
      get-insert_by j k v (sort_by less m) (has-sort_by k m ∙ h.0)
      ∙ ap (λ (o : Option V). if bytes_eq k j then some v else o) (get-sort_by j m h.1)

  IsMap-insert_by :
      (k : Bytes) (v : V) (m : List (Bytes × V))
      → has k (keys m) ≡ false
      → IsMap m
      → IsMap (insert_by less (k, v) m)
  IsMap-insert_by k v [] h a = (refl, tt)
  IsMap-insert_by k v ((i, w) ∷ m) h a = elim (Bool-cases (less (i, w) (k, v))) [
    | inr behind ↦ rw behind (h, a)
    | inl before ↦
        let apart : bytes_eq i k ≡ false = ground (arith, h) in
        let absent : has k (keys m) ≡ false = ground (arith, h, apart) in
        rw before (
          has-insert_by i k v m ∙ ground (arith, bytes_eq_comm k i, apart, a.0),
          IsMap-insert_by k v m absent a.1,
        )
  ]

  pub IsMap-sort_by : (m : List (Bytes × V)) → IsMap m → IsMap (sort_by less m)
  IsMap-sort_by [] a = tt
  IsMap-sort_by ((k, v) ∷ m) a =
      IsMap-insert_by k v (sort_by less m) (has-sort_by k m ∙ a.0) (IsMap-sort_by m a.1)
