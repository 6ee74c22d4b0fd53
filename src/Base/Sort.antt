-- ===== src/Base/Sort.antt =====
-- `slices.Sort` and `slices.SortFunc`, as an insertion sort by an order that is given as a test. Where
-- the library leaves the order of equal elements open, it is that of the list.
use hyper_gnomon.Base.{inl, inr, List, [], ◌∷◌, Bool, All, Bool-cases, if◌then◌else◌}

module _ {A : Type 0} where
  abbrev pub insert_by : (A → A → Bool) → A → List A → List A
  insert_by less x [] = x ∷ []
  insert_by less x (y ∷ l) =
      let rest = insert_by less x l in if less y x then y ∷ rest else x ∷ y ∷ l

  abbrev pub sort_by : (A → A → Bool) → List A → List A
  sort_by less [] = []
  sort_by less (x ∷ l) = insert_by less x (sort_by less l)

  All-insert_by :
      (P : A → Type 0) (less : A → A → Bool) (x : A) (l : List A)
      → P x
      → All P l
      → All P (insert_by less x l)
  All-insert_by P less x [] p h = (p, tt)
  All-insert_by P less x (y ∷ l) p h = elim (Bool-cases (less y x)) [
    | inl before ↦ rw before (h.0, All-insert_by P less x l p h.1)
    | inr behind ↦ rw behind (p, h)
  ]

  pub All-sort_by :
      (P : A → Type 0) (less : A → A → Bool) (l : List A) → All P l → All P (sort_by less l)
  All-sort_by P less [] h = tt
  All-sort_by P less (x ∷ l) h =
      All-insert_by P less x (sort_by less l) h.0 (All-sort_by P less l h.1)
