-- ===== src/Base/Dict.antt =====
-- Go maps and sets with strings for keys: association lists in which each key stands once, and lists.
use hyper_gnomon.Base.{
  ◌≡◌, refl, ap, ◌∙◌, inl, inr, arith, List, [], ◌∷◌, Bool, true, false, Option, none, some,
  Bool-cases, if◌then◌else◌,
}
use hyper_gnomon.Base.Texts.{Bytes, bytes_eq, bytes_eq→eq, bytes_eq_refl}

abbrev pub get : {V : Type 0} → Bytes → List (Bytes × V) → Option V
get k [] = none
get k ((j, v) ∷ m) = let rest = get k m in if bytes_eq j k then some v else rest

abbrev pub put : {V : Type 0} → Bytes → V → List (Bytes × V) → List (Bytes × V)
put k v [] = (k, v) ∷ []
put k v ((j, w) ∷ m) = let rest = put k v m in if bytes_eq j k then (j, v) ∷ m else (j, w) ∷ rest

abbrev pub has : Bytes → List Bytes → Bool
has x [] = false
has x (y ∷ set) = let rest = has x set in if bytes_eq y x then true else rest

-- `set[scid] = struct{}{}`
abbrev pub include : Bytes → List Bytes → List Bytes
include x set = if has x set then set else x ∷ set

abbrev pub is_some : {V : Type 0} → Option V → Bool
is_some none = false
is_some (some v) = true

-- The value of an option that has one.
abbrev pub value_of : {V : Type 0} → (o : Option V) → is_some o ≡ true → (v : V) × (o ≡ some v)
value_of none h = cc h
value_of (some v) h = (v, refl)

abbrev pub keys : {V : Type 0} → List (Bytes × V) → List Bytes
keys [] = []
keys ((k, v) ∷ m) = k ∷ keys m

pub get-put_same :
    {V : Type 0} → (k : Bytes) (v : V) (m : List (Bytes × V)) → get k (put k v m) ≡ some v
get-put_same k v [] = rw (bytes_eq_refl k) refl
get-put_same k v ((j, w) ∷ m) = elim (Bool-cases (bytes_eq j k)) [
  | inl same ↦ rw (same, same) refl
  | inr other ↦ rw (other, other) (get-put_same k v m)
]

pub get-put_other :
    {V : Type 0}
    → (k j : Bytes) (v : V) (m : List (Bytes × V)) → bytes_eq k j ≡ false
    → get j (put k v m) ≡ get j m
get-put_other k j v [] h = rw h refl
get-put_other k j v ((i, w) ∷ m) h = elim (Bool-cases (bytes_eq i k)) [
  | inl same ↦
      let e : bytes_eq i j ≡ false = ap (λ (t : Bytes). bytes_eq t j) (bytes_eq→eq i k same) ∙ h in
      rw (same, e) refl
  | inr other ↦ rw (other, get-put_other k j v m h) refl
]

pub has-include_same : (x : Bytes) (set : List Bytes) → has x (include x set) ≡ true
has-include_same x set = elim (Bool-cases (has x set)) [
  | inl old ↦ rw old old
  | inr new ↦ rw (new, bytes_eq_refl x) refl
]

pub has-include : (x y : Bytes) (set : List Bytes) → has y set ≡ true → has y (include x set) ≡ true
has-include x y set h = elim (Bool-cases (has x set)) [
  | inl old ↦ rw old h
  | inr new ↦ rw new (ground (arith, h))
]

pub has-keys :
    {V : Type 0} → (j : Bytes) (m : List (Bytes × V)) → has j (keys m) ≡ is_some (get j m)
has-keys j [] = refl
has-keys j ((k, v) ∷ m) = ground (arith, has-keys j m)
