-- ===== src/Store/Bolt/Memory.antt =====
-- Buckets in memory, ascending lists, which have what is assumed of bbolt.
use hyper_gnomon.Base.{
  ◌≡◌, refl, sym, ap, ◌∙◌, inl, inr, arith, List, [], ◌∷◌, Bool, true, false, Option, none, some,
  Bool-cases, length, leb, if◌then◌else◌, if_yes, if_no,
}
use hyper_gnomon.Base.Texts.{Bytes, bytes_eq, bytes_eq→eq, bytes_eq_refl, is_empty}
use hyper_gnomon.Base.Dict.{get}
use hyper_gnomon.Store.Keys.Order.{less_bytes}
use hyper_gnomon.Store.Bolt.{Engine, IsLawful, IsBelow, IsAscending, IsKey, IsValue}
use hyper_gnomon.Store.Bolt.Order.{less_bytes_trans, less_bytes_total, less_bytes_irrefl}

abbrev pub Rows : Type 0
Rows = List (Bytes × Bytes)

abbrev remove : Bytes → Rows → Rows
remove k [] = []
remove k ((j, v) ∷ m) = let rest = remove k m in if bytes_eq k j then rest else (j, v) ∷ rest

abbrev pub insert : Bytes → Bytes → Rows → Rows
insert k v [] = (k, v) ∷ []
insert k v ((j, w) ∷ m) =
    let rest = insert k v m in
    if bytes_eq k j
    then (k, v) ∷ m
    else if less_bytes k j
    then (k, v) ∷ (j, w) ∷ m
    else (j, w) ∷ rest

get-remove :
    (k j : Bytes) (m : Rows) → get j (remove k m) ≡ (if bytes_eq k j then none else get j m)
get-remove k j [] = ground arith
get-remove k j ((i, w) ∷ m) = elim (Bool-cases (bytes_eq k i)) [
  | inl same ↦ rw (← bytes_eq→eq k i same, bytes_eq_refl k) (ground (arith, get-remove k j m))
  | inr other ↦ rw other (elim (Bool-cases (bytes_eq i j)) [
    | inl here ↦
        let e : bytes_eq k j ≡ false = rw (← bytes_eq→eq i j here) other in rw (here, e) refl
    | inr there ↦ rw there (get-remove k j m)
  ])
]

IsBelow-trans : (k j : Bytes) (m : Rows) → less_bytes k j ≡ true → IsBelow j m → IsBelow k m
IsBelow-trans k j [] h b = tt
IsBelow-trans k j ((i, v) ∷ m) h b = (less_bytes_trans k j i h b.0, IsBelow-trans k j m h b.1)

IsBelow-remove : (k i : Bytes) (m : Rows) → IsBelow i m → IsBelow i (remove k m)
IsBelow-remove k i [] b = tt
IsBelow-remove k i ((j, v) ∷ m) b = elim (Bool-cases (bytes_eq k j)) [
  | inl same ↦ rw same (IsBelow-remove k i m b.1)
  | inr other ↦ rw other (b.0, IsBelow-remove k i m b.1)
]

pub remove-IsAscending : (k : Bytes) (m : Rows) → IsAscending m → IsAscending (remove k m)
remove-IsAscending k [] a = tt
remove-IsAscending k ((j, v) ∷ m) a = elim (Bool-cases (bytes_eq k j)) [
  | inl same ↦ rw same (remove-IsAscending k m a.1)
  | inr other ↦ rw other (IsBelow-remove k j m a.0, remove-IsAscending k m a.1)
]

-- A key that is before all of a list is not in it.
get_below : (k j : Bytes) (m : Rows) → IsBelow k m → bytes_eq k j ≡ true → get j m ≡ none
get_below k j [] b e = refl
get_below k j ((i, v) ∷ m) b e = elim (Bool-cases (bytes_eq i j)) [
  | inl same ↦
      let p : k ≡ j = bytes_eq→eq k j e in
      let q : i ≡ j = bytes_eq→eq i j same in
      let less : less_bytes j j ≡ true = (λ t. less_bytes (sym p t) (sym q t)) ∙ b.0 in
      cc (less_bytes_irrefl j, less)
  | inr other ↦ rw other (get_below k j m b.1 e)
]

get-insert :
    (k v j : Bytes) (m : Rows) → get j (insert k v m) ≡ (if bytes_eq k j then some v else get j m)
get-insert k v j [] = refl
get-insert k v j ((i, w) ∷ m) = elim (Bool-cases (bytes_eq k i)) [
  | inl same ↦ rw (← bytes_eq→eq k i same, bytes_eq_refl k) (ground arith)
  | inr other ↦ rw other (elim (Bool-cases (less_bytes k i)) [
    | inl less ↦ rw less refl
    | inr more ↦ rw more (elim (Bool-cases (bytes_eq i j)) [
      | inl here ↦
          let e : bytes_eq k j ≡ false = rw (← bytes_eq→eq i j here) other in rw (here, e) refl
      | inr there ↦ rw there (get-insert k v j m)
    ])
  ])
]

IsBelow-insert :
    (k v i : Bytes) (m : Rows) → less_bytes i k ≡ true → IsBelow i m → IsBelow i (insert k v m)
IsBelow-insert k v i [] h b = (h, tt)
IsBelow-insert k v i ((j, w) ∷ m) h b = elim (Bool-cases (bytes_eq k j)) [
  | inl same ↦ rw same (h, b.1)
  | inr other ↦ rw other (elim (Bool-cases (less_bytes k j)) [
    | inl less ↦ rw less (h, b)
    | inr more ↦ rw more (b.0, IsBelow-insert k v i m h b.1)
  ])
]

pub insert-IsAscending : (k v : Bytes) (m : Rows) → IsAscending m → IsAscending (insert k v m)
insert-IsAscending k v [] a = (tt, tt)
insert-IsAscending k v ((j, w) ∷ m) a = elim (Bool-cases (bytes_eq k j)) [
  | inl same ↦ rw same (rw (bytes_eq→eq k j same) a)
  | inr other ↦ rw other (elim (Bool-cases (less_bytes k j)) [
    | inl less ↦ rw less ((less, IsBelow-trans k j m less a.0), a)
    | inr more ↦
        rw more (
          IsBelow-insert k v j m (less_bytes_total k j other more) a.0,
          insert-IsAscending k v m a.1,
        )
  ])
]

abbrev is_key : Bytes → Bool
is_key k = if is_empty k then false else leb (length k) 32768

abbrev pub memory : Engine
memory = record {
  Bucket = (m : Rows) × IsAscending m;
  entries = λ b. b.0;
  put = λ k v b. if is_key k then some (insert k v b.0, insert-IsAscending k v b.0 b.1) else none;
  empty = ([], tt);
  takes_name = is_key;
  delete = λ k b. (remove k b.0, remove-IsAscending k b.0 b.1);
}

put_insert :
    (k v j : Bytes) (b c : memory.Bucket)
    → memory.put k v b ≡ some c
    → get j c.0 ≡ (if bytes_eq k j then some v else get j b.0)
put_insert k v j b c h = elim (Bool-cases (is_key k)) [
  | inl fits ↦
      let e : some (insert k v b.0, insert-IsAscending k v b.0 b.1) ≡ some c =
        sym (if_yes (is_key k) _ _ fits) ∙ h in
      let q : insert k v b.0 ≡ c.0 =
        ap (λ (o : Option memory.Bucket). elim o [ none ↦ insert k v b.0 | some d ↦ d.0 ]) e in
      ap (get j) (sym q) ∙ get-insert k v j b.0
  | inr too_long ↦ cc (sym (if_no (is_key k) _ _ too_long) ∙ h)
]

put_key :
    (k v : Bytes) (b : memory.Bucket)
    → IsKey k
    → IsValue v
    → (c : memory.Bucket) × (memory.put k v b ≡ some c)
put_key k v b h short = (
  (insert k v b.0, insert-IsAscending k v b.0 b.1),
  if_yes (is_key k) _ _ (if_no (is_empty k) _ _ h.0 ∙ h.1),
)

pub memory-IsLawful : IsLawful memory
memory-IsLawful = record {
  entries_empty = refl;
  ascending = λ b. b.1;
  get-delete = λ k j b. get-remove k j b.0;
  get-put = put_insert;
  put_key = put_key;
}

-- A bucket with the rows of a list.
abbrev pub fill : Rows → memory.Bucket
fill [] = ([], tt)
fill ((k, v) ∷ m) = (insert k v (fill m).0, insert-IsAscending k v (fill m).0 (fill m).1)
