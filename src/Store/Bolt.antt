-- ===== src/Store/Bolt.antt =====
-- The database under storage/bbolt.go is a library; this is what the store uses of a bucket inside one
-- write transaction, and what bbolt documents of it. Below it, the deletions of storage/truncate.go.
pub mod Order
pub mod Laws
pub mod Memory
use hyper_gnomon.Base.{
  ℕ, ◌-◌, ◌^◌, ◌≡◌, List, [], ◌∷◌, Bool, true, false, ◌&&◌, Option, none, some, length, leb, ◌==◌,
  if◌then◌else◌,
}
use hyper_gnomon.Base.Texts.{Bytes, bytes_eq, is_empty}
use hyper_gnomon.Base.Dict.{get, keys}
use hyper_gnomon.Store.Keys.Order.{less_bytes}

-- `entries` is what a cursor walks from `First` to the end, `put` is `none` where it returns an error,
-- `empty` is a bucket that was just made, and `takes_name` is whether CreateBucketIfNotExists makes or
-- finds a bucket of a name.
pub record Engine : Type 1 where
  pub Bucket : Type 0
  pub entries : Bucket → List (Bytes × Bytes)
  pub put : Bytes → Bytes → Bucket → Option Bucket
  pub delete : Bytes → Bucket → Bucket
  pub empty : Bucket
  pub takes_name : Bytes → Bool

abbrev pub IsBelow : Bytes → List (Bytes × Bytes) → Type 0
IsBelow k [] = Unit {0}
IsBelow k ((j, v) ∷ m) = (less_bytes k j ≡ true) × IsBelow k m

abbrev pub IsAscending : List (Bytes × Bytes) → Type 0
IsAscending [] = Unit {0}
IsAscending ((k, v) ∷ m) = IsBelow k m × IsAscending m

-- Keys that bbolt takes: not empty, and of at most 32768 bytes.
abbrev pub IsKey : Bytes → Type 0
IsKey k = (is_empty k ≡ false) × (leb (length k) 32768 ≡ true)

-- Values that bbolt takes: of at most 2^31 - 2 bytes.
abbrev pub IsValue : Bytes → Type 0
IsValue v = leb (length v) (2 ^ 31 - 2) ≡ true

pub record IsLawful (D : Engine) : Type 0 where
  pub entries_empty : D.entries D.empty ≡ []
  pub ascending : (b : D.Bucket) → IsAscending (D.entries b)
  pub get-delete :
      (k j : Bytes) (b : D.Bucket)
      → get j (D.entries (D.delete k b)) ≡ (if bytes_eq k j then none else get j (D.entries b))
  pub get-put :
      (k v j : Bytes) (b c : D.Bucket)
      → D.put k v b ≡ some c
      → get j (D.entries c) ≡ (if bytes_eq k j then some v else get j (D.entries b))
  pub put_key :
      (k v : Bytes) (b : D.Bucket) → IsKey k → IsValue v → (c : D.Bucket) × (D.put k v b ≡ some c)

-- `hasPrefix`
abbrev pub has_prefix : Bytes → Bytes → Bool
has_prefix b [] = true
has_prefix [] (p ∷ prefix) = false
has_prefix (x ∷ b) (p ∷ prefix) = x == p && has_prefix b prefix

-- `c.Seek(from)` and the walk behind it.
abbrev pub seek : Bytes → List (Bytes × Bytes) → List (Bytes × Bytes)
seek start [] = []
seek start ((k, v) ∷ m) = let rest = seek start m in if less_bytes k start then rest else (k, v) ∷ m

-- The walk of `deletePrefixWhere`, which ends at the first key without the prefix.
abbrev pub prefix_keys : Bytes → (Bytes → Bool) → List (Bytes × Bytes) → List Bytes
prefix_keys prefix pred [] = []
prefix_keys prefix pred ((k, v) ∷ m) =
    let rest = prefix_keys prefix pred m in
    if has_prefix k prefix then if pred k then k ∷ rest else rest else []

abbrev pub keys_where : (Bytes → Bool) → List (Bytes × Bytes) → List Bytes
keys_where pred [] = []
keys_where pred ((k, v) ∷ m) = let rest = keys_where pred m in if pred k then k ∷ rest else rest

module _ (D : Engine) where
  abbrev pub at_key : Bytes → D.Bucket → Option Bytes
  at_key k b = get k (D.entries b)

  -- The second phase of the deletions: the keys that the walk has collected.
  unfoldable pub delete_all : List Bytes → D.Bucket → D.Bucket
  delete_all [] b = b
  delete_all (k ∷ ks) b = delete_all ks (D.delete k b)

  unfoldable pub delete_from_seek : D.Bucket → Bytes → D.Bucket
  delete_from_seek b start = delete_all (keys (seek start (D.entries b))) b

  unfoldable pub delete_prefix_where : D.Bucket → Bytes → (Bytes → Bool) → D.Bucket
  delete_prefix_where b prefix pred =
      delete_all (prefix_keys prefix pred (seek prefix (D.entries b))) b

  unfoldable pub delete_where : D.Bucket → (Bytes → Bool) → D.Bucket
  delete_where b pred = delete_all (keys_where pred (D.entries b)) b
