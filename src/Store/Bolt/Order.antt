-- ===== src/Store/Bolt/Order.antt =====
-- The order of the keys, and what a walk from a seek meets.
use hyper_gnomon.Base.{◌≡◌, refl, sym, ◌∙◌, inl, inr, arith, List, [], ◌∷◌, true, false, Bool-cases}
use hyper_gnomon.Base.Texts.{Bytes, bytes_eq, bytes_eq→eq}
use hyper_gnomon.Base.Dict.{has, keys}
use hyper_gnomon.Store.Keys.Order.{less_bytes}
use hyper_gnomon.Store.Bolt.{IsBelow, has_prefix}

pub less_bytes_irrefl : (s : Bytes) → less_bytes s s ≡ false
unfolding less_bytes
less_bytes_irrefl [] = refl
less_bytes_irrefl (x ∷ s) = ground (arith, less_bytes_irrefl s)

pub less_bytes_trans :
    (s t u : Bytes) → less_bytes s t ≡ true → less_bytes t u ≡ true → less_bytes s u ≡ true
unfolding less_bytes
less_bytes_trans [] [] u h k = cc
less_bytes_trans [] (y ∷ t) [] h k = cc
less_bytes_trans [] (y ∷ t) (z ∷ u) h k = refl
less_bytes_trans (x ∷ s) [] u h k = cc
less_bytes_trans (x ∷ s) (y ∷ t) [] h k = cc
less_bytes_trans (x ∷ s) (y ∷ t) (z ∷ u) h k = ground (arith, less_bytes_trans s t u)

-- Of two keys that are not equal one is before the other.
pub less_bytes_total :
    (s t : Bytes) → bytes_eq s t ≡ false → less_bytes s t ≡ false → less_bytes t s ≡ true
unfolding less_bytes bytes_eq
less_bytes_total [] [] e h = cc
less_bytes_total [] (y ∷ t) e h = cc
less_bytes_total (x ∷ s) [] e h = refl
less_bytes_total (x ∷ s) (y ∷ t) e h = ground (arith, less_bytes_total s t)

-- A key with a prefix is not before it.
pub prefix_not_less : (k p : Bytes) → has_prefix k p ≡ true → less_bytes k p ≡ false
unfolding less_bytes
prefix_not_less [] [] h = refl
prefix_not_less [] (y ∷ p) h = cc
prefix_not_less (x ∷ k) [] h = refl
prefix_not_less (x ∷ k) (y ∷ p) h = ground (arith, prefix_not_less k p)

-- Behind a key that is past the prefix and does not have it, none has it.
pub past_prefix :
    (k j p : Bytes)
    → less_bytes k p ≡ false
    → has_prefix k p ≡ false
    → less_bytes k j ≡ true
    → has_prefix j p ≡ false
unfolding less_bytes
past_prefix k j [] a b c = cc
past_prefix [] j (y ∷ p) a b c = cc
past_prefix (x ∷ k) [] (y ∷ p) a b c = cc
past_prefix (x ∷ k) (z ∷ j) (y ∷ p) a b c = ground (arith, past_prefix k j p)

pub below_has :
    (k j : Bytes) (m : List (Bytes × Bytes))
    → IsBelow k m
    → has j (keys m) ≡ true
    → less_bytes k j ≡ true
below_has k j [] h e = cc
below_has k j ((i, v) ∷ m) h e = elim (Bool-cases (bytes_eq i j)) [
  | inl same ↦ rw (← bytes_eq→eq i j same) h.0
  | inr other ↦ below_has k j m h.1 (sym (rw other refl) ∙ e)
]
