-- ===== src/Base/Texts.antt =====
-- Go strings and byte slices, and the test of two for equality.
use Prim.Native.Char.{code}
use Prim.Native.String.{String}
use hyper_gnomon.Base.{ℕ, ◌≡◌, refl, List, [], ◌∷◌, Bool, true, false, ◌&&◌, arith}
use hyper_gnomon.Base.{◌==◌}

-- A byte is below 256.
abbrev pub Bytes : Type 0
Bytes = List ℕ

unfoldable pub bytes_eq : Bytes → Bytes → Bool
bytes_eq [] [] = true
bytes_eq (x ∷ xs) (y ∷ ys) = x == y && bytes_eq xs ys
bytes_eq _ _ = false

abbrev pub is_empty : Bytes → Bool
is_empty [] = true
is_empty (x ∷ s) = false

pub bytes_eq→eq : (s t : Bytes) → bytes_eq s t ≡ true → s ≡ t
unfolding bytes_eq
bytes_eq→eq [] [] h = refl
bytes_eq→eq [] (y ∷ ys) h = cc
bytes_eq→eq (x ∷ xs) [] h = cc
bytes_eq→eq (x ∷ xs) (y ∷ ys) h = ground (arith, bytes_eq→eq xs ys)

pub bytes_eq_refl : (s : Bytes) → bytes_eq s s ≡ true
unfolding bytes_eq
bytes_eq_refl [] = refl
bytes_eq_refl (x ∷ xs) = ground (arith, bytes_eq_refl xs)

pub bytes_eq_comm : (s t : Bytes) → bytes_eq s t ≡ bytes_eq t s
unfolding bytes_eq
bytes_eq_comm [] [] = refl
bytes_eq_comm [] (y ∷ t) = refl
bytes_eq_comm (x ∷ s) [] = refl
bytes_eq_comm (x ∷ s) (y ∷ t) = ground (arith, bytes_eq_comm s t)

-- The bytes of an ASCII text.
abbrev pub text : String → Bytes
text String.[] = []
text (String.◌∷◌ c s) = code c ∷ text s
