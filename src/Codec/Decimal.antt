-- ===== src/Codec/Decimal.antt =====
-- itoaBase10 of typed_encoding.go.
pub mod Laws
use hyper_gnomon.Base.{ℕ, zero, suc, ◌+◌, ◌-◌, ◌*◌, ◌/◌, ◌%◌, ◌^◌, List, [], ◌∷◌, ◌++◌}
use hyper_gnomon.Base.{◌==◌, if◌then◌else◌}
use hyper_gnomon.Base.Int.{ℤ, pos, negsuc}
use hyper_gnomon.Codec.{Bytes}

-- `-n` on an int64: the least value is its own negation.
unfoldable pub negate64 : ℤ → ℤ
negate64 (pos zero) = pos 0
negate64 (pos (suc n)) = negsuc n
negate64 (negsuc n) = if n + 1 == 2 ^ 63 then negsuc n else pos (n + 1)

-- `for n > 0 { i--; buf[i] = byte('0' + n%10); n /= 10 }`, from the digits written so far. The
-- buffer holds 20 bytes, and an int64 has 19 digits at most.
unfoldable pub digits : ℕ → ℕ → Bytes → Bytes
digits zero n acc = acc
digits (suc f) n acc =
    let rest = digits f (n / 10) ((48 + n % 10) ∷ acc) in if n == 0 then acc else rest

unfoldable pub write_digits : ℤ → Bytes
unfolding digits
write_digits (pos n) = digits 20 n []
write_digits (negsuc n) = []

unfoldable pub itoa_base10 : ℤ → Bytes
unfolding write_digits negate64
itoa_base10 (pos zero) = 48 ∷ []
itoa_base10 (pos (suc n)) = write_digits (pos (suc n))
itoa_base10 (negsuc n) = 45 ∷ write_digits (negate64 (negsuc n))
