-- ===== src/Codec/Decimal/Laws.antt =====
-- What itoaBase10 writes is the number in decimal, but for the least int64.
use hyper_gnomon.Base.{
  ℕ, zero, suc, ◌+◌, ◌-◌, ◌*◌, ◌/◌, ◌%◌, ◌^◌, ◌≤◌, ◌<◌, ◌≡◌, refl, ap, ◌∙◌, arith, inl, inr, ◌≢◌,
}
use hyper_gnomon.Base.{[], ◌∷◌, ◌==◌, if◌then◌else◌, Bool-cases, All}
use hyper_gnomon.Base.Int.{ℤ, pos, negsuc, IsI64}
use native.Mathlib.Nat.{pow-suc}
use hyper_gnomon.Codec.{Bytes}
use hyper_gnomon.Codec.Decimal.{digits, write_digits, itoa_base10, negate64}

-- The number that a text of digits stands for, after the value of those before it.
unfoldable pub decimal : ℕ → Bytes → ℕ
decimal acc [] = acc
decimal acc (c ∷ cs) = decimal (acc * 10 + (c - 48)) cs

-- The integer that a text stands for: a minus sign may stand before the digits.
unfoldable pub parse_int : Bytes → ℤ
unfolding decimal
parse_int [] = pos 0
parse_int (c ∷ cs) =
    if c == 45
    then (if decimal 0 cs == 0 then pos 0 else negsuc (decimal 0 cs - 1))
    else pos (decimal 0 (c ∷ cs))

abbrev pub IsDigit : ℕ → Type 0
IsDigit c = (48 ≤ c) × (c < 58)

-- The loop puts the digits of `n` before those that are there.
decimal-digits : (f n : ℕ) (acc : Bytes) → n < 10 ^ f → decimal 0 (digits f n acc) ≡ decimal n acc
unfolding digits decimal
decimal-digits zero n acc h = ap (λ (t : ℕ). decimal t acc) (omega arith)
decimal-digits (suc f) n acc h = elim (Bool-cases (n == 0)) [
  | inl done ↦ rw done (ap (λ (t : ℕ). decimal t acc) (ground (arith, done)))
  | inr more ↦ rw more (
      decimal-digits f (n / 10) ((48 + n % 10) ∷ acc) (omega (arith, pow-suc 10 f))
      ∙ ap (λ (t : ℕ). decimal t acc) (omega arith))
]

pub digits-IsDigit : (f n : ℕ) (acc : Bytes) → All IsDigit acc → All IsDigit (digits f n acc)
unfolding digits
digits-IsDigit zero n acc h = h
digits-IsDigit (suc f) n acc h = elim (Bool-cases (n == 0)) [
  | inl done ↦ rw done h
  | inr more ↦
      rw more (digits-IsDigit f (n / 10) ((48 + n % 10) ∷ acc) ((omega arith, omega arith), h))
]

-- A text of digits is the number that it reads as.
parse_digits : (cs : Bytes) → All IsDigit cs → parse_int cs ≡ pos (decimal 0 cs)
unfolding parse_int
parse_digits [] h = refl
parse_digits (c ∷ cs) h = ground (arith, h.0.0)

pub write_digits-decimal : (n : ℕ) → n < 2 ^ 64 → decimal 0 (write_digits (pos n)) ≡ n
unfolding write_digits decimal
write_digits-decimal n h = decimal-digits 20 n [] (omega arith)

-- The decimal text that itoaBase10 writes for an int64 other than the least one reads as that
-- int64.
pub parse_int-itoa_base10 :
    (z : ℤ) → IsI64 z → z ≢ negsuc (2 ^ 63 - 1) → parse_int (itoa_base10 z) ≡ z
unfolding itoa_base10
parse_int-itoa_base10 (pos zero) h ne = unfold parse_int decimal in refl
parse_int-itoa_base10 (pos (suc n)) h ne =
    parse_digits (write_digits (pos (suc n)))
      (unfold write_digits in digits-IsDigit 20 (suc n) [] tt)
    ∙ ap pos (write_digits-decimal (suc n) (omega arith))
parse_int-itoa_base10 (negsuc n) h ne =
    rw (flips) (unfold parse_int in rw (write_digits-decimal (n + 1) (omega arith)) (ground arith))
  where
    other : n ≢ 2 ^ 63 - 1
    other e = ne (ap negsuc e)

    flips : negate64 (negsuc n) ≡ pos (n + 1)
    flips = unfold negate64 in ground (arith, other)

-- The least int64 is written as a minus sign alone.
pub itoa_base10_least : itoa_base10 (negsuc (2 ^ 63 - 1)) ≡ 45 ∷ []
unfolding itoa_base10
itoa_base10_least = refl
