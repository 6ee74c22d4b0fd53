-- ===== src/Base/Strconv/Laws.antt =====
-- The decimal text of an int64 reads as that int64.
use native.Mathlib.Nat.{pow-suc}
use hyper_gnomon.Base.{
  ℕ, zero, suc, ◌+◌, ◌-◌, ◌/◌, ◌%◌, ◌^◌, ◌≤◌, ◌<◌, ◌≡◌, refl, ap, ◌∙◌, inl, inr, arith, [], ◌∷◌,
  Bool, true, false, some, Bool-cases,
}
use hyper_gnomon.Base.{ltb, if_yes, if_no, le→leb, lt→ltb}
use hyper_gnomon.Base.Int.{ℤ, pos, negsuc, IsI64}
use hyper_gnomon.Base.Texts.{Bytes, is_empty}
use hyper_gnomon.Base.Strconv.{parse_digits, in_range, unsigned, parse_int, put_digits, format_int}

abbrev StartsWithDigit : Bytes → Type 0
StartsWithDigit [] = ⊥
StartsWithDigit (c ∷ cs) = 48 ≤ c

-- The loop puts the digits of `n` before those that are there.
parse_digits-put_digits :
    (f n : ℕ) (acc : Bytes) → n < 10 ^ f → parse_digits 0 (put_digits f n acc) ≡ parse_digits n acc
unfolding parse_digits put_digits
parse_digits-put_digits zero n acc h = ap (λ (t : ℕ). parse_digits t acc) (omega arith)
parse_digits-put_digits (suc f) n acc h = elim (Bool-cases (ltb n 10)) [
  | inl last ↦ rw last (ground arith)
  | inr more ↦ rw more (
      parse_digits-put_digits f (n / 10) ((48 + n % 10) ∷ acc) (omega (arith, pow-suc 10 f))
      ∙ ground arith)
]

starts_kept : (f n : ℕ) (acc : Bytes) → StartsWithDigit acc → StartsWithDigit (put_digits f n acc)
unfolding put_digits
starts_kept zero n acc h = h
starts_kept (suc f) n acc h = elim (Bool-cases (ltb n 10)) [
  | inl last ↦ rw last (omega arith)
  | inr more ↦ rw more (starts_kept f (n / 10) ((48 + n % 10) ∷ acc) (omega arith))
]

starts-put_digits : (f n : ℕ) → StartsWithDigit (put_digits (suc f) n [])
unfolding put_digits
starts-put_digits f n = elim (Bool-cases (ltb n 10)) [
  | inl last ↦ rw last (omega arith)
  | inr more ↦ rw more (starts_kept f (n / 10) ((48 + n % 10) ∷ []) (omega arith))
]

filled : (s : Bytes) → StartsWithDigit s → is_empty s ≡ false
filled [] h = absurd h
filled (c ∷ cs) h = refl

no_sign : (s : Bytes) → StartsWithDigit s → parse_int s ≡ unsigned false s
unfolding parse_int
no_sign [] h = absurd h
no_sign (c ∷ cs) h = ground arith

parse_digits_end : (n : ℕ) → parse_digits n [] ≡ some n
unfolding parse_digits
parse_digits_end n = refl

minus_sign : (s : Bytes) → parse_int (45 ∷ s) ≡ unsigned true s
unfolding parse_int
minus_sign s = refl

unsigned-put_digits :
    (minus : Bool) (n : ℕ)
    → n < 10 ^ 20
    → unsigned minus (put_digits 20 n []) ≡ in_range minus (some n)
unsigned-put_digits minus n h =
    if_no _ _ _ (filled (put_digits 20 n []) (starts-put_digits 19 n))
    ∙ ap (in_range minus) (parse_digits-put_digits 20 n [] h ∙ parse_digits_end n)

pub parse_int-format_int : (z : ℤ) → IsI64 z → parse_int (format_int z) ≡ some z
unfolding format_int
parse_int-format_int (pos n) h =
    no_sign (put_digits 20 n []) (starts-put_digits 19 n)
    ∙ unsigned-put_digits false n (omega arith)
    ∙ if_yes _ _ _ (lt→ltb n (2 ^ 63) h)
parse_int-format_int (negsuc n) h =
    let e : n + 1 ≡ suc n = omega arith in
    minus_sign (put_digits 20 (n + 1) [])
    ∙ unsigned-put_digits true (n + 1) (omega arith)
    ∙ ap (λ (t : ℕ). in_range true (some t)) e
    ∙ if_yes _ _ _ (le→leb n (2 ^ 63 - 1) (omega arith))
