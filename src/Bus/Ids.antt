-- ===== src/Bus/Ids.antt =====
-- Subscription ids: different sequence numbers have different ids.
use hyper_gnomon.Base.{
  ℕ, zero, suc, ◌+◌, ◌-◌, ◌*◌, ◌/◌, ◌%◌, ◌^◌, ◌≤◌, ◌<◌, ◌≡◌, ◌≢◌, refl, sym, ap, ◌∙◌, inl, inr,
  arith,
}
use hyper_gnomon.Base.{[], ◌∷◌, ◌++◌, ltb, lt→ltb, ltb→lt, Bool-cases, if◌then◌else◌, drop}
use hyper_gnomon.Base.Texts.{Bytes}
use hyper_gnomon.Bus.{digit36, format_uint36, sub_id}

-- The number that a text of base-36 digits stands for.
digit_value : ℕ → ℕ
digit_value c = if ltb c 58 then c - 48 else c - 87

value36 : ℕ → Bytes → ℕ
value36 acc [] = acc
value36 acc (c ∷ cs) = value36 (36 * acc + digit_value c) cs

abbrev cap36 : ℕ → ℕ
cap36 zero = 1
cap36 (suc f) = 36 * cap36 f

digit_value-digit36 : (d : ℕ) → d < 36 → digit_value (digit36 d) ≡ d
unfolding digit_value
digit_value-digit36 d h = ground arith

value36-append :
    (acc : ℕ) (xs : Bytes) (c : ℕ)
    → value36 acc (xs ++ (c ∷ [])) ≡ 36 * value36 acc xs + digit_value c
unfolding value36
value36-append acc [] c = refl
value36-append acc (x ∷ xs) c = value36-append (36 * acc + digit_value x) xs c

value36-format_uint36 : (f n : ℕ) → n < cap36 f → 1 ≤ f → value36 0 (format_uint36 f n) ≡ n
unfolding format_uint36 value36
value36-format_uint36 zero n h pos = absurd (omega arith)
value36-format_uint36 (suc zero) n h pos =
    rw (lt→ltb n 36 (omega arith)) (omega (arith, digit_value-digit36 n (omega arith)))
value36-format_uint36 (suc (suc f)) n h pos = elim (Bool-cases (ltb n 36)) [
  | inl small ↦ rw small (omega (arith, digit_value-digit36 n (ltb→lt n 36 small)))
  | inr big ↦ rw big (
      rw
        (
          value36-append 0 (format_uint36 (suc f) (n / 36)) (digit36 (n % 36)),
          digit_value-digit36 (n % 36) (omega arith),
          value36-format_uint36 (suc f) (n / 36) (omega arith) (omega arith),
        )
        (omega arith))
]

sub_id-injective : (m n : ℕ) → m < 2 ^ 64 → n < 2 ^ 64 → sub_id m ≡ sub_id n → m ≡ n
unfolding sub_id
sub_id-injective m n hm hn e =
    sym (value36-format_uint36 13 m (omega arith) (omega arith))
    ∙ ap (λ (s : Bytes). value36 0 (drop 2 s)) e
    ∙ value36-format_uint36 13 n (omega arith) (omega arith)

-- Different uint64 sequence numbers give different subscription ids.
pub sub_id-distinct : (m n : ℕ) → m < 2 ^ 64 → n < 2 ^ 64 → m ≢ n → sub_id m ≢ sub_id n
sub_id-distinct m n hm hn ne e = ne (sub_id-injective m n hm hn e)
