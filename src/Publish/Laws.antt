-- ===== src/Publish/Laws.antt =====
-- The install keys are split as they were put together.
use hyper_gnomon.Base.{
  ℕ, zero, suc, ◌+◌, ◌-◌, ◌*◌, ◌%◌, ◌^◌, ◌<◌, ◌≡◌, refl, ap, ◌∙◌, arith, [], ◌∷◌, ◌++◌,
  append_assoc,
}
use hyper_gnomon.Base.{
  if_no, if_yes, lt→ltb, ◌||◌, none, some, All, length, drop, take-append_self, drop-append_self,
  drop-drop, ltb,
}
use hyper_gnomon.Base.Int.{pos}
use hyper_gnomon.Base.Texts.{Bytes}
use hyper_gnomon.Codec.Words.{int64_from_bits}
use hyper_gnomon.Codec.Decimal.{write_digits}
use hyper_gnomon.Codec.Decimal.Laws.{decimal, IsDigit, digits-IsDigit, write_digits-decimal}
use hyper_gnomon.Store.Keys.{last_index_byte}
use hyper_gnomon.Publish.{at_sign, int_to_str, scid_height_key, parse_height, split_scid_height_key}

last_at-none : (s : Bytes) → All IsDigit s → last_index_byte s at_sign ≡ none
last_at-none [] h = refl
last_at-none (x ∷ s) h = rw (last_at-none s h.1) (ground (arith, h.0))

last_at-append :
    (front s : Bytes)
    → All IsDigit s
    → last_index_byte (front ++ (at_sign ∷ s)) at_sign ≡ some (length front)
last_at-append [] s h = rw (last_at-none s h) refl
last_at-append (x ∷ front) s h = rw (last_at-append front s h) refl

parse_height-decimal :
    (cs : Bytes) (m : ℕ)
    → All IsDigit cs
    → parse_height cs (m % 2 ^ 64) ≡ some (decimal m cs % 2 ^ 64)
unfolding parse_height decimal
parse_height-decimal [] m h = refl
parse_height-decimal (c ∷ cs) m h =
    if_no (ltb c 48 || ltb 57 c) _ _ (ground (arith, h.0))
    ∙ rw wrap (parse_height-decimal cs (m * 10 + (c - 48)) h.1)
  where
    wrap : (m % 2 ^ 64 * 10 + (c - 48)) % 2 ^ 64 ≡ (m * 10 + (c - 48)) % 2 ^ 64
    wrap = omega arith

int_to_str-IsDigit : (n : ℕ) → All IsDigit (int_to_str (pos n))
unfolding int_to_str write_digits
int_to_str-IsDigit zero = ((omega arith, omega arith), _)
int_to_str-IsDigit (suc n) = digits-IsDigit 20 (suc n) [] _

int_to_str-decimal : (n : ℕ) → n < 2 ^ 63 → decimal 0 (int_to_str (pos n)) ≡ n
unfolding int_to_str decimal
int_to_str-decimal zero h = refl
int_to_str-decimal (suc n) h = write_digits-decimal (suc n) (omega arith)

split_found :
    (scid : Bytes) (n : ℕ)
    → n < 2 ^ 63
    → split_scid_height_key (scid ++ (at_sign ∷ int_to_str (pos n))) ≡ some (scid, pos n)
unfolding split_scid_height_key
split_found scid n h =
    rw (last_at-append scid (int_to_str (pos n)) (int_to_str-IsDigit n), split_scid_height_key)
      (rw (digits_left, parsed)
        (λ i. some (take-append_self scid (at_sign ∷ int_to_str (pos n)) i, back i)))
  where
    digits_left :
        drop (length scid + 1) (scid ++ (at_sign ∷ int_to_str (pos n))) ≡ int_to_str (pos n)
    digits_left =
        rw
          (
            ← drop-drop (length scid) 1 (scid ++ (at_sign ∷ int_to_str (pos n))),
            drop-append_self scid (at_sign ∷ int_to_str (pos n)),
          )
          refl

    parsed : parse_height (int_to_str (pos n)) 0 ≡ some n
    parsed =
        parse_height-decimal (int_to_str (pos n)) 0 (int_to_str-IsDigit n)
        ∙ ap some (rw (int_to_str-decimal n h) (omega arith))

    back : int64_from_bits n ≡ pos n
    back = unfold int64_from_bits in if_yes (ltb n (2 ^ 63)) _ _ (lt→ltb n (2 ^ 63) h)

-- A batch's install key is split into its contract and height, whatever characters the contract
-- has, if the height is an int64 that is not negative.
pub split_scid_height_key-scid_height_key :
    (scid : Bytes) (n : ℕ)
    → n < 2 ^ 63
    → split_scid_height_key (scid_height_key scid (pos n)) ≡ some (scid, pos n)
unfolding scid_height_key
split_scid_height_key-scid_height_key scid n h =
    ap split_scid_height_key (append_assoc scid (at_sign ∷ []) (int_to_str (pos n)))
    ∙ split_found scid n h
