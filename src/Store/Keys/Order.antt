-- ===== src/Store/Keys/Order.antt =====
-- The big-endian heights at the front of a key keep the order of the heights, which is what the seeks
-- of the truncation rest on.
use hyper_gnomon.Base.{
  ℕ, zero, suc, ◌/◌, ◌%◌, ◌^◌, ◌<◌, ◌≡◌, refl, sym, ap, ◌∙◌, ◌↔◌, arith, [], ◌∷◌, ◌++◌,
}
use hyper_gnomon.Base.{append_assoc, append-nil, ltb, ◌==◌, Bool, true, false, if◌then◌else◌}
use native.Mathlib.Nat.{pow-suc}
use hyper_gnomon.Base.Int.{pos}
use hyper_gnomon.Base.Texts.{Bytes}
use hyper_gnomon.Codec.Words.{be_bytes, int64_bits}
use hyper_gnomon.Store.Keys.{bar, enc_height, install_key}

-- Whether `bytes.Compare` is negative, which is the order of the keys of a bucket.
unfoldable pub less_bytes : Bytes → Bytes → Bool
less_bytes [] [] = false
less_bytes [] (y ∷ ys) = true
less_bytes (x ∷ xs) [] = false
less_bytes (x ∷ xs) (y ∷ ys) =
    let rest = less_bytes xs ys in if ltb x y then true else if x == y then rest else false

abbrev decide : ℕ → ℕ → Bool → Bool
decide v w rest = if ltb v w then true else if v == w then rest else false

decide_digits :
    (v w : ℕ) (rest : Bool)
    → decide (v / 256) (w / 256) (decide (v % 256) (w % 256) rest) ≡ decide v w rest
decide_digits v w rest = ground arith

less_bytes-be_bytes :
    (n v w : ℕ) (p q : Bytes)
    → v < 256 ^ n
    → w < 256 ^ n
    → less_bytes (be_bytes n v ++ p) (be_bytes n w ++ q) ≡ decide v w (less_bytes p q)
unfolding be_bytes
less_bytes-be_bytes zero v w p q hv hw = ground arith
less_bytes-be_bytes (suc n) v w p q hv hw =
    rw
      (
        append_assoc (be_bytes n (v / 256)) (v % 256 ∷ []) p,
        append_assoc (be_bytes n (w / 256)) (w % 256 ∷ []) q,
      )
      (rw
        (less_bytes-be_bytes n (v / 256) (w / 256) (v % 256 ∷ p) (w % 256 ∷ q)
          (omega (arith, pow-suc 256 n)) (omega (arith, pow-suc 256 n)))
        (unfold less_bytes in decide_digits v w (less_bytes p q)))

not_less_nil : (p : Bytes) → less_bytes p [] ≡ false
unfolding less_bytes
not_less_nil [] = refl
not_less_nil (x ∷ p) = refl

-- A key that starts with a height is before the eight bytes of another exactly if its height is
-- lower.
pub less_enc_height :
    (a b : ℕ) (p : Bytes)
    → a < 2 ^ 63
    → b < 2 ^ 63
    → less_bytes (enc_height (pos a) ++ p) (enc_height (pos b)) ≡ ltb a b
unfolding enc_height int64_bits
less_enc_height a b p ha hb =
    ap (less_bytes (be_bytes 8 (int64_bits (pos a)) ++ p)) (sym (append-nil (enc_height (pos b))))
    ∙ less_bytes-be_bytes 8 (int64_bits (pos a)) (int64_bits (pos b)) p [] (omega arith)
        (omega arith)
    ∙ (rw (small a ha, small b hb, not_less_nil p) (ground arith))
  where
    small : (n : ℕ) → n < 2 ^ 63 → n % 2 ^ 64 ≡ n
    small n h = omega arith

-- For heights of an int64 that are not negative, an install key is before the eight bytes of a
-- height in the order of the store's keys exactly if its own height is lower: a seek to h + 1 skips
-- the installs up to h and no other.
pub install_key-seek :
    (a b : ℕ) (scid : Bytes)
    → a < 2 ^ 63
    → b < 2 ^ 63
    → (less_bytes (install_key (pos a) scid) (enc_height (pos b)) ≡ true) ↔ (a < b)
unfolding install_key enc_height int64_bits
install_key-seek a b scid ha hb =
    (λ e. ground (arith, sym compared ∙ e), λ lt. compared ∙ ground arith)
  where
    small : (n : ℕ) → n < 2 ^ 63 → n % 2 ^ 64 ≡ n
    small n h = omega arith

    key : install_key (pos a) scid ≡ be_bytes 8 (int64_bits (pos a)) ++ (bar ∷ scid)
    key = append_assoc (be_bytes 8 (int64_bits (pos a))) (bar ∷ []) scid

    compared : less_bytes (install_key (pos a) scid) (enc_height (pos b)) ≡ decide a b false
    compared =
        ap (λ (k : Bytes). less_bytes k (enc_height (pos b))) key
        ∙ ap (less_bytes (be_bytes 8 (int64_bits (pos a)) ++ (bar ∷ scid)))
            (sym (append-nil (enc_height (pos b))))
        ∙ less_bytes-be_bytes 8 (int64_bits (pos a)) (int64_bits (pos b)) (bar ∷ scid) []
            (omega arith) (omega arith)
        ∙ (rw (small a ha, small b hb) (unfold less_bytes in refl))
