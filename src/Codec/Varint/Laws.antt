-- ===== src/Codec/Varint/Laws.antt =====
-- Varints are read back, within ten bytes, and `uvarint_len` counts their bytes.
use hyper_gnomon.Base.{ℕ, zero, suc, ◌+◌, ◌*◌, ◌/◌, ◌%◌, ◌^◌, ◌≤◌, ◌<◌, ◌≡◌, ap, ◌∙◌}
use hyper_gnomon.Base.{[], ◌∷◌, ◌++◌, arith, inl, inr}
use hyper_gnomon.Base.{length, some, ltb, Bool-cases}
use native.Mathlib.Nat.{div-add-mod, pow-suc}
use native.Mathlib.Numerals.{towards_suc}
use hyper_gnomon.Codec.{Bytes, IsU64}
use hyper_gnomon.Codec.Varint.{uvarint_bytes, uvarint_loop, uvarint}
use hyper_gnomon.Codec.Varint.{uvarint_len_loop, uvarint_len}

-- One round on the last byte, and on a byte that announces another.
final_byte :
    (w i s x : ℕ) (rest : Bytes)
    → w < 128
    → i < 10
    → (i ≡ 9 → w ≤ 1)
    → uvarint_loop (w ∷ rest) i s x ≡ some (x + w * 2 ^ s, i + 1)
unfolding uvarint_loop
final_byte w i s x rest hw hi h = ground arith

inner_byte :
    (g i s x : ℕ) (rest : Bytes)
    → g < 128
    → i < 10
    → uvarint_loop ((g + 128) ∷ rest) i s x ≡ uvarint_loop rest (i + 1) (s + 7) (x + g * 2 ^ s)
unfolding uvarint_loop
inner_byte g i s x rest hg hi = let low : (g + 128) % 128 ≡ g = omega arith in ground (arith, low)

pow_seven : (s : ℕ) → 2 ^ (s + 7) ≡ 128 * 2 ^ s
pow_seven s = simp towards_suc (omega arith)

-- The lowest seven bits of `w` and those above, moved up by `s`.
regroup : (w s : ℕ) → w * 2 ^ s ≡ w % 128 * 2 ^ s + w / 128 * 2 ^ (s + 7)
regroup w s = omega (
  arith,
  ap (λ (t : ℕ). t * 2 ^ s) (div-add-mod w 128),
  ap (λ (t : ℕ). w / 128 * t) (pow_seven s),
)

-- At shift 63 one bit is left.
last_bit : (w i s x : ℕ) → s ≡ 7 * i → x + w * 2 ^ s < 2 ^ 64 → i ≡ 9 → w ≤ 1
last_bit w i s x hs fits h =
    let width : s ≡ 63 = omega arith in omega (arith, ap (λ (t : ℕ). w * 2 ^ t) width)

uvarint_loop-bytes :
    (f w i s x : ℕ) (rest : Bytes)
    → w < 128 ^ suc f
    → s ≡ 7 * i
    → i + f < 10
    → x + w * 2 ^ s < 2 ^ 64
    → uvarint_loop (uvarint_bytes (suc f) w ++ rest) i s x
      ≡ some (x + w * 2 ^ s, i + length (uvarint_bytes (suc f) w))
unfolding uvarint_bytes
uvarint_loop-bytes zero w i s x rest hw hs hf fits =
    ground (arith, final_byte w i s x rest, last_bit w i s x hs fits)
uvarint_loop-bytes (suc f) w i s x rest hw hs hf fits = elim (Bool-cases (ltb w 128)) [
  | inl small ↦ rw small (ground (arith, final_byte w i s x rest, last_bit w i s x hs fits))
  | inr large ↦ rw large (
      inner_byte (w % 128) i s x (uvarint_bytes (suc f) (w / 128) ++ rest) (omega arith)
        (omega arith)
      ∙ uvarint_loop-bytes f (w / 128) (i + 1) (s + 7) (x + w % 128 * 2 ^ s) rest
          (omega (arith, pow-suc 128 (suc f))) (omega arith) (omega arith)
          (omega (arith, regroup w s))
      ∙ ap some (ground (arith, regroup w s)))
]

pub uvarint-bytes :
    (w : ℕ) (rest : Bytes)
    → IsU64 w
    → uvarint (uvarint_bytes 10 w ++ rest) ≡ some (w, length (uvarint_bytes 10 w))
unfolding uvarint
uvarint-bytes w rest h = ground (arith, uvarint_loop-bytes 9 w 0 0 0 rest)

pub length-uvarint_bytes_pos : (f u : ℕ) → 0 < length (uvarint_bytes (suc f) u)
unfolding uvarint_bytes
length-uvarint_bytes_pos f u = ground arith

uvarint_len_loop-bytes :
    (f u n : ℕ)
    → u < 128 ^ suc f
    → uvarint_len_loop (suc f) u n + 1 ≡ n + length (uvarint_bytes (suc f) u)
unfolding uvarint_len_loop uvarint_bytes
uvarint_len_loop-bytes zero u n h = ground arith
uvarint_len_loop-bytes (suc f) u n h =
    ground (arith, pow-suc 128 (suc f), uvarint_len_loop-bytes f (u / 128) (n + 1))

pub uvarint_len-bytes : (u : ℕ) → IsU64 u → uvarint_len u ≡ length (uvarint_bytes 10 u)
unfolding uvarint_len
uvarint_len-bytes u h = omega (arith, uvarint_len_loop-bytes 9 u 1)

-- A number that is read takes one to ten bytes, all of them there.
uvarint_loop_takes :
    (b : Bytes) (i s x v n : ℕ)
    → i ≤ 10
    → uvarint_loop b i s x ≡ some (v, n)
    → (i < n) × (n ≤ i + length b) × (n ≤ 10)
unfolding uvarint_loop
uvarint_loop_takes [] i s x v n hi e = cc
uvarint_loop_takes (b ∷ rest) i s x v n hi e =
    ground (arith, uvarint_loop_takes rest (i + 1) (s + 7) (x + b % 128 * 2 ^ s) v n)

pub uvarint_takes :
    (b : Bytes) (v n : ℕ) → uvarint b ≡ some (v, n) → (0 < n) × (n ≤ length b) × (n ≤ 10)
unfolding uvarint
uvarint_takes b v n e = ground (arith, uvarint_loop_takes b 0 0 0 v n)
