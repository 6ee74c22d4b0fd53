-- ===== src/Codec/Words/Laws.antt =====
-- Big-endian words and int64 patterns are inverse to their readers.
use hyper_gnomon.Base.{ℕ, zero, suc, ◌+◌, ◌*◌, ◌/◌, ◌%◌, ◌^◌, ◌<◌, ◌≡◌, refl, ◌∙◌}
use hyper_gnomon.Base.{[], ◌∷◌, ◌++◌, append-nil, append_assoc, arith}
use hyper_gnomon.Base.{sym, ap, slice, slice_middle}
use hyper_gnomon.Base.{length, length-append, All, All-append}
use hyper_gnomon.Base.Int.{ℤ, pos, negsuc, IsI64}
use native.Mathlib.Nat.{pow-suc, zero-add, add-zero}
use hyper_gnomon.Codec.{Bytes, IsByte, IsU64}
use hyper_gnomon.Codec.Words.{be_bytes, be_fold, int64_bits, int64_from_bits}

pub be_fold-append :
    (acc : ℕ) (xs ys : Bytes) → be_fold acc (xs ++ ys) ≡ be_fold (be_fold acc xs) ys
unfolding be_fold
be_fold-append acc [] ys = refl
be_fold-append acc (x ∷ xs) ys = be_fold-append (acc * 256 + x) xs ys

pub length-be_bytes : (n v : ℕ) → length (be_bytes n v) ≡ n
unfolding be_bytes
length-be_bytes zero v = refl
length-be_bytes (suc n) v =
    omega (arith, length-append (be_bytes n (v / 256)) (v % 256 ∷ []), length-be_bytes n (v / 256))

pub be_bytes-IsByte : (n v : ℕ) → All IsByte (be_bytes n v)
unfolding be_bytes
be_bytes-IsByte zero v = tt
be_bytes-IsByte (suc n) v =
    All-append IsByte (be_bytes n (v / 256)) _ (be_bytes-IsByte n (v / 256)) (omega arith, tt)

-- A word that fits is read back.
pub be_fold-be_bytes : (n v : ℕ) → v < 256 ^ n → be_fold 0 (be_bytes n v) ≡ v
unfolding be_bytes be_fold
be_fold-be_bytes zero v h = omega arith
be_fold-be_bytes (suc n) v h =
    be_fold-append 0 (be_bytes n (v / 256)) (v % 256 ∷ [])
    ∙ rw (be_fold-be_bytes n (v / 256) (omega (arith, pow-suc 256 n))) (omega arith)

pub be_bytes-be_fold :
    (n acc : ℕ) (xs : Bytes)
    → All IsByte xs
    → be_bytes (length xs + n) (be_fold acc xs) ≡ be_bytes n acc ++ xs
unfolding be_bytes be_fold
be_bytes-be_fold n acc [] h = rw (append-nil, zero-add)
be_bytes-be_fold n acc (x ∷ xs) h =
    let longer : suc (length xs) + n ≡ length xs + suc n = omega arith in
    let high : (acc * 256 + x) / 256 ≡ acc = omega (arith, h.0) in
    let low : (acc * 256 + x) % 256 ≡ x = omega (arith, h.0) in
    rw longer (
      be_bytes-be_fold (suc n) (acc * 256 + x) xs h.1
      ∙ rw (high, low) (append_assoc (be_bytes n acc) (x ∷ []) xs))

-- A word of `n` bytes is below 256 ^ n.
be_fold-below :
    (acc k : ℕ) (s : Bytes) → All IsByte s → acc < k → be_fold acc s < k * 256 ^ length s
unfolding be_fold
be_fold-below acc k [] h lt = omega arith
be_fold-below acc k (x ∷ s) h lt = omega (
  arith,
  be_fold-below (acc * 256 + x) (k * 256) s h.1 (omega (arith, h.0)),
  ap (λ (t : ℕ). k * t) (pow-suc 256 (length s)),
)

pub be_fold-fits : (n : ℕ) (s : Bytes) → length s ≡ n → All IsByte s → be_fold 0 s < 256 ^ n
be_fold-fits n s width h = rw (← width) (omega (arith, be_fold-below 0 1 s h (omega arith)))

pub int64_bits-IsU64 : (z : ℤ) → IsU64 (int64_bits z)
unfolding int64_bits
int64_bits-IsU64 (pos n) = omega arith
int64_bits-IsU64 (negsuc n) = omega arith

pub int64_from_bits-int64_bits : (z : ℤ) → IsI64 z → int64_from_bits (int64_bits z) ≡ z
unfolding int64_bits int64_from_bits
int64_from_bits-int64_bits (pos n) h = ground arith
int64_from_bits-int64_bits (negsuc n) h = ground arith

pub int64_bits-int64_from_bits : (n : ℕ) → IsU64 n → int64_bits (int64_from_bits n) ≡ n
unfolding int64_bits int64_from_bits
int64_bits-int64_from_bits n h = ground arith

pub int64_from_bits-IsI64 : (n : ℕ) → IsU64 n → IsI64 (int64_from_bits n)
unfolding int64_from_bits
int64_from_bits-IsI64 n h = ground arith

-- A step along a slice that is known piece by piece.
pub past : {b : Bytes} (pre seg post : Bytes) → b ≡ pre ++ (seg ++ post) → b ≡ (pre ++ seg) ++ post
past pre seg post e = e ∙ sym (append_assoc pre seg post)

-- The word that stands at `start` is read there.
pub word_found :
    (n v start end : ℕ) {b : Bytes} (pre post : Bytes)
    → b ≡ pre ++ (be_bytes n v ++ post)
    → start ≡ length pre
    → end ≡ start + n
    → v < 256 ^ n
    → be_fold 0 (slice b start end) ≡ v
word_found n v start end pre post e at to fits =
    let reach : end ≡ length pre + length (be_bytes n v) = omega (arith, length-be_bytes n v) in
    rw (e, reach, at, slice_middle pre (be_bytes n v) post) (be_fold-be_bytes n v fits)

pub int64_found :
    (z : ℤ) (start end : ℕ) {b : Bytes} (pre post : Bytes)
    → b ≡ pre ++ (be_bytes 8 (int64_bits z) ++ post)
    → start ≡ length pre
    → end ≡ start + 8
    → IsI64 z
    → int64_from_bits (be_fold 0 (slice b start end)) ≡ z
int64_found z start end pre post e at to h =
    rw (word_found 8 (int64_bits z) start end pre post e at to (int64_bits-IsU64 z))
      (int64_from_bits-int64_bits z h)

-- Eight bytes are what their word is written as, also by way of an int64.
pub word_rewritten :
    (s : Bytes)
    → length s ≡ 8
    → All IsByte s
    → be_bytes 8 (int64_bits (int64_from_bits (be_fold 0 s))) ≡ s
word_rewritten s width h =
    rw
      (
        int64_bits-int64_from_bits (be_fold 0 s) (be_fold-fits 8 s width h),
        ← width,
        ← add-zero (length s),
      )
      (be_bytes-be_fold 0 0 s h ∙ unfold be_bytes in refl)
