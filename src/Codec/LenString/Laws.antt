-- ===== src/Codec/LenString/Laws.antt =====
-- Strings behind their length are read back; `loc_len_string` finds what `read_len_string` copies.
use hyper_gnomon.Base.{ℕ, ◌+◌, ◌≤◌, ◌<◌, ◌≡◌, refl, ap, ◌∙◌, ◌≢◌, arith, inl, inr}
use hyper_gnomon.Base.{◌++◌, append_assoc, false, Option-cases}
use hyper_gnomon.Base.{
  length, length-append, leb, leb-false→lt, lt→not-leb, Bool-cases, drop, drop-append_self,
}
use native.Mathlib.Nat.{add_assoc}
use hyper_gnomon.Base.{slice_middle, slice, length-drop}
use hyper_gnomon.Codec.{Bytes, IsU64, Result, ok, err, panic}
use hyper_gnomon.Codec.Varint.{uvarint, append_uvarint, uvarint_bytes}
use hyper_gnomon.Codec.Varint.Laws.{uvarint-bytes, length-uvarint_bytes_pos, uvarint_takes}
use hyper_gnomon.Codec.LenString.{
  append_len_string, read_body, read_len_string, loc_body, loc_len_string,
}

-- What `append_len_string` adds.
abbrev pub len_string : Bytes → Bytes
len_string s = uvarint_bytes 10 (length s) ++ s

pub append_len_string_lem : (dst s : Bytes) → append_len_string dst s ≡ dst ++ len_string s
unfolding append_len_string append_uvarint
append_len_string_lem dst s = append_assoc dst (uvarint_bytes 10 (length s)) s

-- The string that stands at `pos` is found there, whatever follows.
pub loc_len_string_found :
    (pre s post : Bytes)
    → IsU64 (length s)
    → loc_len_string (pre ++ (len_string s ++ post)) (length pre)
      ≡ ok (
        length pre + length (uvarint_bytes 10 (length s)),
        length pre + length (len_string s),
        length pre + length (len_string s),
      )
unfolding loc_len_string loc_body
loc_len_string_found pre s post h =
    rw
      (
        room,
        drop-append_self pre (len_string s ++ post),
        append_assoc (uvarint_bytes 10 (length s)) s post,
        uvarint-bytes (length s) (s ++ post) h,
      )
      (ground (arith, fits, total))
  where
    fits :
        length (pre ++ (len_string s ++ post)) ≡ length pre + (length (len_string s) + length post)
    fits =
        length-append pre (len_string s ++ post)
        ∙ ap (λ (t : ℕ). length pre + t) (length-append (len_string s) post)

    total : length (len_string s) ≡ length (uvarint_bytes 10 (length s)) + length s
    total = length-append (uvarint_bytes 10 (length s)) s

    room : leb (length (pre ++ (len_string s ++ post))) (length pre) ≡ false
    room = lt→not-leb _ _ (omega (arith, fits, total, length-uvarint_bytes_pos 9 (length s)))

-- `read_len_string` is `loc_len_string` and a copy of the range.
abbrev pub cut_range : Bytes → Result (ℕ × ℕ × ℕ) → Result (Bytes × ℕ)
cut_range b r = elim r [
  | ok (st, en, next) ↦ ok (slice b st en, next)
  | err e ↦ err e
  | panic ↦ panic
]

read-loc_body :
    (b : Bytes) (n pos : ℕ) → pos ≤ length b → read_body b n pos ≡ cut_range b (loc_body b n pos)
unfolding read_body loc_body
read-loc_body b n pos h = ground arith

pub read-loc_len_string :
    (b : Bytes) (pos : ℕ) → read_len_string b pos ≡ cut_range b (loc_len_string b pos)
unfolding read_len_string loc_len_string
read-loc_len_string b pos = elim (Bool-cases (leb (length b) pos)) [
  | inl out ↦ rw out refl
  | inr inside ↦ elim (Option-cases (uvarint (drop pos b))) [
    | inl e ↦ rw (inside, e)
    | inr ((n, k), e) ↦
        rw (inside, e)
          (read-loc_body b n (pos + k) (
            omega (
              arith,
              uvarint_takes (drop pos b) n k e,
              length-drop pos b,
              leb-false→lt _ _ inside,
            )))
  ]
]

-- A range that is found lies in the slice.
pub loc_len_string_within :
    (b : Bytes) (pos st en next : ℕ)
    → loc_len_string b pos ≡ ok (st, en, next)
    → (pos < st) × (st ≤ en) × (en ≤ length b) × (next ≡ en)
unfolding loc_len_string loc_body
loc_len_string_within b pos st en next e = elim (Option-cases (uvarint (drop pos b))) [
  | inl gone ↦ ground (arith, gone)
  | inr ((n, k), found) ↦
      ground (arith, found, uvarint_takes (drop pos b) n k found, length-drop pos b)
]

pub loc_len_string-ne-panic : (b : Bytes) (pos : ℕ) → loc_len_string b pos ≢ panic
unfolding loc_len_string loc_body
loc_len_string-ne-panic b pos = elim (Option-cases (uvarint (drop pos b))) [
  | inl gone ↦ ground (arith, gone)
  | inr (q, found) ↦ ground (arith, found)
]

pub read_len_string_found :
    (s : Bytes) (pos : ℕ) {b : Bytes} (pre post : Bytes)
    → b ≡ pre ++ (len_string s ++ post)
    → pos ≡ length pre
    → IsU64 (length s)
    → read_len_string b pos ≡ ok (s, pos + length (len_string s))
read_len_string_found s pos {b} pre post e at h =
    rw (read-loc_len_string b pos, at, e, loc_len_string_found pre s post h)
      (ap (λ (t : Bytes). ok (t, length pre + length (len_string s))) copied)
  where
    front : Bytes
    front = uvarint_bytes 10 (length s)

    copied :
        slice
          (pre ++ (len_string s ++ post))
          (length pre + length front)
          (length pre + length (len_string s))
        ≡ s
    copied =
        rw
          (
            append_assoc front s post,
            ← append_assoc pre front (s ++ post),
            length-append front s,
            ← add_assoc (length pre) (length front) (length s),
            ← length-append pre front,
          )
          (slice_middle (pre ++ front) s post)
