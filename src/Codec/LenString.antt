-- ===== src/Codec/LenString.antt =====
-- appendLenString, readLenString and locLenString of typed_encoding.go: strings behind their length.
pub mod Laws
use hyper_gnomon.Base.{ℕ, ◌+◌, ◌-◌, List, ◌++◌, none, some}
use hyper_gnomon.Base.{ltb, leb, if◌then◌else◌, length, drop, slice}
use hyper_gnomon.Codec.{Bytes, Result, ok, err, invalid_class_meta}
use hyper_gnomon.Codec.Varint.{append_uvarint, uvarint}

unfoldable pub append_len_string : Bytes → Bytes → Bytes
append_len_string dst s = append_uvarint dst (length s) ++ s

-- What readLenString does with the length, from the position behind it on.
unfoldable pub read_body : Bytes → ℕ → ℕ → Result (Bytes × ℕ)
read_body b n pos =
    if ltb (length b - pos) n
    then err invalid_class_meta
    else let end = pos + n in
      if ltb (length b) end then err invalid_class_meta else ok (slice b pos end, end)

-- The string at `pos` and the position behind it.
unfoldable pub read_len_string : Bytes → ℕ → Result (Bytes × ℕ)
unfolding read_body
read_len_string b pos =
    if leb (length b) pos then err invalid_class_meta else elim (uvarint (drop pos b)) [
      | none ↦ err invalid_class_meta
      | some (n, n_len) ↦ read_body b n (pos + n_len)
    ]

unfoldable pub loc_body : Bytes → ℕ → ℕ → Result (ℕ × ℕ × ℕ)
loc_body b n pos =
    if ltb (length b - pos) n
    then err invalid_class_meta
    else let end = pos + n in ok (pos, end, end)

-- The range of the string at `pos`, and the position behind it.
unfoldable pub loc_len_string : Bytes → ℕ → Result (ℕ × ℕ × ℕ)
unfolding loc_body
loc_len_string b pos =
    if leb (length b) pos then err invalid_class_meta else elim (uvarint (drop pos b)) [
      | none ↦ err invalid_class_meta
      | some (n, n_len) ↦ loc_body b n (pos + n_len)
    ]
