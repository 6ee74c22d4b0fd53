-- ===== src/Codec/TelaContent.antt =====
-- TELAContentEntry of structures/types.go and its typed v1 encoding.
pub mod Laws
use hyper_gnomon.Base.{ℕ, zero, suc, ◌+◌, List, [], ◌∷◌, ◌++◌, some, none, Bool, not, ◌||◌, ◌&&◌}
use hyper_gnomon.Base.{
  ◌==◌, ltb, leb, if◌then◌else◌, length, slice, drop, get_or, replicate, copy_at,
}
use hyper_gnomon.Base.Int.{ℤ}
use hyper_gnomon.Codec.{Bytes, Result, ok, err, panic, Decoded, returns, panics}
use hyper_gnomon.Codec.{invalid_tela_content_entry}
use hyper_gnomon.Codec.Words.{be_bytes, be_fold, be_uint, int64_bits, int64_from_bits}
use hyper_gnomon.Codec.Varint.{append_uvarint, uvarint_len}
use hyper_gnomon.Codec.Arena.{Range, loc_ranges, coalesce}

pub record TelaContentEntry : Type 0 where
  pub body : Bytes
  pub mime : Bytes
  pub etag : Bytes
  pub height : ℤ

abbrev pub tag_tela_content_v1 : ℕ
tag_tela_content_v1 = 0x07

abbrev pub tela_content_header_size : ℕ
tela_content_header_size = 1 + 8

-- The capacity that MarshalTyped asks for.
unfoldable pub marshal_size : TelaContentEntry → ℕ
marshal_size e =
    tela_content_header_size
    + uvarint_len (length e.mime)
    + length e.mime
    + uvarint_len (length e.etag)
    + length e.etag
    + length e.body

unfoldable pub marshal_typed : TelaContentEntry → Bytes
marshal_typed e =
    let buf0 = copy_at 0 (tag_tela_content_v1 ∷ []) (replicate tela_content_header_size 0) in
    let buf1 = copy_at 1 (be_bytes 8 (int64_bits e.height)) buf0 in
    let buf2 = append_uvarint buf1 (length e.mime) in
    let buf3 = buf2 ++ e.mime in
    let buf4 = append_uvarint buf3 (length e.etag) in let buf5 = buf4 ++ e.etag in buf5 ++ e.body

-- MIME and ETag out of one buffer, and the body, a copy of what is left.
fill_content : TelaContentEntry → Bytes → List Range → ℕ → Decoded TelaContentEntry
fill_content e b rs pos = elim (coalesce b rs) [
  | ok ss ↦
      returns (record e { mime = get_or ss 0 []; etag = get_or ss 1 []; body = drop pos b }) none
  | err x ↦ panics
  | panic ↦ panics
]

read_content : TelaContentEntry → Bytes → Decoded TelaContentEntry
unfolding fill_content
read_content e b = elim (loc_ranges 2 b tela_content_header_size) [
  | ok (rs, pos) ↦ fill_content e b rs pos
  | err x ↦ returns e (some invalid_tela_content_entry)
  | panic ↦ panics
]

unfoldable pub unmarshal_typed : TelaContentEntry → Bytes → Decoded TelaContentEntry
unfolding read_content
unmarshal_typed e b =
    if ltb (length b) tela_content_header_size || not (get_or b 0 0 == tag_tela_content_v1)
    then returns e (some invalid_tela_content_entry)
    else read_content (record e { height = int64_from_bits (be_uint (slice b 1 9)) }) b

unfoldable pub is_tela_content_typed : Bytes → Bool
is_tela_content_typed b = leb 1 (length b) && get_or b 0 0 == tag_tela_content_v1
