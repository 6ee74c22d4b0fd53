-- ===== src/Codec/TelaContent/Laws.antt =====
-- TELAContentEntry: the encoder's exact size, and the round trip through the shared buffer.
use hyper_gnomon.Base.{◌+◌, ◌≤◌, ◌≡◌, refl, sym, ◌∙◌, arith, inl, inr}
use hyper_gnomon.Base.{
  List, [], ◌∷◌, ◌++◌, some, none, append_assoc, length, length-append, not, ◌||◌,
}
use hyper_gnomon.Base.{
  slice, drop, drop-append_self, get_or, ltb, ◌==◌, le→not-ltb, not-ltb→le, false, if◌then◌else◌,
  Bool-cases,
}
use hyper_gnomon.Base.Int.{IsI64}
use hyper_gnomon.Codec.{
  Bytes, IsU64, ok, err, panic, Decoded, returns, panics, invalid_tela_content_entry,
}
use hyper_gnomon.Codec.Words.{be_bytes, be_fold, be_uint, int64_bits, int64_from_bits}
use hyper_gnomon.Codec.Words.Laws.{past, int64_found, length-be_bytes}
use hyper_gnomon.Codec.Varint.{append_uvarint, uvarint_bytes}
use hyper_gnomon.Codec.Varint.Laws.{uvarint_len-bytes}
use hyper_gnomon.Codec.Arena.Laws.{
  read_strings, len_strings, read_strings_found, loc_ranges-Coalesces,
}
use hyper_gnomon.Codec.LenString.Laws.{len_string}
use hyper_gnomon.Codec.TelaContent.{TelaContentEntry, tag_tela_content_v1, tela_content_header_size}
use hyper_gnomon.Codec.TelaContent.{
  marshal_size, marshal_typed, unmarshal_typed, read_content, fill_content,
}

-- The height is an int64 and the two strings have uint64 lengths.
pub record InRange (e : TelaContentEntry) : Type 0 where
  pub height : IsI64 e.height
  pub mime : IsU64 (length e.mime)
  pub etag : IsU64 (length e.etag)

abbrev strings_of : TelaContentEntry → List Bytes
strings_of e = e.mime ∷ e.etag ∷ []

shape :
    (e : TelaContentEntry)
    → marshal_typed e
      ≡ tag_tela_content_v1
        ∷ (be_bytes 8 (int64_bits e.height) ++ (len_strings (strings_of e) ++ e.body))
unfolding marshal_typed be_bytes append_uvarint
shape e = simp append_assoc

-- The capacity that TELAContentEntry's MarshalTyped asks for is the length of the encoding, if the
-- height is an int64 and the lengths fit in a uint64.
pub marshal_size-tela_content :
    (e : TelaContentEntry) → InRange e → marshal_size e ≡ length (marshal_typed e)
unfolding marshal_size
marshal_size-tela_content e h = rw (shape e) (
    omega (
      arith,
      length-be_bytes 8 (int64_bits e.height),
      length-append (be_bytes 8 (int64_bits e.height)) (len_strings (strings_of e) ++ e.body),
      length-append (len_strings (strings_of e)) e.body,
      length-append (len_string e.mime) (len_strings (e.etag ∷ [])),
      length-append (len_string e.etag) [],
      length-append (uvarint_bytes 10 (length e.mime)) e.mime,
      length-append (uvarint_bytes 10 (length e.etag)) e.etag,
      uvarint_len-bytes (length e.mime) h.mime,
      uvarint_len-bytes (length e.etag) h.etag,
    ))

-- The decoder without the shared buffer.
direct_content : TelaContentEntry → Bytes → Decoded TelaContentEntry
direct_content e b = elim (read_strings 2 b tela_content_header_size) [
  | ok (ss, pos) ↦
      returns (record e { mime = get_or ss 0 []; etag = get_or ss 1 []; body = drop pos b }) none
  | err x ↦ returns e (some invalid_tela_content_entry)
  | panic ↦ panics
]

unfoldable pub direct_typed : TelaContentEntry → Bytes → Decoded TelaContentEntry
unfolding direct_content
direct_typed e b =
    if ltb (length b) tela_content_header_size || not (get_or b 0 0 == tag_tela_content_v1)
    then returns e (some invalid_tela_content_entry)
    else direct_content (record e { height = int64_from_bits (be_uint (slice b 1 9)) }) b

read-direct_content :
    (e : TelaContentEntry) (b : Bytes) → 9 ≤ length b → read_content e b ≡ direct_content e b
unfolding read_content direct_content
read-direct_content e b h = elim (loc_ranges-Coalesces 2 b 9 h) [
  | inl (rs, ss, end, loc, reads, cuts, _) ↦
      rw (loc, read_content) (rw (reads, direct_content) (rw (cuts, fill_content) refl))
  | inr (x, loc, reads) ↦ rw (loc, read_content) (rw (reads, direct_content) refl)
]

-- On every input and receiver the decoder of content entries with its shared string buffer returns
-- the same entry and error as a decoder that reads the two strings one by one.
pub unmarshal-direct_tela_content :
    (e : TelaContentEntry) (b : Bytes) → unmarshal_typed e b ≡ direct_typed e b
unfolding unmarshal_typed direct_typed
unmarshal-direct_tela_content e b = elim (Bool-cases (ltb (length b) 9)) [
  | inl short ↦ rw short refl
  | inr long ↦ elim (Bool-cases (get_or b 0 0 == tag_tela_content_v1)) [
    | inl tagged ↦ rw (long, tagged) (read-direct_content _ b (not-ltb→le _ _ long))
    | inr other ↦ rw (long, other) refl
  ]
]

module _ (e : TelaContentEntry) (b : Bytes) (h : InRange e)
    (eq : b
      ≡ tag_tela_content_v1
        ∷ (be_bytes 8 (int64_bits e.height) ++ (len_strings (strings_of e) ++ e.body))) where
  abbrev header : Bytes
  header = tag_tela_content_v1 ∷ be_bytes 8 (int64_bits e.height)

  abbrev strings : Bytes
  strings = len_strings (strings_of e)

  width : length header ≡ 9
  width = omega (arith, length-be_bytes 8 (int64_bits e.height))

  height_found : int64_from_bits (be_fold 0 (slice b 1 9)) ≡ e.height
  height_found =
      int64_found e.height 1 9 (tag_tela_content_v1 ∷ []) (strings ++ e.body) eq refl refl h.height

  strings_found : read_strings 2 b 9 ≡ ok (strings_of e, 9 + length strings)
  strings_found =
      read_strings_found (strings_of e) 9 header e.body eq (sym width) (h.mime, (h.etag, tt))

  body_found : drop (9 + length strings) b ≡ e.body
  body_found =
      let reach : 9 + length strings ≡ length (header ++ strings) =
        omega (arith, width, length-append header strings) in
      rw (reach, past header strings e.body eq) (drop-append_self (header ++ strings) e.body)

  room : ltb (length b) 9 ≡ false
  room =
      le→not-ltb (length b) 9
        (rw eq (omega (arith, width, length-append header (strings ++ e.body))))

  tag_found : get_or b 0 0 ≡ tag_tela_content_v1
  tag_found = rw eq

  direct-shape : (old : TelaContentEntry) → direct_typed old b ≡ returns e none
  unfolding direct_typed direct_content
  direct-shape old =
      rw (room, tag_found, height_found) (rw (strings_found, direct_content) (rw body_found refl))

-- A content entry whose height is an int64 and whose lengths fit in a uint64 is decoded from its
-- typed encoding to itself, whatever the receiver held before.
pub unmarshal-marshal_tela_content :
    (old e : TelaContentEntry) → InRange e → unmarshal_typed old (marshal_typed e) ≡ returns e none
unmarshal-marshal_tela_content old e h =
    unmarshal-direct_tela_content old (marshal_typed e)
    ∙ direct-shape e (marshal_typed e) h (shape e) old
