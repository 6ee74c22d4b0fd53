-- ===== src/Codec/ClassMeta.antt =====
-- ClassMeta of structures/types.go and its typed v1 encoding with the optional media tail.
pub mod Laws
pub mod RoundTrip
use hyper_gnomon.Base.{
  ℕ, zero, suc, ◌+◌, ◌-◌, List, [], ◌∷◌, ◌++◌, map, some, none, Bool, true, false,
}
use hyper_gnomon.Base.{not, ◌||◌, ◌&&◌, ◌==◌, ltb, leb, if◌then◌else◌, length, slice, drop, get_or}
use hyper_gnomon.Base.Int.{ℤ}
use hyper_gnomon.Codec.{Bytes, Result, ok, err, panic, ◌>>=◌, Decoded, returns, panics}
use hyper_gnomon.Codec.{invalid_class_meta}
use hyper_gnomon.Codec.Words.{be_bytes, be_fold, be_uint, int64_bits, int64_from_bits}
use hyper_gnomon.Codec.Varint.{append_uvarint, uvarint, uvarint_len}
use hyper_gnomon.Codec.LenString.{append_len_string}
use hyper_gnomon.Codec.Arena.{Arena, View, Range, make_arena, view_string, loc_ranges, total_width}
use hyper_gnomon.Codec.Arena.{cut_strings}

pub record ClassMeta : Type 0 where
  pub class : Bytes
  pub tags : List Bytes
  pub name : Bytes
  pub desc : Bytes
  pub icon_url : Bytes
  pub durl : Bytes
  pub version : Bytes
  pub install_height : ℤ
  pub last_height : ℤ
  pub image : Bytes
  pub alt_image : Bytes
  pub audio : Bytes
  pub video : Bytes
  pub images_json : Bytes

abbrev pub tag_class_meta_v1 : ℕ
tag_class_meta_v1 = 0x04

abbrev pub class_meta_min_header_size : ℕ
class_meta_min_header_size = 1 + 8 + 8

abbrev pub class_meta_media_fields : ℕ
class_meta_media_fields = 5

abbrev is_nonempty : Bytes → Bool
is_nonempty [] = false
is_nonempty (x ∷ s) = true

unfoldable pub has_media : ClassMeta → Bool
has_media m =
    is_nonempty m.image
    || is_nonempty m.alt_image
    || is_nonempty m.audio
    || is_nonempty m.video
    || is_nonempty m.images_json

-- `for _, t := range m.Tags { dst = append(AppendUvarint(dst, len(t)), t...) }`
unfoldable pub append_tags : Bytes → List Bytes → Bytes
append_tags dst [] = dst
append_tags dst (t ∷ ts) = append_tags (append_uvarint dst (length t) ++ t) ts

append_media : ClassMeta → Bytes → Bytes
append_media m dst0 =
    let dst1 = append_len_string dst0 m.image in
    let dst2 = append_len_string dst1 m.alt_image in
    let dst3 = append_len_string dst2 m.audio in
    let dst4 = append_len_string dst3 m.video in append_len_string dst4 m.images_json

unfoldable pub marshal_typed_append : ClassMeta → Bytes → Bytes
unfolding append_media
marshal_typed_append m dst0 =
    let dst1 = dst0 ++ (tag_class_meta_v1 ∷ []) in
    let dst2 = dst1 ++ be_bytes 8 (int64_bits m.install_height) in
    let dst3 = dst2 ++ be_bytes 8 (int64_bits m.last_height) in
    let dst4 = append_uvarint dst3 (length m.tags) in
    let dst5 = append_tags dst4 m.tags in
    let dst6 = append_len_string dst5 m.class in
    let dst7 = append_len_string dst6 m.name in
    let dst8 = append_len_string dst7 m.desc in
    let dst9 = append_len_string dst8 m.icon_url in
    let dst10 = append_len_string dst9 m.durl in
    let dst11 = append_len_string dst10 m.version in
    if has_media m then append_media m dst11 else dst11

abbrev pub string_size : Bytes → ℕ
string_size s = uvarint_len (length s) + length s

unfoldable pub tags_size : List Bytes → ℕ
tags_size [] = 0
tags_size (t ∷ ts) = string_size t + tags_size ts

-- The capacity that MarshalTyped asks for.
unfoldable pub marshal_size : ClassMeta → ℕ
marshal_size m =
    let fixed =
      class_meta_min_header_size
      + uvarint_len (length m.tags)
      + tags_size m.tags
      + string_size m.class
      + string_size m.name
      + string_size m.desc
      + string_size m.icon_url
      + string_size m.durl
      + string_size m.version in
    if has_media m
    then fixed
      + string_size m.image
      + string_size m.alt_image
      + string_size m.audio
      + string_size m.video
      + string_size m.images_json
    else fixed

unfoldable pub marshal_typed : ClassMeta → Bytes
unfolding marshal_typed_append
marshal_typed m = marshal_typed_append m []

-- The first pass's verdict on the media tail, with the total that it leaves.
unfoldable pub media_tail : Bytes → ℕ → ℕ → ℕ × Bool
media_tail b p total =
    if ltb p (length b)
    then elim (loc_ranges class_meta_media_fields b p) [
      | ok (rs, q) ↦ (total + total_width rs, true)
      | err e ↦ (total, false)
      | panic ↦ (total, false)
    ]
    else (total, false)

-- The first pass: the bytes of all strings, and whether there is a media tail.
unfoldable pub pass_one : ℕ → Bytes → ℕ → Result (ℕ × Bool)
unfolding media_tail
pass_one tag_count b pos = do
  (rs, p) ← loc_ranges tag_count b pos
  (rs', p') ← loc_ranges 6 b p
  ok (media_tail b p' (total_width rs + total_width rs'))

-- The second pass: tags, fixed fields and media, all views of one buffer.
unfoldable pub pass_two : ℕ → Bytes → ℕ → ℕ → Bool → Result (List Bytes × List Bytes × List Bytes)
pass_two tag_count b pos total media_ok = do
  (tags, p, a) ← cut_strings tag_count b pos (make_arena total)
  (fields, p', a') ← cut_strings 6 b p a
  (media, p'', a'') ← cut_strings (if media_ok then class_meta_media_fields else 0) b p' a'
  let show = map (view_string a''.sbuf)
  ok (show tags, show fields, show media)

-- The media members are cleared where there is no tail.
abbrev pub with_strings : ClassMeta → List Bytes → List Bytes → List Bytes → ClassMeta
with_strings m tags fields media = record m {
  tags = tags;
  class = get_or fields 0 [];
  name = get_or fields 1 [];
  desc = get_or fields 2 [];
  icon_url = get_or fields 3 [];
  durl = get_or fields 4 [];
  version = get_or fields 5 [];
  image = get_or media 0 [];
  alt_image = get_or media 1 [];
  audio = get_or media 2 [];
  video = get_or media 3 [];
  images_json = get_or media 4 [];
}

-- Both passes behind the tag count. The second cannot fail where the first did not (see `Laws`);
-- its error case is given the receiver as the first pass left it.
read_strings_of : ClassMeta → ℕ → Bytes → ℕ → Decoded ClassMeta
read_strings_of m tag_count b pos =
    elim (pass_one tag_count b pos >>= λ t. pass_two tag_count b pos t.0 t.1) [
      | ok (tags, fields, media) ↦ returns (with_strings m tags fields media) none
      | err e ↦ returns m (some e)
      | panic ↦ panics
    ]

read_tag_count : ClassMeta → Bytes → Decoded ClassMeta
unfolding read_strings_of
read_tag_count m b = elim (uvarint (drop 17 b)) [
  | none ↦ returns m (some invalid_class_meta)
  | some (tag_count, n_len) ↦
      if ltb (length b - (17 + n_len)) tag_count
      then returns m (some invalid_class_meta)
      else read_strings_of m tag_count b (17 + n_len)
]

unfoldable pub unmarshal_typed : ClassMeta → Bytes → Decoded ClassMeta
unfolding read_tag_count
unmarshal_typed m b =
    if ltb (length b) class_meta_min_header_size || not (get_or b 0 0 == tag_class_meta_v1)
    then returns m (some invalid_class_meta)
    else read_tag_count
        (record m {
          install_height = int64_from_bits (be_uint (slice b 1 9));
          last_height = int64_from_bits (be_uint (slice b 9 17));
        })
        b

unfoldable pub is_class_meta_typed : Bytes → Bool
is_class_meta_typed b = leb 1 (length b) && get_or b 0 0 == tag_class_meta_v1
