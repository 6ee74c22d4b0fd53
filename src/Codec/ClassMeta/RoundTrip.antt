-- ===== src/Codec/ClassMeta/RoundTrip.antt =====
-- ClassMeta: the encoder's layout and exact size, and the round trip with and without media.
use hyper_gnomon.Base.{ℕ, zero, suc, ◌+◌, ◌-◌, ◌≤◌, ◌≡◌, refl, sym, ap, ◌∙◌, arith, inl, inr}
use hyper_gnomon.Base.{
  List, [], ◌∷◌, ◌++◌, some, none, append_assoc, append-nil, length, length-append, All,
}
use hyper_gnomon.Base.{
  slice, drop, drop-append_self, get_or, ltb, lt→ltb, le→not-ltb, true, false, if◌then◌else◌,
  Bool-cases,
}
use hyper_gnomon.Base.Int.{IsI64}
use hyper_gnomon.Codec.{Bytes, IsU64, ok, returns}
use hyper_gnomon.Codec.Words.{be_bytes, be_fold, int64_bits, int64_from_bits}
use hyper_gnomon.Codec.Words.Laws.{past, int64_found, length-be_bytes}
use hyper_gnomon.Codec.Varint.{append_uvarint, uvarint, uvarint_bytes, uvarint_len}
use hyper_gnomon.Codec.Varint.Laws.{uvarint-bytes, uvarint_len-bytes, length-uvarint_bytes_pos}
use hyper_gnomon.Codec.LenString.Laws.{len_string, append_len_string_lem}
use hyper_gnomon.Codec.Arena.Laws.{read_strings, len_strings, read_strings_found}
use hyper_gnomon.Codec.ClassMeta.{
  ClassMeta, tag_class_meta_v1, has_media, append_tags, append_media,
}
use hyper_gnomon.Codec.ClassMeta.{
  marshal_typed_append, marshal_typed, marshal_size, tags_size, string_size,
}
use hyper_gnomon.Codec.ClassMeta.{unmarshal_typed}
use hyper_gnomon.Codec.ClassMeta.Laws.{direct_media, direct_strings, direct_tag_count, direct_typed}
use hyper_gnomon.Codec.ClassMeta.Laws.{unmarshal-direct_class_meta}

abbrev pub fields_of : ClassMeta → List Bytes
fields_of m = m.class ∷ m.name ∷ m.desc ∷ m.icon_url ∷ m.durl ∷ m.version ∷ []

abbrev pub media_of : ClassMeta → List Bytes
media_of m = m.image ∷ m.alt_image ∷ m.audio ∷ m.video ∷ m.images_json ∷ []

abbrev pub IsShort : Bytes → Type 0
IsShort s = IsU64 (length s)

-- The heights are int64s, and the count of the tags and the lengths of the strings are uint64s.
pub record InRange (m : ClassMeta) : Type 0 where
  pub install_height : IsI64 m.install_height
  pub last_height : IsI64 m.last_height
  pub tag_count : IsU64 (length m.tags)
  pub tags : All IsShort m.tags
  pub fields : All IsShort (fields_of m)
  pub media : All IsShort (media_of m)

append_tags_lem : (dst : Bytes) (ts : List Bytes) → append_tags dst ts ≡ dst ++ len_strings ts
unfolding append_tags append_uvarint
append_tags_lem dst [] = sym (append-nil dst)
append_tags_lem dst (t ∷ ts) =
    append_tags_lem (append_uvarint dst (length t) ++ t) ts ∙ simp append_assoc

append_media_lem :
    (m : ClassMeta) (dst : Bytes) → append_media m dst ≡ dst ++ len_strings (media_of m)
unfolding append_media
append_media_lem m dst = simp (append_len_string_lem, append_assoc, append-nil)

abbrev tail_of : ClassMeta → Bytes
tail_of m = if has_media m then len_strings (media_of m) else []

abbrev strings_part : ClassMeta → Bytes
strings_part m = len_strings m.tags ++ (len_strings (fields_of m) ++ tail_of m)

abbrev encoded : ClassMeta → Bytes
encoded m =
    tag_class_meta_v1
    ∷ (be_bytes 8 (int64_bits m.install_height)
        ++ (be_bytes 8 (int64_bits m.last_height)
            ++ (uvarint_bytes 10 (length m.tags) ++ strings_part m)))

shape : (m : ClassMeta) → marshal_typed m ≡ encoded m
unfolding marshal_typed_append append_uvarint marshal_typed
shape m = elim (Bool-cases (has_media m)) [
  | inl with_tail ↦
      rw with_tail (simp (append_len_string_lem, append_tags_lem, append_assoc, append-nil))
  | inr no_tail ↦
      rw no_tail (simp (append_len_string_lem, append_tags_lem, append_assoc, append-nil))
]

-- The first byte of an encoding is the tag.
pub marshal_class_meta-tag :
    (m : ClassMeta) → (rest : Bytes) × (marshal_typed m ≡ tag_class_meta_v1 ∷ rest)
marshal_class_meta-tag m = (_, shape m)

length-len_string : (s : Bytes) → IsShort s → length (len_string s) ≡ string_size s
length-len_string s h =
    length-append (uvarint_bytes 10 (length s)) s ∙ omega (arith, uvarint_len-bytes (length s) h)

length-len_strings : (ss : List Bytes) → All IsShort ss → length (len_strings ss) ≡ tags_size ss
unfolding tags_size
length-len_strings [] h = refl
length-len_strings (s ∷ ss) h = omega (
  arith,
  length-append (len_string s) (len_strings ss),
  length-len_string s h.0,
  length-len_strings ss h.1,
)

length-tail_of :
    (m : ClassMeta)
    → InRange m
    → length (tail_of m) ≡ (if has_media m then tags_size (media_of m) else 0)
length-tail_of m h = elim (Bool-cases (has_media m)) [
  | inl e ↦ rw e (length-len_strings (media_of m) h.media)
  | inr e ↦ rw e refl
]

sizes :
    (m : ClassMeta)
    → marshal_size m
      ≡ 17
        + uvarint_len (length m.tags)
        + tags_size m.tags
        + tags_size (fields_of m)
        + (if has_media m then tags_size (media_of m) else 0)
unfolding marshal_size tags_size
sizes m = elim (Bool-cases (has_media m)) [
  | inl e ↦ rw e (omega arith)
  | inr e ↦ rw e (omega arith)
]

-- The capacity that ClassMeta's MarshalTyped asks for is the length of the encoding, if heights and
-- lengths are in range, so its buffer never grows.
pub marshal_size-class_meta :
    (m : ClassMeta) → InRange m → marshal_size m ≡ length (marshal_typed m)
marshal_size-class_meta m h =
    sizes m
    ∙ rw (shape m) (
        sym (
          omega (
            arith,
            length-be_bytes 8 (int64_bits m.install_height),
            length-be_bytes 8 (int64_bits m.last_height),
            length-append (be_bytes 8 (int64_bits m.install_height)) _,
            length-append (be_bytes 8 (int64_bits m.last_height)) _,
            length-append (uvarint_bytes 10 (length m.tags)) (strings_part m),
            length-append (len_strings m.tags) (len_strings (fields_of m) ++ tail_of m),
            length-append (len_strings (fields_of m)) (tail_of m),
            length-len_strings m.tags h.tags,
            length-len_strings (fields_of m) h.fields,
            length-tail_of m h,
            uvarint_len-bytes (length m.tags) h.tag_count,
          )))

length-le-len_strings : (ss : List Bytes) → length ss ≤ length (len_strings ss)
length-le-len_strings [] = omega arith
length-le-len_strings (s ∷ ss) = omega (
  arith,
  length-le-len_strings ss,
  length-append (len_string s) (len_strings ss),
  length-append (uvarint_bytes 10 (length s)) s,
  length-uvarint_bytes_pos 9 (length s),
)

-- Without media each of the five strings is empty.
no_media : (m : ClassMeta) → has_media m ≡ false → (i : ℕ) → get_or (media_of m) i [] ≡ []
unfolding has_media
no_media m off zero = ground (arith, off)
no_media m off (suc zero) = ground (arith, off)
no_media m off (suc (suc zero)) = ground (arith, off)
no_media m off (suc (suc (suc zero))) = ground (arith, off)
no_media m off (suc (suc (suc (suc zero)))) = ground (arith, off)
no_media m off (suc (suc (suc (suc (suc i))))) = refl

-- The tag count and the strings stand behind the 17 bytes of the header.
module _ (m : ClassMeta) (b : Bytes) (h : InRange m) (e : b ≡ encoded m) where
  abbrev front : Bytes
  front = tag_class_meta_v1 ∷ be_bytes 8 (int64_bits m.install_height)

  abbrev header : Bytes
  header = front ++ be_bytes 8 (int64_bits m.last_height)

  abbrev count : Bytes
  count = uvarint_bytes 10 (length m.tags)

  front_width : length front ≡ 9
  front_width = omega (arith, length-be_bytes 8 (int64_bits m.install_height))

  width : length header ≡ 17
  width = omega (
    arith,
    front_width,
    length-append front (be_bytes 8 (int64_bits m.last_height)),
    length-be_bytes 8 (int64_bits m.last_height),
  )

  at_count : b ≡ header ++ (count ++ strings_part m)
  at_count = past front (be_bytes 8 (int64_bits m.last_height)) (count ++ strings_part m) e

  at_tags : b ≡ (header ++ count) ++ strings_part m
  at_tags = past header count (strings_part m) at_count

  at_fields :
      b ≡ ((header ++ count) ++ len_strings m.tags) ++ (len_strings (fields_of m) ++ tail_of m)
  at_fields =
      past (header ++ count) (len_strings m.tags) (len_strings (fields_of m) ++ tail_of m) at_tags

  abbrev before_tail : Bytes
  before_tail = ((header ++ count) ++ len_strings m.tags) ++ len_strings (fields_of m)

  at_tail : b ≡ before_tail ++ tail_of m
  at_tail =
      past ((header ++ count) ++ len_strings m.tags) (len_strings (fields_of m)) (tail_of m)
        at_fields

  abbrev tags_start : ℕ
  tags_start = 17 + length count

  abbrev fields_start : ℕ
  fields_start = tags_start + length (len_strings m.tags)

  abbrev tail_start : ℕ
  tail_start = fields_start + length (len_strings (fields_of m))

  tags_start_lem : tags_start ≡ length (header ++ count)
  tags_start_lem = omega (arith, width, length-append header count)

  fields_start_lem : fields_start ≡ length ((header ++ count) ++ len_strings m.tags)
  fields_start_lem =
      omega (arith, tags_start_lem, length-append (header ++ count) (len_strings m.tags))

  tail_start_lem : tail_start ≡ length before_tail
  tail_start_lem = omega (
    arith,
    fields_start_lem,
    length-append ((header ++ count) ++ len_strings m.tags) (len_strings (fields_of m)),
  )

  total_length : length b ≡ tail_start + length (tail_of m)
  total_length =
      ap length at_tail ∙ omega (arith, tail_start_lem, length-append before_tail (tail_of m))

  install_found : int64_from_bits (be_fold 0 (slice b 1 9)) ≡ m.install_height
  install_found =
      int64_found m.install_height 1 9 (tag_class_meta_v1 ∷ []) _ e refl refl h.install_height

  last_found : int64_from_bits (be_fold 0 (slice b 9 17)) ≡ m.last_height
  last_found =
      int64_found m.last_height 9 17 front (count ++ strings_part m) e (sym front_width) refl
        h.last_height

  count_found : uvarint (drop 17 b) ≡ some (length m.tags, length count)
  count_found =
      rw (← width, at_count, drop-append_self header (count ++ strings_part m))
        (uvarint-bytes (length m.tags) (strings_part m) h.tag_count)

  tags_found : read_strings (length m.tags) b tags_start ≡ ok (m.tags, fields_start)
  tags_found =
      read_strings_found m.tags tags_start (header ++ count) _ at_tags tags_start_lem h.tags

  fields_found : read_strings 6 b fields_start ≡ ok (fields_of m, tail_start)
  fields_found =
      read_strings_found (fields_of m) fields_start ((header ++ count) ++ len_strings m.tags)
        (tail_of m) at_fields fields_start_lem h.fields

  header_room : ltb (length b) 17 ≡ false
  header_room = le→not-ltb (length b) 17 (omega (arith, total_length))

  count_room : ltb (length b - tags_start) (length m.tags) ≡ false
  count_room =
      le→not-ltb (length b - tags_start) (length m.tags)
        (omega (arith, total_length, length-le-len_strings m.tags))

  tag_found : get_or b 0 0 ≡ tag_class_meta_v1
  tag_found = rw e

  tail_read : has_media m ≡ true → read_strings 5 b tail_start ≡ ok (media_of m, length b)
  tail_read on =
      read_strings_found (media_of m) tail_start before_tail [] (at_tail ∙ tail) tail_start_lem
        h.media
      ∙ ap (λ (t : ℕ). ok (media_of m, t)) (sym (total_length ∙ rw on refl))
    where
      tail : before_tail ++ tail_of m ≡ before_tail ++ (len_strings (media_of m) ++ [])
      tail = rw (on, append-nil (len_strings (media_of m))) refl

  media_present : has_media m ≡ true → direct_media b tail_start ≡ media_of m
  unfolding direct_media
  media_present on = rw (more, tail_read on) refl
    where
      more : ltb tail_start (length b) ≡ true
      more =
          lt→ltb tail_start (length b)
            (rw total_length (rw on (omega (arith, length-le-len_strings (media_of m)))))

  media_absent : has_media m ≡ false → direct_media b tail_start ≡ []
  unfolding direct_media
  media_absent off = rw at_end refl
    where
      at_end : ltb tail_start (length b) ≡ false
      at_end = le→not-ltb tail_start (length b) (rw total_length (rw off (omega arith)))

  media_found : (i : ℕ) → get_or (direct_media b tail_start) i [] ≡ get_or (media_of m) i []
  media_found i = elim (Bool-cases (has_media m)) [
    | inl on ↦ rw (media_present on) refl
    | inr off ↦ rw (media_absent off) (sym (no_media m off i))
  ]

  direct-shape : (old : ClassMeta) → direct_typed old b ≡ returns m none
  unfolding direct_typed direct_strings
  direct-shape old =
      rw (header_room, tag_found, install_found, last_found)
        (rw (count_found, direct_tag_count)
          (rw (count_room, tags_found, fields_found)
            (λ i.
              returns
                (record m {
                  image = media_found 0 i;
                  alt_image = media_found 1 i;
                  audio = media_found 2 i;
                  video = media_found 3 i;
                  images_json = media_found 4 i;
                })
                none)))

-- A ClassMeta whose heights are int64s and whose lengths fit in a uint64 is decoded from its typed
-- encoding to itself without an error, with a media tail or without one, and whatever the receiver
-- held before.
pub unmarshal-marshal_class_meta :
    (old m : ClassMeta) → InRange m → unmarshal_typed old (marshal_typed m) ≡ returns m none
unmarshal-marshal_class_meta old m h =
    unmarshal-direct_class_meta old (marshal_typed m)
    ∙ direct-shape m (marshal_typed m) h (shape m) old
