-- ===== src/Store/DecimalKeys.antt =====
-- storage/truncate.go and storage/bbolt.go: the keys that have their height in decimal, and the values
-- that are decoded by their first byte.
pub mod Laws
pub mod Classes
use hyper_gnomon.Base.{
  ℕ, ◌+◌, List, [], ◌∷◌, ◌++◌, Bool, true, false, Option, none, some, drop, take, if◌then◌else◌,
}
use mathlib.Core.Option
use hyper_gnomon.Base.Int.{ℤ, pos}
use hyper_gnomon.Base.Texts.{Bytes, is_empty}
use hyper_gnomon.Base.Strconv.{parse_int, format_int}
use hyper_gnomon.Codec.{Decoded, returns, panics}
use hyper_gnomon.Codec.Install
use hyper_gnomon.Codec.Install.{InstallRecord}
use hyper_gnomon.Codec.ClassMeta
use hyper_gnomon.Codec.ClassMeta.{ClassMeta}
use hyper_gnomon.Store.Keys.{colon, bar, enc_height, index_byte}

unfoldable pub class_key : Bytes → ℤ → Bytes → Bytes
unfolding enc_height
class_key class h scid =
    let k1 = class ++ (bar ∷ []) in let k2 = (k1 ++ enc_height h) ++ (bar ∷ []) in k2 ++ scid

-- The key buffers of FlushBatch.
unfoldable pub sc_vars_key : Bytes → ℤ → Bytes
sc_vars_key scid height = (scid ++ (colon ∷ [])) ++ format_int height

unfoldable pub invocation_key : Bytes → Bytes → ℤ → Bytes → Bytes
invocation_key sender txid height entrypoint =
    let k1 = sender ++ (colon ∷ []) in
    let k2 = (k1 ++ txid) ++ (colon ∷ []) in
    let k3 = (k2 ++ format_int height) ++ (colon ∷ []) in k3 ++ entrypoint

abbrev pub with_height : Bytes → Option ℤ → Option (Bytes × ℤ)
with_height name none = none
with_height name (some hh) = some (name, hh)

unfoldable pub split_sc_vars_key : Bytes → Option (Bytes × ℤ)
split_sc_vars_key k = elim (index_byte k colon) [
  | none ↦ none
  | some sep ↦ with_height (take sep k) (parse_int (drop (sep + 1) k))
]

-- The height part, from the second colon on.
height_part : Bytes → Bytes → Option (Bytes × ℤ)
height_part sender hpart = elim (index_byte hpart colon) [
  | none ↦ none
  | some i3 ↦ with_height sender (parse_int (take i3 hpart))
]

txid_part : Bytes → Bytes → Option (Bytes × ℤ)
unfolding height_part
txid_part sender rest = elim (index_byte rest colon) [
  | none ↦ none
  | some i2 ↦ height_part sender (drop (i2 + 1) rest)
]

unfoldable pub parse_invocation_key : Bytes → Option (Bytes × ℤ)
unfolding txid_part
parse_invocation_key k = elim (index_byte k colon) [
  | none ↦ none
  | some i1 ↦ txid_part (take i1 k) (drop (i1 + 1) k)
]

-- A decoded value where the error is nil; the typed decoders used here do not panic.
abbrev pub success : {R : Type 0} → Decoded R → Option R
success (returns r none) = some r
success (returns r (some e)) = none
success panics = none

abbrev pub present : {R : Type 0} → Option R → Option (Option R)
present none = none
present (some r) = some (some r)

-- `none` is an error, `some none` is nil. Values that are not typed go to the msgpack library, whose
-- decoder is a parameter.
unfoldable pub decode_install_record :
    (Bytes → Option InstallRecord) → Bytes → Option (Option InstallRecord)
decode_install_record msgpack v =
    if is_empty v
    then some none
    else if Install.is_install_record_typed v
    then present
        (success (Install.unmarshal_typed (record { owner = []; entrypoint = []; fees = 0 }) v))
    else present (msgpack v)

abbrev zero_class_meta : ClassMeta
zero_class_meta = record {
  class = [];
  tags = [];
  name = [];
  desc = [];
  icon_url = [];
  durl = [];
  version = [];
  install_height = pos 0;
  last_height = pos 0;
  image = [];
  alt_image = [];
  audio = [];
  video = [];
  images_json = [];
}

unfoldable pub decode_class_meta : (Bytes → Option ClassMeta) → Bytes → Option (Option ClassMeta)
decode_class_meta msgpack v =
    if is_empty v
    then some none
    else if ClassMeta.is_class_meta_typed v
    then present (success (ClassMeta.unmarshal_typed zero_class_meta v))
    else present (msgpack v)
