-- ===== src/Codec/Install.antt =====
-- InstallRecord of structures/types.go and its typed v1 encoding.
pub mod Laws
use hyper_gnomon.Base.{ℕ, zero, suc, ◌+◌, List, [], ◌∷◌, ◌++◌, some, none, Bool, not, ◌||◌, ◌&&◌}
use hyper_gnomon.Base.{◌==◌, ltb, leb, if◌then◌else◌, length, slice, get_or}
use hyper_gnomon.Codec.{
  Bytes, Result, ok, err, panic, Decoded, returns, panics, invalid_install_record,
}
use hyper_gnomon.Codec.Words.{be_bytes, be_fold, be_uint}
use hyper_gnomon.Codec.LenString.{append_len_string, read_len_string}

pub record InstallRecord : Type 0 where
  pub owner : Bytes
  pub entrypoint : Bytes
  pub fees : ℕ

abbrev pub tag_install_record_v1 : ℕ
tag_install_record_v1 = 0x05

abbrev pub install_record_min_header_size : ℕ
install_record_min_header_size = 1 + 8

unfoldable pub marshal_typed_append : InstallRecord → Bytes → Bytes
marshal_typed_append r dst0 =
    let dst1 = dst0 ++ (tag_install_record_v1 ∷ []) in
    let dst2 = dst1 ++ be_bytes 8 r.fees in
    let dst3 = append_len_string dst2 r.owner in append_len_string dst3 r.entrypoint

unfoldable pub marshal_typed : InstallRecord → Bytes
unfolding marshal_typed_append
marshal_typed r = marshal_typed_append r []

-- The two strings; a string that cannot be read leaves its field empty.
read_entrypoint : InstallRecord → Bytes → ℕ → Decoded InstallRecord
read_entrypoint r b pos = elim (read_len_string b pos) [
  | ok (s, next) ↦ returns (record r { entrypoint = s }) none
  | err e ↦ returns (record r { entrypoint = [] }) (some invalid_install_record)
  | panic ↦ panics
]

read_owner : InstallRecord → Bytes → ℕ → Decoded InstallRecord
unfolding read_entrypoint
read_owner r b pos = elim (read_len_string b pos) [
  | ok (s, next) ↦ read_entrypoint (record r { owner = s }) b next
  | err e ↦ returns (record r { owner = [] }) (some invalid_install_record)
  | panic ↦ panics
]

unfoldable pub unmarshal_typed : InstallRecord → Bytes → Decoded InstallRecord
unfolding read_owner
unmarshal_typed r b =
    if ltb (length b) install_record_min_header_size || not (get_or b 0 0 == tag_install_record_v1)
    then returns r (some invalid_install_record)
    else read_owner (record r { fees = be_uint (slice b 1 9) }) b 9

unfoldable pub is_install_record_typed : Bytes → Bool
is_install_record_typed b = leb 1 (length b) && get_or b 0 0 == tag_install_record_v1
