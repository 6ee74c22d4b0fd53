-- ===== src/Codec/AddrScid.antt =====
-- AddrSCIDEntry of structures/types.go and its 25-byte encoding.
pub mod Laws
use hyper_gnomon.Base.{ℕ, zero, suc, ◌+◌, List, [], ◌∷◌, ◌++◌, some, none, Bool, not, ◌||◌, ◌&&◌}
use hyper_gnomon.Base.{◌==◌, leb, if◌then◌else◌, length, replicate, copy_at, slice, get_or}
use hyper_gnomon.Base.Int.{ℤ}
use hyper_gnomon.Codec.{Bytes, Decoded, returns, invalid_addr_scid_entry}
use hyper_gnomon.Codec.Words.{be_bytes, be_fold, be_uint, int64_bits, int64_from_bits}

pub record AddrScidEntry : Type 0 where
  pub first_height : ℤ
  pub last_height : ℤ
  pub count : ℤ

abbrev pub tag_addr_scid_entry_v1 : ℕ
tag_addr_scid_entry_v1 = 0x01

abbrev pub encoded_addr_scid_entry_size : ℕ
encoded_addr_scid_entry_size = 1 + 8 + 8 + 8

-- A zeroed buffer of the fixed size, written in four places.
unfoldable pub marshal_typed : AddrScidEntry → Bytes
marshal_typed e =
    let buf0 = copy_at 0 (tag_addr_scid_entry_v1 ∷ []) (replicate encoded_addr_scid_entry_size 0) in
    let buf1 = copy_at 1 (be_bytes 8 (int64_bits e.first_height)) buf0 in
    let buf2 = copy_at 9 (be_bytes 8 (int64_bits e.last_height)) buf1 in
    copy_at 17 (be_bytes 8 (int64_bits e.count)) buf2

unfoldable pub marshal_typed_append : AddrScidEntry → Bytes → Bytes
marshal_typed_append e dst0 =
    let dst1 = dst0 ++ (tag_addr_scid_entry_v1 ∷ []) in
    let dst2 = dst1 ++ be_bytes 8 (int64_bits e.first_height) in
    let dst3 = dst2 ++ be_bytes 8 (int64_bits e.last_height) in
    dst3 ++ be_bytes 8 (int64_bits e.count)

unfoldable pub unmarshal_typed : AddrScidEntry → Bytes → Decoded AddrScidEntry
unmarshal_typed e b =
    if not (length b == encoded_addr_scid_entry_size)
      || not (get_or b 0 0 == tag_addr_scid_entry_v1)
    then returns e (some invalid_addr_scid_entry)
    else returns
        (record {
          first_height = int64_from_bits (be_uint (slice b 1 9));
          last_height = int64_from_bits (be_uint (slice b 9 17));
          count = int64_from_bits (be_uint (slice b 17 25));
        })
        none

unfoldable pub is_addr_scid_entry_typed : Bytes → Bool
is_addr_scid_entry_typed b = leb 1 (length b) && get_or b 0 0 == tag_addr_scid_entry_v1
