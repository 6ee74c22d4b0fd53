-- ===== src/Codec/ScCode.antt =====
-- SCCodeEntry of structures/types.go and its typed v1 encoding.
pub mod Laws
use hyper_gnomon.Base.{ℕ, zero, suc, ◌+◌, List, [], ◌∷◌, ◌++◌, some, none, Bool, not, ◌||◌, ◌&&◌}
use hyper_gnomon.Base.{
  ◌==◌, ltb, leb, if◌then◌else◌, length, slice, drop, get_or, replicate, copy_at,
}
use hyper_gnomon.Base.Int.{ℤ}
use hyper_gnomon.Codec.{Bytes, Decoded, returns, invalid_sc_code_entry}
use hyper_gnomon.Codec.Words.{be_bytes, be_fold, be_uint, int64_bits, int64_from_bits}

pub record ScCodeEntry : Type 0 where
  pub code : Bytes
  pub install_height : ℤ

abbrev pub tag_sc_code_entry_v1 : ℕ
tag_sc_code_entry_v1 = 0x03

abbrev pub sccode_header_size : ℕ
sccode_header_size = 1 + 8

unfoldable pub marshal_typed : ScCodeEntry → Bytes
marshal_typed e =
    let buf0 = copy_at 0 (tag_sc_code_entry_v1 ∷ []) (replicate sccode_header_size 0) in
    let buf1 = copy_at 1 (be_bytes 8 (int64_bits e.install_height)) buf0 in buf1 ++ e.code

unfoldable pub marshal_typed_append : ScCodeEntry → Bytes → Bytes
marshal_typed_append e dst0 =
    let dst1 = dst0 ++ (tag_sc_code_entry_v1 ∷ []) in
    let dst2 = dst1 ++ be_bytes 8 (int64_bits e.install_height) in dst2 ++ e.code

unfoldable pub unmarshal_typed : ScCodeEntry → Bytes → Decoded ScCodeEntry
unmarshal_typed e b =
    if ltb (length b) sccode_header_size || not (get_or b 0 0 == tag_sc_code_entry_v1)
    then returns e (some invalid_sc_code_entry)
    else returns
        (record {
          code = drop sccode_header_size b;
          install_height = int64_from_bits (be_uint (slice b 1 9));
        })
        none

unfoldable pub is_sc_code_entry_typed : Bytes → Bool
is_sc_code_entry_typed b = leb 1 (length b) && get_or b 0 0 == tag_sc_code_entry_v1
