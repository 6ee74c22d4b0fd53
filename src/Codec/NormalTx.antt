-- ===== src/Codec/NormalTx.antt =====
-- NormalTXWithSCIDParse of structures/types.go and its typed v1 encoding.
pub mod Laws
use hyper_gnomon.Base.{ℕ, zero, suc, ◌+◌, List, [], ◌∷◌, ◌++◌, some, none, Bool, not, ◌||◌, ◌&&◌}
use hyper_gnomon.Base.{◌==◌, ltb, leb, if◌then◌else◌, length, slice, get_or}
use hyper_gnomon.Base.Int.{ℤ}
use hyper_gnomon.Codec.{Bytes, Result, ok, err, panic, Decoded, returns, panics, invalid_normal_tx}
use hyper_gnomon.Codec.Words.{be_bytes, be_fold, be_uint, int64_bits, int64_from_bits}
use hyper_gnomon.Codec.LenString.{append_len_string, read_len_string}

pub record NormalTx : Type 0 where
  pub txid : Bytes
  pub scid : Bytes
  pub fees : ℕ
  pub height : ℤ

abbrev pub tag_normal_tx_v1 : ℕ
tag_normal_tx_v1 = 0x08

abbrev pub normal_tx_min_header_size : ℕ
normal_tx_min_header_size = 1 + 8 + 8

unfoldable pub marshal_typed_append : NormalTx → Bytes → Bytes
marshal_typed_append r dst0 =
    let dst1 = dst0 ++ (tag_normal_tx_v1 ∷ []) in
    let dst2 = dst1 ++ be_bytes 8 r.fees in
    let dst3 = dst2 ++ be_bytes 8 (int64_bits r.height) in
    let dst4 = append_len_string dst3 r.txid in append_len_string dst4 r.scid

unfoldable pub marshal_typed : NormalTx → Bytes
unfolding marshal_typed_append
marshal_typed r = marshal_typed_append r []

-- The two strings; a string that cannot be read leaves its field empty.
read_scid : NormalTx → Bytes → ℕ → Decoded NormalTx
read_scid r b pos = elim (read_len_string b pos) [
  | ok (s, next) ↦ returns (record r { scid = s }) none
  | err e ↦ returns (record r { scid = [] }) (some invalid_normal_tx)
  | panic ↦ panics
]

read_txid : NormalTx → Bytes → ℕ → Decoded NormalTx
unfolding read_scid
read_txid r b pos = elim (read_len_string b pos) [
  | ok (s, next) ↦ read_scid (record r { txid = s }) b next
  | err e ↦ returns (record r { txid = [] }) (some invalid_normal_tx)
  | panic ↦ panics
]

unfoldable pub unmarshal_typed : NormalTx → Bytes → Decoded NormalTx
unfolding read_txid
unmarshal_typed r b =
    if ltb (length b) normal_tx_min_header_size || not (get_or b 0 0 == tag_normal_tx_v1)
    then returns r (some invalid_normal_tx)
    else read_txid
        (record r {
          fees = be_uint (slice b 1 9);
          height = int64_from_bits (be_uint (slice b 9 17));
        })
        b 17

unfoldable pub is_normal_tx_typed : Bytes → Bool
is_normal_tx_typed b = leb 1 (length b) && get_or b 0 0 == tag_normal_tx_v1
