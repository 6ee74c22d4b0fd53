-- ===== src/Codec/SctxTurbo.antt =====
-- SCTXParse of structures/types.go and its turbo encoding. The SC arguments and the payloads are
-- derohe's types, of which this code only looks at whether there are any.
pub mod Laws
use hyper_gnomon.Base.{ℕ, zero, suc, ◌+◌, List, [], ◌∷◌, ◌++◌, some, none, Bool, not, ◌||◌, ◌&&◌}
use hyper_gnomon.Base.{◌==◌, ltb, leb, if◌then◌else◌, length, slice, get_or}
use hyper_gnomon.Base.Int.{ℤ}
use hyper_gnomon.Codec.{Bytes, Result, ok, err, panic, Decoded, returns, panics}
use hyper_gnomon.Codec.{invalid_sctx_parse_turbo}
use hyper_gnomon.Codec.Words.{be_bytes, be_fold, be_uint, int64_bits, int64_from_bits}
use hyper_gnomon.Codec.LenString.{append_len_string}
use hyper_gnomon.Codec.Arena.{Range, loc_ranges, coalesce}

pub record SctxParse (Arg Payload : Type 0) : Type 0 where
  pub txid : Bytes
  pub scid : Bytes
  pub entrypoint : Bytes
  pub method : ℕ
  pub sc_args : List Arg
  pub sender : Bytes
  pub payloads : List Payload
  pub fees : ℕ
  pub height : ℤ

abbrev pub tag_sctx_parse_turbo_v1 : ℕ
tag_sctx_parse_turbo_v1 = 0x06

abbrev pub sctx_parse_turbo_min_header_size : ℕ
sctx_parse_turbo_min_header_size = 1 + 1 + 8 + 8

unfoldable pub is_sctx_parse_turbo_typed : Bytes → Bool
is_sctx_parse_turbo_typed b = leb 1 (length b) && get_or b 0 0 == tag_sctx_parse_turbo_v1

module _ {Arg Payload : Type 0} where
  unfoldable pub can_marshal_turbo_typed : SctxParse Arg Payload → Bool
  can_marshal_turbo_typed s = length s.sc_args == 0 && length s.payloads == 0

  unfoldable pub marshal_turbo_typed_append : SctxParse Arg Payload → Bytes → Bytes
  marshal_turbo_typed_append s dst0 =
      let dst1 = dst0 ++ (tag_sctx_parse_turbo_v1 ∷ []) in
      let dst2 = dst1 ++ (s.method ∷ []) in
      let dst3 = dst2 ++ be_bytes 8 s.fees in
      let dst4 = dst3 ++ be_bytes 8 (int64_bits s.height) in
      let dst5 = append_len_string dst4 s.txid in
      let dst6 = append_len_string dst5 s.scid in
      let dst7 = append_len_string dst6 s.entrypoint in append_len_string dst7 s.sender

  unfoldable pub marshal_turbo_typed : SctxParse Arg Payload → Bytes
  unfolding marshal_turbo_typed_append
  marshal_turbo_typed s = marshal_turbo_typed_append s []

  -- The record with its four strings, in the order in which they are cut.
  abbrev pub with_strings : SctxParse Arg Payload → List Bytes → SctxParse Arg Payload
  with_strings s ss = record s {
    txid = get_or ss 0 [];
    scid = get_or ss 1 [];
    entrypoint = get_or ss 2 [];
    sender = get_or ss 3 [];
    sc_args = [];
    payloads = [];
  }

  fill_strings : SctxParse Arg Payload → Bytes → List Range → Decoded (SctxParse Arg Payload)
  fill_strings s b rs = elim (coalesce b rs) [
    | ok ss ↦ returns (with_strings s ss) none
    | err e ↦ panics
    | panic ↦ panics
  ]

  -- The four ranges first, then the copies; a range that cannot be found leaves the strings alone.
  read_turbo_strings : SctxParse Arg Payload → Bytes → Decoded (SctxParse Arg Payload)
  unfolding fill_strings
  read_turbo_strings s b = elim (loc_ranges 4 b 18) [
    | ok (rs, pos) ↦ fill_strings s b rs
    | err e ↦ returns s (some invalid_sctx_parse_turbo)
    | panic ↦ panics
  ]

  unfoldable pub unmarshal_turbo_typed :
      SctxParse Arg Payload → Bytes → Decoded (SctxParse Arg Payload)
  unfolding read_turbo_strings
  unmarshal_turbo_typed s b =
      if ltb (length b) sctx_parse_turbo_min_header_size
        || not (get_or b 0 0 == tag_sctx_parse_turbo_v1)
      then returns s (some invalid_sctx_parse_turbo)
      else read_turbo_strings
          (record s {
            method = get_or b 1 0;
            fees = be_uint (slice b 2 10);
            height = int64_from_bits (be_uint (slice b 10 18));
          })
          b
