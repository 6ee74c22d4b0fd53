-- ===== src/Codec/SctxTurbo/Laws.antt =====
-- The turbo decoder: it agrees with a decoder that copies each string by itself, and it undoes the
-- encoder.
use hyper_gnomon.Base.{◌+◌, ◌≤◌, ◌≡◌, refl, sym, ◌∙◌, arith, inl, inr}
use hyper_gnomon.Base.{
  List, [], ◌∷◌, ◌++◌, some, none, append_assoc, length, length-append, not, ◌||◌,
}
use hyper_gnomon.Base.{
  slice, get_or, ltb, ◌==◌, le→not-ltb, not-ltb→le, true, false, if◌then◌else◌, Bool-cases,
}
use hyper_gnomon.Base.Int.{IsI64}
use hyper_gnomon.Codec.{
  Bytes, IsU64, ok, err, panic, Decoded, returns, panics, invalid_sctx_parse_turbo,
}
use hyper_gnomon.Codec.Words.{be_bytes, be_fold, be_uint, int64_bits, int64_from_bits}
use hyper_gnomon.Codec.Words.Laws.{past, word_found, int64_found, length-be_bytes}
use hyper_gnomon.Codec.LenString.Laws.{append_len_string_lem}
use hyper_gnomon.Codec.Arena.Laws.{
  read_strings, len_strings, read_strings_found, loc_ranges-Coalesces,
}
use hyper_gnomon.Codec.SctxTurbo.{
  SctxParse, tag_sctx_parse_turbo_v1, sctx_parse_turbo_min_header_size,
}
use hyper_gnomon.Codec.SctxTurbo.{
  can_marshal_turbo_typed, marshal_turbo_typed_append, marshal_turbo_typed,
}
use hyper_gnomon.Codec.SctxTurbo.{
  with_strings, fill_strings, read_turbo_strings, unmarshal_turbo_typed,
}

no_items : {A : Type 0} (xs : List A) → length xs ≡ 0 → xs ≡ []
no_items [] h = refl
no_items (x ∷ xs) h = absurd (omega arith)

module _ {Arg Payload : Type 0} where
  -- The same decoder with one string after another, each in a copy of its own.
  direct_strings : SctxParse Arg Payload → Bytes → Decoded (SctxParse Arg Payload)
  direct_strings s b = elim (read_strings 4 b 18) [
    | ok (ss, pos) ↦ returns (with_strings s ss) none
    | err e ↦ returns s (some invalid_sctx_parse_turbo)
    | panic ↦ panics
  ]

  unfoldable pub direct_turbo_typed :
      SctxParse Arg Payload → Bytes → Decoded (SctxParse Arg Payload)
  unfolding direct_strings
  direct_turbo_typed s b =
      if ltb (length b) sctx_parse_turbo_min_header_size
        || not (get_or b 0 0 == tag_sctx_parse_turbo_v1)
      then returns s (some invalid_sctx_parse_turbo)
      else direct_strings
          (record s {
            method = get_or b 1 0;
            fees = be_uint (slice b 2 10);
            height = int64_from_bits (be_uint (slice b 10 18));
          })
          b

  read-direct_strings :
      (s : SctxParse Arg Payload) (b : Bytes)
      → 18 ≤ length b
      → read_turbo_strings s b ≡ direct_strings s b
  unfolding read_turbo_strings direct_strings
  read-direct_strings s b h = elim (loc_ranges-Coalesces 4 b 18 h) [
    | inl (rs, ss, end, loc, reads, cuts, _) ↦
        rw (loc, read_turbo_strings) (rw (reads, direct_strings) (rw (cuts, fill_strings) refl))
    | inr (e, loc, reads) ↦ rw (loc, read_turbo_strings) (rw (reads, direct_strings) refl)
  ]

  -- On every input and receiver the turbo decoder with its shared string buffer returns the same
  -- record and error as a decoder that reads its four strings one by one.
  pub unmarshal-direct_turbo_typed :
      (s : SctxParse Arg Payload) (b : Bytes) → unmarshal_turbo_typed s b ≡ direct_turbo_typed s b
  unfolding unmarshal_turbo_typed direct_turbo_typed
  unmarshal-direct_turbo_typed s b = elim (Bool-cases (ltb (length b) 18)) [
    | inl short ↦ rw short refl
    | inr long ↦ elim (Bool-cases (get_or b 0 0 == tag_sctx_parse_turbo_v1)) [
      | inl tagged ↦ rw (long, tagged) (read-direct_strings _ b (not-ltb→le _ _ long))
      | inr other ↦ rw (long, other) refl
    ]
  ]

  -- The fees are a uint64, the height is an int64, and the strings have uint64 lengths.
  pub record InRange (s : SctxParse Arg Payload) : Type 0 where
    pub fees : IsU64 s.fees
    pub height : IsI64 s.height
    pub txid : IsU64 (length s.txid)
    pub scid : IsU64 (length s.scid)
    pub entrypoint : IsU64 (length s.entrypoint)
    pub sender : IsU64 (length s.sender)

  abbrev strings_of : SctxParse Arg Payload → List Bytes
  strings_of s = s.txid ∷ s.scid ∷ s.entrypoint ∷ s.sender ∷ []

  shape :
      (s : SctxParse Arg Payload) (junk : Bytes)
      → marshal_turbo_typed_append s [] ++ junk
        ≡ tag_sctx_parse_turbo_v1
          ∷ s.method
          ∷ (be_bytes 8 s.fees
              ++ (be_bytes 8 (int64_bits s.height) ++ (len_strings (strings_of s) ++ junk)))
  unfolding marshal_turbo_typed_append
  shape s junk = simp (append_len_string_lem, append_assoc)

  module _ (s : SctxParse Arg Payload) (junk b : Bytes) (h : InRange s)
      (e : b
        ≡ tag_sctx_parse_turbo_v1
          ∷ s.method
          ∷ (be_bytes 8 s.fees
              ++ (be_bytes 8 (int64_bits s.height) ++ (len_strings (strings_of s) ++ junk)))) where
    abbrev front : Bytes
    front = tag_sctx_parse_turbo_v1 ∷ s.method ∷ be_bytes 8 s.fees

    abbrev header : Bytes
    header = front ++ be_bytes 8 (int64_bits s.height)

    front_width : length front ≡ 10
    front_width = omega (arith, length-be_bytes 8 s.fees)

    width : length header ≡ 18
    width = omega (
      arith,
      front_width,
      length-append front (be_bytes 8 (int64_bits s.height)),
      length-be_bytes 8 (int64_bits s.height),
    )

    at_strings : b ≡ header ++ (len_strings (strings_of s) ++ junk)
    at_strings =
        past front (be_bytes 8 (int64_bits s.height)) (len_strings (strings_of s) ++ junk) e

    fees_found : be_fold 0 (slice b 2 10) ≡ s.fees
    fees_found =
        word_found 8 s.fees 2 10 (tag_sctx_parse_turbo_v1 ∷ s.method ∷ [])
          (be_bytes 8 (int64_bits s.height) ++ (len_strings (strings_of s) ++ junk)) e refl refl
          h.fees

    height_found : int64_from_bits (be_fold 0 (slice b 10 18)) ≡ s.height
    height_found =
        int64_found s.height 10 18 front (len_strings (strings_of s) ++ junk) e (sym front_width)
          refl h.height

    strings_found :
        read_strings 4 b 18 ≡ ok (strings_of s, 18 + length (len_strings (strings_of s)))
    strings_found =
        read_strings_found (strings_of s) 18 header junk at_strings (sym width)
          (h.txid, (h.scid, (h.entrypoint, (h.sender, tt))))

    room : ltb (length b) 18 ≡ false
    room = le→not-ltb (length b) 18 (
        rw at_strings
          (omega (arith, width, length-append header (len_strings (strings_of s) ++ junk))))

    tag_found : get_or b 0 0 ≡ tag_sctx_parse_turbo_v1
    tag_found = rw e

    method_found : get_or b 1 0 ≡ s.method
    method_found = rw e

    direct-shape :
        (old : SctxParse Arg Payload)
        → direct_turbo_typed old b ≡ returns (record s { sc_args = []; payloads = [] }) none
    unfolding direct_turbo_typed direct_strings
    direct-shape old =
        rw (room, tag_found, method_found, fees_found, height_found)
          (rw (strings_found, direct_strings) refl)

  -- A scan record with fees, height and lengths in range that CanMarshalTurboTyped admits is
  -- decoded from its turbo encoding to itself, also with other bytes behind it, and whatever the
  -- receiver held before.
  pub unmarshal-marshal_turbo_typed :
      (old s : SctxParse Arg Payload) (junk : Bytes)
      → InRange s
      → can_marshal_turbo_typed s ≡ true
      → unmarshal_turbo_typed old (marshal_turbo_typed s ++ junk) ≡ returns s none
  unfolding marshal_turbo_typed can_marshal_turbo_typed
  unmarshal-marshal_turbo_typed old s junk h can =
      unmarshal-direct_turbo_typed old (marshal_turbo_typed_append s [] ++ junk)
      ∙ direct-shape s junk (marshal_turbo_typed_append s [] ++ junk) h (shape s junk) old
      ∙ λ i. returns (record s { sc_args = sym no_args i; payloads = sym no_payloads i }) none
    where
      no_args : s.sc_args ≡ []
      no_args = no_items s.sc_args (ground (arith, can))

      no_payloads : s.payloads ≡ []
      no_payloads = no_items s.payloads (ground (arith, can))
