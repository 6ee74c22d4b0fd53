-- ===== src/Codec/NormalTx/Laws.antt =====
-- NormalTXWithSCIDParse: round trip, with whatever follows the record ignored.
use hyper_gnomon.Base.{ℕ, ◌+◌, ◌≡◌, refl, sym, arith}
use hyper_gnomon.Base.{[], ◌∷◌, ◌++◌, none, append_assoc, length, length-append}
use hyper_gnomon.Base.{slice, get_or, ltb, le→not-ltb, false}
use hyper_gnomon.Base.Int.{IsI64}
use hyper_gnomon.Codec.{Bytes, IsU64, ok, returns}
use hyper_gnomon.Codec.Words.{be_bytes, be_fold, int64_bits, int64_from_bits}
use hyper_gnomon.Codec.Words.Laws.{past, word_found, int64_found, length-be_bytes}
use hyper_gnomon.Codec.LenString.{read_len_string}
use hyper_gnomon.Codec.LenString.Laws.{len_string, append_len_string_lem, read_len_string_found}
use hyper_gnomon.Codec.NormalTx.{NormalTx, marshal_typed_append, marshal_typed, unmarshal_typed}
use hyper_gnomon.Codec.NormalTx.{read_txid, read_scid, tag_normal_tx_v1}

-- The fields are a uint64, an int64 and two strings whose lengths are uint64s.
pub record InRange (r : NormalTx) : Type 0 where
  pub fees : IsU64 r.fees
  pub height : IsI64 r.height
  pub txid : IsU64 (length r.txid)
  pub scid : IsU64 (length r.scid)

-- What follows the tag.
abbrev body : NormalTx → Bytes → Bytes
body r junk =
    be_bytes 8 r.fees
    ++ (be_bytes 8 (int64_bits r.height) ++ (len_string r.txid ++ (len_string r.scid ++ junk)))

marshal_typed-body :
    (r : NormalTx) (junk : Bytes)
    → marshal_typed_append r [] ++ junk ≡ tag_normal_tx_v1 ∷ body r junk
unfolding marshal_typed_append
marshal_typed-body r junk = simp (append_len_string_lem, append_assoc)

module _ (r : NormalTx) (junk b : Bytes) (h : InRange r)
    (e : b ≡ tag_normal_tx_v1 ∷ body r junk) where
  abbrev front : Bytes
  front = tag_normal_tx_v1 ∷ be_bytes 8 r.fees

  abbrev header : Bytes
  header = front ++ be_bytes 8 (int64_bits r.height)

  abbrev strings : Bytes
  strings = len_string r.txid ++ (len_string r.scid ++ junk)

  abbrev txid_end : ℕ
  txid_end = 17 + length (len_string r.txid)

  front_width : length front ≡ 9
  front_width = omega (arith, length-be_bytes 8 r.fees)

  width : length header ≡ 17
  width = omega (
    arith,
    front_width,
    length-append front (be_bytes 8 (int64_bits r.height)),
    length-be_bytes 8 (int64_bits r.height),
  )

  width₂ : length (header ++ len_string r.txid) ≡ txid_end
  width₂ = omega (arith, width, length-append header (len_string r.txid))

  at_strings : b ≡ header ++ strings
  at_strings = past front (be_bytes 8 (int64_bits r.height)) strings e

  at_scid : b ≡ (header ++ len_string r.txid) ++ (len_string r.scid ++ junk)
  at_scid = past header (len_string r.txid) (len_string r.scid ++ junk) at_strings

  fees_found : be_fold 0 (slice b 1 9) ≡ r.fees
  fees_found =
      word_found 8 r.fees 1 9 (tag_normal_tx_v1 ∷ []) (be_bytes 8 (int64_bits r.height) ++ strings)
        e refl refl h.fees

  height_found : int64_from_bits (be_fold 0 (slice b 9 17)) ≡ r.height
  height_found = int64_found r.height 9 17 front strings e (sym front_width) refl h.height

  txid_found : read_len_string b 17 ≡ ok (r.txid, txid_end)
  txid_found =
      read_len_string_found r.txid 17 header (len_string r.scid ++ junk) at_strings (sym width)
        h.txid

  scid_found : read_len_string b txid_end ≡ ok (r.scid, txid_end + length (len_string r.scid))
  scid_found =
      read_len_string_found r.scid txid_end (header ++ len_string r.txid) junk at_scid (sym width₂)
        h.scid

  room : ltb (length b) 17 ≡ false
  room =
      le→not-ltb (length b) 17 (rw at_strings (omega (arith, width, length-append header strings)))

  tag_found : get_or b 0 0 ≡ tag_normal_tx_v1
  tag_found = rw e

  unmarshal-shape : (old : NormalTx) → unmarshal_typed old b ≡ returns r none
  unfolding unmarshal_typed read_txid read_scid
  unmarshal-shape old =
      rw (room, tag_found, fees_found, height_found)
        (rw (txid_found, read_txid) (rw (scid_found, read_scid) refl))

-- A normal transaction with fees, height and lengths in range is decoded from its typed encoding to
-- itself, also with other bytes behind it, and whatever the receiver held before.
pub unmarshal-marshal_normal_tx :
    (old r : NormalTx) (junk : Bytes)
    → InRange r
    → unmarshal_typed old (marshal_typed r ++ junk) ≡ returns r none
unfolding marshal_typed
unmarshal-marshal_normal_tx old r junk h =
    unmarshal-shape r junk (marshal_typed_append r [] ++ junk) h (marshal_typed-body r junk) old
