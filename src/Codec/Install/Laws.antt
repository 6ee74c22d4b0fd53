-- ===== src/Codec/Install/Laws.antt =====
-- InstallRecord: round trip, with whatever follows the record ignored.
use hyper_gnomon.Base.{ℕ, ◌+◌, ◌≡◌, refl, sym, arith}
use hyper_gnomon.Base.{[], ◌∷◌, ◌++◌, none, append_assoc, length, length-append}
use hyper_gnomon.Base.{slice, get_or, ltb, le→not-ltb, false}
use hyper_gnomon.Codec.{Bytes, IsU64, ok, returns}
use hyper_gnomon.Codec.Words.{be_bytes, be_fold}
use hyper_gnomon.Codec.Words.Laws.{past, word_found, length-be_bytes}
use hyper_gnomon.Codec.LenString.{read_len_string}
use hyper_gnomon.Codec.LenString.Laws.{len_string, append_len_string_lem, read_len_string_found}
use hyper_gnomon.Codec.Install.{InstallRecord, marshal_typed_append, marshal_typed, unmarshal_typed}
use hyper_gnomon.Codec.Install.{read_owner, read_entrypoint, tag_install_record_v1}

-- The fields are a uint64 and two strings whose lengths are uint64s.
pub record InRange (r : InstallRecord) : Type 0 where
  pub fees : IsU64 r.fees
  pub owner : IsU64 (length r.owner)
  pub entrypoint : IsU64 (length r.entrypoint)

pub marshal_typed_append_lem :
    (r : InstallRecord) (dst : Bytes)
    → marshal_typed_append r dst
      ≡ dst
        ++ (tag_install_record_v1
            ∷ (be_bytes 8 r.fees ++ (len_string r.owner ++ len_string r.entrypoint)))
unfolding marshal_typed_append
marshal_typed_append_lem r dst = simp (append_len_string_lem, append_assoc)

module _ (r : InstallRecord) (junk b : Bytes) (h : InRange r)
    (e : b
      ≡ (tag_install_record_v1 ∷ [])
        ++ (be_bytes 8 r.fees ++ (len_string r.owner ++ (len_string r.entrypoint ++ junk)))) where
  abbrev header : Bytes
  header = tag_install_record_v1 ∷ be_bytes 8 r.fees

  abbrev owner_end : ℕ
  owner_end = 9 + length (len_string r.owner)

  width : length header ≡ 9
  width = omega (arith, length-be_bytes 8 r.fees)

  width₂ : length (header ++ len_string r.owner) ≡ owner_end
  width₂ = omega (arith, width, length-append header (len_string r.owner))

  e₂ : b ≡ (header ++ len_string r.owner) ++ (len_string r.entrypoint ++ junk)
  e₂ = past header (len_string r.owner) (len_string r.entrypoint ++ junk) e

  fees_found : be_fold 0 (slice b 1 9) ≡ r.fees
  fees_found =
      word_found 8 r.fees 1 9 (tag_install_record_v1 ∷ [])
        (len_string r.owner ++ (len_string r.entrypoint ++ junk)) e refl refl h.fees

  owner_found : read_len_string b 9 ≡ ok (r.owner, owner_end)
  owner_found =
      read_len_string_found r.owner 9 header (len_string r.entrypoint ++ junk) e (sym width) h.owner

  entrypoint_found :
      read_len_string b owner_end ≡ ok (r.entrypoint, owner_end + length (len_string r.entrypoint))
  entrypoint_found =
      read_len_string_found r.entrypoint owner_end (header ++ len_string r.owner) junk e₂
        (sym width₂) h.entrypoint

  room : ltb (length b) 9 ≡ false
  room = le→not-ltb (length b) 9 (
      rw e₂ (
        omega (
          arith,
          width₂,
          length-append (header ++ len_string r.owner) (len_string r.entrypoint ++ junk),
        )))

  tag_found : get_or b 0 0 ≡ tag_install_record_v1
  tag_found = rw e

  unmarshal-shape : (old : InstallRecord) → unmarshal_typed old b ≡ returns r none
  unfolding unmarshal_typed read_owner read_entrypoint
  unmarshal-shape old =
      rw (room, tag_found, fees_found)
        (rw (owner_found, read_owner) (rw (entrypoint_found, read_entrypoint) refl))

-- An install record with fees and lengths in range is decoded from its typed encoding to itself,
-- also with other bytes behind it, and whatever the receiver held before.
pub unmarshal-marshal_install :
    (old r : InstallRecord) (junk : Bytes)
    → InRange r
    → unmarshal_typed old (marshal_typed r ++ junk) ≡ returns r none
unfolding marshal_typed
unmarshal-marshal_install old r junk h =
    unmarshal-shape r junk (marshal_typed_append r [] ++ junk) h
      (rw (marshal_typed_append_lem r []) (simp append_assoc)) old
