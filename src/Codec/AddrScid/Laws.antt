-- ===== src/Codec/AddrScid/Laws.antt =====
-- The encoding of AddrSCIDEntry is a bijection onto the well-formed 25-byte records.
use hyper_gnomon.Base.{ℕ, ◌+◌, ◌≡◌, refl, sym, ap, ◌∙◌, arith}
use hyper_gnomon.Base.{[], ◌∷◌, ◌++◌, none, append_assoc, length, All}
use hyper_gnomon.Base.{
  slice, take, drop, get_or, take-append-drop, drop-drop, take-all, length-drop, length-take,
  All-take, All-drop, subst, ap₂, ◌≤◌,
}
use hyper_gnomon.Base.Int.{ℤ, IsI64}
use hyper_gnomon.Codec.{Bytes, IsByte, returns}
use hyper_gnomon.Codec.Words.{be_bytes, be_fold, be_uint, int64_bits, int64_from_bits}
use hyper_gnomon.Codec.Words.Laws.{be_fold-be_bytes, int64_bits-IsU64}
use hyper_gnomon.Codec.Words.Laws.{int64_from_bits-int64_bits, word_rewritten}
use hyper_gnomon.Codec.AddrScid.{
  AddrScidEntry, marshal_typed, marshal_typed_append, unmarshal_typed,
}
use hyper_gnomon.Codec.AddrScid.{tag_addr_scid_entry_v1}

-- The fields are int64s.
pub record InRange (e : AddrScidEntry) : Type 0 where
  pub first : IsI64 e.first_height
  pub last : IsI64 e.last_height
  pub count : IsI64 e.count

field_back : (z : ℤ) → IsI64 z → int64_from_bits (be_fold 0 (be_bytes 8 (int64_bits z))) ≡ z
field_back z h =
    rw (be_fold-be_bytes 8 (int64_bits z) (int64_bits-IsU64 z)) (int64_from_bits-int64_bits z h)

pub marshal_addr_scid-append :
    (e : AddrScidEntry) (dst : Bytes) → marshal_typed_append e dst ≡ dst ++ marshal_typed e
unfolding marshal_typed marshal_typed_append be_bytes
marshal_addr_scid-append e dst = simp append_assoc

-- An address entry whose fields are int64s is decoded from its 25 bytes to itself, whatever the
-- receiver held before.
pub unmarshal-marshal_addr_scid :
    (old e : AddrScidEntry) → InRange e → unmarshal_typed old (marshal_typed e) ≡ returns e none
unfolding marshal_typed unmarshal_typed be_bytes
unmarshal-marshal_addr_scid old e h = λ i.
    returns
      (record {
        first_height = field_back e.first_height h.first i;
        last_height = field_back e.last_height h.last i;
        count = field_back e.count h.count i;
      })
      none

shape :
    (e : AddrScidEntry)
    → marshal_typed e
      ≡ tag_addr_scid_entry_v1
        ∷ (be_bytes 8 (int64_bits e.first_height)
            ++ (be_bytes 8 (int64_bits e.last_height) ++ be_bytes 8 (int64_bits e.count)))
unfolding marshal_typed be_bytes
shape e = refl

three_words :
    (c : Bytes) → length c ≡ 24 → c ≡ take 8 c ++ (take 8 (drop 8 c) ++ take 8 (drop 16 c))
three_words c width =
    sym (take-append-drop 8 c)
    ∙ ap (λ (t : Bytes). take 8 c ++ t)
        (sym (take-append-drop 8 (drop 8 c))
          ∙ ap (λ (t : Bytes). take 8 (drop 8 c) ++ t) (drop-drop 8 8 c ∙ rest_word))
  where
    left : length (drop 16 c) ≡ 8
    left = omega (arith, length-drop 16 c)

    rest_word : drop 16 c ≡ take 8 (drop 16 c)
    rest_word = sym (subst (λ n. take n (drop 16 c) ≡ drop 16 c) left (take-all (drop 16 c)))

-- A 25-byte record is its tag and three words.
four_parts :
    (b : Bytes)
    → length b ≡ 25
    → get_or b 0 0 ≡ tag_addr_scid_entry_v1
    → b ≡ tag_addr_scid_entry_v1 ∷ (slice b 1 9 ++ (slice b 9 17 ++ slice b 17 25))
four_parts [] width tag = absurd (omega arith)
four_parts (x ∷ c) width tag = ap₂ (λ (t : ℕ) (u : Bytes). t ∷ u) tag (three_words c (omega arith))

-- If bytes are decoded to an address entry without an error, the entry's typed encoding is these
-- bytes.
pub marshal-unmarshal_addr_scid :
    (old e : AddrScidEntry) (b : Bytes)
    → All IsByte b
    → unmarshal_typed old b ≡ returns e none
    → marshal_typed e ≡ b
unfolding unmarshal_typed
marshal-unmarshal_addr_scid old e b h d =
    rw (shape e, fields)
      (rw (piece 1 (omega arith), piece 9 (omega arith), piece 17 (omega arith)) (sym parts))
  where
    width : length b ≡ 25
    width = ground (arith, d)

    parts : b ≡ tag_addr_scid_entry_v1 ∷ (slice b 1 9 ++ (slice b 9 17 ++ slice b 17 25))
    parts = four_parts b width (ground (arith, d))

    fields : e ≡ record {
      first_height = int64_from_bits (be_uint (slice b 1 9));
      last_height = int64_from_bits (be_uint (slice b 9 17));
      count = int64_from_bits (be_uint (slice b 17 25));
    }
    fields = ground (arith, d)

    piece :
        (i : ℕ)
        → i + 8 ≤ 25
        → be_bytes 8 (int64_bits (int64_from_bits (be_fold 0 (take 8 (drop i b)))))
          ≡ take 8 (drop i b)
    piece i lt =
        word_rewritten (take 8 (drop i b))
          (length-take 8 (drop i b) (omega (arith, length-drop i b, width)))
          (All-take IsByte 8 (drop i b) (All-drop IsByte i b h))
