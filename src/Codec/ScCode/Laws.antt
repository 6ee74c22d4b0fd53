-- ===== src/Codec/ScCode/Laws.antt =====
-- SCCodeEntry: the encoding is a bijection onto the byte slices with the tag and nine bytes or more.
use hyper_gnomon.Base.{ℕ, ◌≤◌, ◌≡◌, refl, sym, ap₂, arith}
use hyper_gnomon.Base.{[], ◌∷◌, ◌++◌, none, append_assoc, length, length-append, All}
use hyper_gnomon.Base.{slice, take, drop, get_or, ltb, le→not-ltb, false, drop-append_self}
use hyper_gnomon.Base.{take-append-drop, length-take, All-take}
use hyper_gnomon.Base.Int.{IsI64}
use hyper_gnomon.Codec.{Bytes, IsByte, returns}
use hyper_gnomon.Codec.Words.{be_bytes, be_fold, be_uint, int64_bits, int64_from_bits}
use hyper_gnomon.Codec.Words.Laws.{int64_found, length-be_bytes, word_rewritten}
use hyper_gnomon.Codec.ScCode.{ScCodeEntry, marshal_typed_append, marshal_typed, unmarshal_typed}
use hyper_gnomon.Codec.ScCode.{tag_sc_code_entry_v1}

shape :
    (e : ScCodeEntry)
    → marshal_typed e ≡ tag_sc_code_entry_v1 ∷ (be_bytes 8 (int64_bits e.install_height) ++ e.code)
unfolding marshal_typed be_bytes
shape e = refl

pub marshal_sc_code-append :
    (e : ScCodeEntry) (dst : Bytes) → marshal_typed_append e dst ≡ dst ++ marshal_typed e
unfolding marshal_typed_append
marshal_sc_code-append e dst = rw (shape e) (simp append_assoc)

module _ (e : ScCodeEntry) (b : Bytes) (h : IsI64 e.install_height)
    (eq : b ≡ tag_sc_code_entry_v1 ∷ (be_bytes 8 (int64_bits e.install_height) ++ e.code)) where
  abbrev header : Bytes
  header = tag_sc_code_entry_v1 ∷ be_bytes 8 (int64_bits e.install_height)

  width : length header ≡ 9
  width = omega (arith, length-be_bytes 8 (int64_bits e.install_height))

  room : ltb (length b) 9 ≡ false
  room = le→not-ltb (length b) 9 (rw eq (omega (arith, width, length-append header e.code)))

  height_found : int64_from_bits (be_fold 0 (slice b 1 9)) ≡ e.install_height
  height_found = int64_found e.install_height 1 9 (tag_sc_code_entry_v1 ∷ []) e.code eq refl refl h

  code_found : drop 9 b ≡ e.code
  code_found = rw (← width, eq) (drop-append_self header e.code)

  tag_found : get_or b 0 0 ≡ tag_sc_code_entry_v1
  tag_found = rw eq

  unmarshal-shape : (old : ScCodeEntry) → unmarshal_typed old b ≡ returns e none
  unfolding unmarshal_typed
  unmarshal-shape old = rw (room, tag_found, height_found, code_found) refl

-- A contract code entry whose height is an int64 is decoded from its typed encoding to itself,
-- whatever the receiver held before.
pub unmarshal-marshal_sc_code :
    (old e : ScCodeEntry)
    → IsI64 e.install_height
    → unmarshal_typed old (marshal_typed e) ≡ returns e none
unmarshal-marshal_sc_code old e h = unmarshal-shape e (marshal_typed e) h (shape e) old

header_parts :
    (b : Bytes)
    → 9 ≤ length b
    → get_or b 0 0 ≡ tag_sc_code_entry_v1
    → b ≡ tag_sc_code_entry_v1 ∷ (slice b 1 9 ++ drop 9 b)
header_parts [] width tag = absurd (omega arith)
header_parts (x ∷ c) width tag = ap₂ (λ (t : ℕ) (u : Bytes). t ∷ u) tag (sym (take-append-drop 8 c))

-- If bytes are decoded to a contract code entry without an error, the entry's typed encoding is
-- these bytes.
pub marshal-unmarshal_sc_code :
    (old e : ScCodeEntry) (b : Bytes)
    → All IsByte b
    → unmarshal_typed old b ≡ returns e none
    → marshal_typed e ≡ b
unfolding unmarshal_typed
marshal-unmarshal_sc_code old e [] h d = ground (arith, d)
marshal-unmarshal_sc_code old e (x ∷ c) h d =
    rw
      (
        shape e,
        fields,
        word_rewritten (take 8 c) (length-take 8 c (omega (arith, long))) (All-take IsByte 8 c h.1),
      )
      (sym (header_parts (x ∷ c) long (ground (arith, d))))
  where
    long : 9 ≤ length (x ∷ c)
    long = ground (arith, d)

    fields : e ≡ record { code = drop 8 c; install_height = int64_from_bits (be_uint (take 8 c)) }
    fields = ground (arith, d)
