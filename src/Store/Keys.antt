-- ===== src/Store/Keys.antt =====
-- storage/bbolt.go and storage/truncate.go: the composite keys of the buckets, their encoders and the
-- decoders that the truncation to a height reads them with.
pub mod Laws
pub mod Order
use hyper_gnomon.Base.{
  ℕ, zero, suc, ◌+◌, ◌-◌, List, [], ◌∷◌, ◌++◌, Bool, true, false, not, ◌||◌, ◌&&◌,
}
use hyper_gnomon.Base.{
  Option, none, some, ltb, leb, ◌==◌, if◌then◌else◌, length, take, drop, slice, get_or,
}
use hyper_gnomon.Base.Int.{ℤ, pos, negsuc}
use hyper_gnomon.Base.Texts.{Bytes}
use hyper_gnomon.Codec.Words.{be_bytes, be_uint, int64_bits, int64_from_bits}

abbrev pub colon : ℕ
colon = 58

abbrev pub bar : ℕ
bar = 124

unfoldable pub enc_height : ℤ → Bytes
enc_height h = be_bytes 8 (int64_bits h)

unfoldable pub dec_height : Bytes → ℤ
dec_height b = if ltb (length b) 8 then pos 0 else int64_from_bits (be_uint (slice b 0 8))

unfoldable pub install_key : ℤ → Bytes → Bytes
unfolding enc_height
install_key h scid = (enc_height h ++ (bar ∷ [])) ++ scid

unfoldable pub append_height_key : Bytes → Bytes → ℤ → Bytes
unfolding enc_height
append_height_key dst scid h = ((dst ++ scid) ++ (colon ∷ [])) ++ enc_height h

unfoldable pub append_norm_tx_key : Bytes → Bytes → ℤ → Bytes → Bytes → Bytes
unfolding enc_height
append_norm_tx_key dst addr h txid scid =
    let k1 = (dst ++ addr) ++ (colon ∷ []) in
    let k2 = (k1 ++ enc_height h) ++ (colon ∷ []) in
    let k3 = (k2 ++ txid) ++ (colon ∷ []) in k3 ++ scid

-- `bytes.IndexByte` and `bytes.LastIndexByte`; `none` is -1.
abbrev pub index_byte : Bytes → ℕ → Option ℕ
index_byte [] c = none
index_byte (x ∷ xs) c =
    let rest = index_byte xs c in
    if x == c then some 0 else elim rest [ none ↦ none | some i ↦ some (suc i) ]

abbrev pub last_index_byte : Bytes → ℕ → Option ℕ
last_index_byte [] c = none
last_index_byte (x ∷ xs) c = elim (last_index_byte xs c) [
  | some i ↦ some (suc i)
  | none ↦ if x == c then some 0 else none
]

unfoldable pub install_key_scid : Bytes → Option Bytes
install_key_scid k = if ltb (length k) 9 || not (get_or k 8 0 == bar) then none else some (drop 9 k)

unfoldable pub split_height_key : Bytes → Option (Bytes × ℤ)
unfolding dec_height
split_height_key k = elim (index_byte k colon) [
  | none ↦ none
  | some sep ↦
      if not (length k == sep + 1 + 8)
      then none
      else some (take sep k, dec_height (drop (sep + 1) k))
]

unfoldable pub norm_tx_height : Bytes → ℤ
unfolding dec_height
norm_tx_height k = elim (index_byte k colon) [
  | none ↦ pos 0
  | some i ↦ if ltb (length k) (i + 1 + 8) then pos 0 else dec_height (slice k (i + 1) (i + 9))
]

-- The search from the right, behind the checks of the left part.
split_scid : Bytes → ℕ → Option (Bytes × Bytes × ℤ)
unfolding dec_height
split_scid k sep = elim (last_index_byte k colon) [
  | none ↦ none
  | some last ↦
      if ltb last (sep + 10) || not (length k - last - 1 == 64)
      then none
      else some (take sep k, drop (last + 1) k, dec_height (slice k (sep + 1) (sep + 9)))
]

unfoldable pub split_norm_tx_key : Bytes → Option (Bytes × Bytes × ℤ)
unfolding split_scid
split_norm_tx_key k = elim (index_byte k colon) [
  | none ↦ none
  | some sep ↦
      if leb (length k) (sep + 9) || not (get_or k (sep + 9) 0 == colon)
      then none
      else split_scid k sep
]
