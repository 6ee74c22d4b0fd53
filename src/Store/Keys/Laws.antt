-- ===== src/Store/Keys/Laws.antt =====
-- The decoders read back what the encoders write.
use hyper_gnomon.Base.{ℕ, ◌+◌, ◌-◌, ◌≡◌, ◌≢◌, refl, sym, ap, ◌∙◌, arith, [], ◌∷◌, ◌++◌}
use hyper_gnomon.Base.{
  none, some, All, if_no, append-nil, slice_middle, get_or-append, lt→not-leb, drop-drop, length,
  length-append, take, drop, slice, get_or, append_assoc, take-append_self, drop-append_self, ltb,
  leb, ◌==◌, ==_iff, false, le→not-ltb, not, ◌||◌,
}
use hyper_gnomon.Base.Int.{ℤ, IsI64}
use hyper_gnomon.Base.Texts.{Bytes}
use hyper_gnomon.Codec.Words.{be_bytes, int64_bits}
use hyper_gnomon.Codec.Words.Laws.{length-be_bytes, int64_found}
use hyper_gnomon.Store.Keys.{
  colon, bar, enc_height, dec_height, install_key, append_height_key, append_norm_tx_key,
}
use hyper_gnomon.Store.Keys.{
  index_byte, last_index_byte, install_key_scid, split_height_key, norm_tx_height,
  split_norm_tx_key, split_scid,
}

-- A part of a key in which no colon stands.
abbrev pub IsPlain : Bytes → Type 0
IsPlain s = All (λ (c : ℕ). c ≢ colon) s

plain : (c : ℕ) → c ≢ colon → (c == colon) ≡ false
plain c ne = ground arith

pub index_byte-append :
    (s rest : Bytes) → IsPlain s → index_byte (s ++ (colon ∷ rest)) colon ≡ some (length s)
index_byte-append [] rest h = refl
index_byte-append (x ∷ s) rest h = rw (plain x h.0, index_byte-append s rest h.1) refl

last_index_byte-none : (s : Bytes) → IsPlain s → last_index_byte s colon ≡ none
last_index_byte-none [] h = refl
last_index_byte-none (x ∷ s) h = rw (last_index_byte-none s h.1, plain x h.0) refl

last_index_byte-append :
    (front s : Bytes)
    → IsPlain s
    → last_index_byte (front ++ (colon ∷ s)) colon ≡ some (length front)
last_index_byte-append [] s h = rw (last_index_byte-none s h) refl
last_index_byte-append (x ∷ front) s h = rw (last_index_byte-append front s h) refl

pub dec_height-enc_height : (h : ℤ) → IsI64 h → dec_height (enc_height h) ≡ h
unfolding dec_height enc_height
dec_height-enc_height h int64 =
    if_no (ltb (length (be_bytes 8 (int64_bits h))) 8) _ _ (
      le→not-ltb (length (be_bytes 8 (int64_bits h))) 8
        (omega (arith, length-be_bytes 8 (int64_bits h))))
    ∙ int64_found h 0 8 [] [] (sym (append-nil (be_bytes 8 (int64_bits h)))) refl refl int64

pub length-enc_height : (h : ℤ) → length (enc_height h) ≡ 8
unfolding enc_height
length-enc_height h = length-be_bytes 8 (int64_bits h)

-- The part of a key that stands at an index.
part :
    (i j : ℕ) (front mid back : Bytes)
    → length front ≡ i
    → i + length mid ≡ j
    → slice (front ++ (mid ++ back)) i j ≡ mid
part i j front mid back at to = rw (← to, ← at) (slice_middle front mid back)

pub install_key_scid-install_key :
    (h : ℤ) (scid : Bytes) → install_key_scid (install_key h scid) ≡ some scid
unfolding install_key_scid install_key enc_height be_bytes
install_key_scid-install_key h scid =
    if_no (ltb (length (install_key h scid)) 9 || not (get_or (install_key h scid) 8 0 == bar)) _ _
      (rw (le→not-ltb (length (install_key h scid)) 9 (omega arith)) refl)

height_key_found :
    (scid : Bytes) (h : ℤ)
    → IsPlain scid
    → IsI64 h
    → split_height_key (scid ++ (colon ∷ enc_height h)) ≡ some (scid, h)
unfolding split_height_key
height_key_found scid h clean int64 =
    rw (index_byte-append scid (enc_height h) clean, split_height_key)
      (if_no (not (length (scid ++ (colon ∷ enc_height h)) == length scid + 1 + 8)) _ _ (
          ap not ((==_iff (length (scid ++ (colon ∷ enc_height h))) (length scid + 1 + 8)).1 width))
        ∙ λ i. some (
          take-append_self scid (colon ∷ enc_height h) i,
          (tail ∙ dec_height-enc_height h int64) i,
        ))
  where
    width : length (scid ++ (colon ∷ enc_height h)) ≡ length scid + 1 + 8
    width = omega (arith, length-append scid (colon ∷ enc_height h), length-enc_height h)

    tail :
        dec_height (drop (length scid + 1) (scid ++ (colon ∷ enc_height h)))
        ≡ dec_height (enc_height h)
    tail = ap dec_height (
        rw
          (
            ← drop-drop (length scid) 1 (scid ++ (colon ∷ enc_height h)),
            drop-append_self scid (colon ∷ enc_height h),
          )
          refl)

-- The key of an interaction height is split into its contract and height, if no colon stands in the
-- contract and the height is an int64.
pub split_height_key-append_height_key :
    (scid : Bytes) (h : ℤ)
    → IsPlain scid
    → IsI64 h
    → split_height_key (append_height_key [] scid h) ≡ some (scid, h)
unfolding append_height_key enc_height
split_height_key-append_height_key scid h clean int64 =
    ap split_height_key (append_assoc scid (colon ∷ []) (enc_height h))
    ∙ height_key_found scid h clean int64

module _ (addr : Bytes) (h : ℤ) (txid scid : Bytes) (clean : IsPlain addr) (int64 : IsI64 h) where
  abbrev behind : Bytes
  behind = colon ∷ (txid ++ (colon ∷ scid))

  key_shape : append_norm_tx_key [] addr h txid scid ≡ addr ++ (colon ∷ (enc_height h ++ behind))
  unfolding append_norm_tx_key
  key_shape = simp append_assoc

  first_colon : index_byte (append_norm_tx_key [] addr h txid scid) colon ≡ some (length addr)
  first_colon = rw key_shape (index_byte-append addr (enc_height h ++ behind) clean)

  key_length :
      length (append_norm_tx_key [] addr h txid scid)
      ≡ length addr + 10 + length (txid ++ (colon ∷ scid))
  key_length = rw key_shape (
      omega (
        arith,
        length-append addr (colon ∷ (enc_height h ++ behind)),
        length-append (enc_height h) behind,
        length-enc_height h,
      ))

  height_part :
      slice (append_norm_tx_key [] addr h txid scid) (length addr + 1) (length addr + 9)
      ≡ enc_height h
  height_part = rw key_shape (
      rw (← append_assoc addr (colon ∷ []) (enc_height h ++ behind)) (
        part (length addr + 1) (length addr + 9) (addr ++ (colon ∷ [])) (enc_height h) behind
          (length-append addr (colon ∷ [])) (omega (arith, length-enc_height h))))

  pub norm_tx_height-append_norm_tx_key :
      norm_tx_height (append_norm_tx_key [] addr h txid scid) ≡ h
  unfolding norm_tx_height
  norm_tx_height-append_norm_tx_key =
      rw (first_colon, norm_tx_height)
        (if_no (ltb (length (append_norm_tx_key [] addr h txid scid)) (length addr + 1 + 8)) _ _ (
            le→not-ltb (length (append_norm_tx_key [] addr h txid scid)) (length addr + 1 + 8)
              (omega (arith, key_length)))
          ∙ ap dec_height height_part
          ∙ dec_height-enc_height h int64)

  abbrev before_scid : Bytes
  before_scid = addr ++ (colon ∷ (enc_height h ++ (colon ∷ txid)))

  length-before_scid : length before_scid ≡ length addr + 10 + length txid
  length-before_scid = omega (
    arith,
    length-append addr (colon ∷ (enc_height h ++ (colon ∷ txid))),
    length-append (enc_height h) (colon ∷ txid),
    length-enc_height h,
  )

  key_from_right : append_norm_tx_key [] addr h txid scid ≡ before_scid ++ (colon ∷ scid)
  unfolding append_norm_tx_key
  key_from_right = simp append_assoc

  second_colon : get_or (append_norm_tx_key [] addr h txid scid) (length addr + 9) 0 ≡ colon
  second_colon = rw key_shape (
      rw (← append_assoc addr (colon ∷ enc_height h) behind, ← middle)
        (get_or-append (addr ++ (colon ∷ enc_height h)) (txid ++ (colon ∷ scid)) colon 0))
    where
      middle : length (addr ++ (colon ∷ enc_height h)) ≡ length addr + 9
      middle = omega (arith, length-append addr (colon ∷ enc_height h), length-enc_height h)

  abbrev key : Bytes
  key = append_norm_tx_key [] addr h txid scid

  last_colon : IsPlain scid → last_index_byte key colon ≡ some (length before_scid)
  last_colon plain_scid = rw key_from_right (last_index_byte-append before_scid scid plain_scid)

  scid_part : drop (length before_scid + 1) key ≡ scid
  scid_part = rw key_from_right (
      rw
        (
          ← drop-drop (length before_scid) 1 (before_scid ++ (colon ∷ scid)),
          drop-append_self before_scid (colon ∷ scid),
        )
        refl)

  addr_part : take (length addr) key ≡ addr
  addr_part = rw key_shape (take-append_self addr (colon ∷ (enc_height h ++ behind)))

  scid_found : IsPlain scid → length scid ≡ 64 → split_scid key (length addr) ≡ some (addr, scid, h)
  unfolding split_scid
  scid_found plain_scid wide =
      rw (last_colon plain_scid, split_scid)
        (if_no
            (ltb (length before_scid) (length addr + 10)
              || not (length key - length before_scid - 1 == 64))
            _ _
            (rw
              (
                le→not-ltb (length before_scid) (length addr + 10)
                    (omega (arith, length-before_scid)),
                (==_iff (length key - length before_scid - 1) 64).1 width,
              )
              refl)
          ∙ λ i. some (
            addr_part i,
            scid_part i,
            (ap dec_height height_part ∙ dec_height-enc_height h int64) i,
          ))
    where
      width : length key - length before_scid - 1 ≡ 64
      width = omega (arith, key_length, length-before_scid, length-append txid (colon ∷ scid), wide)

  -- A key of a normal transaction is split into its address, contract and height, if no colon
  -- stands in the address or the contract, the contract has 64 characters, and the height is an
  -- int64; whatever the transaction's id, and also where a colon's code stands in the bytes of the
  -- height.
  pub split_norm_tx_key-append_norm_tx_key :
      IsPlain scid
      → length scid ≡ 64
      → split_norm_tx_key (append_norm_tx_key [] addr h txid scid) ≡ some (addr, scid, h)
  unfolding split_norm_tx_key
  split_norm_tx_key-append_norm_tx_key plain_scid wide =
      rw (first_colon, split_norm_tx_key)
        (if_no (leb (length key) (length addr + 9) || not (get_or key (length addr + 9) 0 == colon))
            _ _
            (rw
              (lt→not-leb (length key) (length addr + 9) (omega (arith, key_length)), second_colon)
              refl)
          ∙ scid_found plain_scid wide)
