-- ===== src/Store/DecimalKeys/Laws.antt =====
-- The keys with a decimal height are read back.
use hyper_gnomon.Base.{
  ℕ, zero, suc, ◌+◌, ◌/◌, ◌%◌, ◌≡◌, refl, sym, ap, ◌∙◌, arith, inl, inr, [], ◌∷◌, ◌++◌, some,
  Bool-cases, append_assoc, length, drop, drop-drop, take-append_self, drop-append_self, ltb,
  ltb→lt,
}
use hyper_gnomon.Base.Int.{ℤ, pos, negsuc, IsI64}
use hyper_gnomon.Base.Texts.{Bytes}
use hyper_gnomon.Base.Strconv.{put_digits, format_int}
use hyper_gnomon.Base.Strconv.Laws.{parse_int-format_int}
use hyper_gnomon.Store.Keys.{colon}
use hyper_gnomon.Store.Keys.Laws.{IsPlain, index_byte-append}
use hyper_gnomon.Store.DecimalKeys.{
  sc_vars_key, invocation_key, split_sc_vars_key, parse_invocation_key, height_part, txid_part,
}

-- What stands behind the first colon.
behind_colon : (s rest : Bytes) → drop (length s + 1) (s ++ (colon ∷ rest)) ≡ rest
behind_colon s rest =
    sym (drop-drop (length s) 1 (s ++ (colon ∷ rest))) ∙ rw (drop-append_self s (colon ∷ rest)) refl

put_digits-IsPlain : (f n : ℕ) (acc : Bytes) → IsPlain acc → IsPlain (put_digits f n acc)
unfolding put_digits
put_digits-IsPlain zero n acc h = h
put_digits-IsPlain (suc f) n acc h = elim (Bool-cases (ltb n 10)) [
  | inl last ↦ rw last (λ e. omega (arith, e, ltb→lt n 10 last), h)
  | inr more ↦
      rw more (put_digits-IsPlain f (n / 10) ((48 + n % 10) ∷ acc) (λ e. omega (arith, e), h))
]

format_int-IsPlain : (z : ℤ) → IsPlain (format_int z)
unfolding format_int
format_int-IsPlain (pos n) = put_digits-IsPlain 20 n [] tt
format_int-IsPlain (negsuc n) = (λ e. omega (arith, e), put_digits-IsPlain 20 (n + 1) [] tt)

pub split_sc_vars_key-sc_vars_key :
    (scid : Bytes) (h : ℤ)
    → IsPlain scid
    → IsI64 h
    → split_sc_vars_key (sc_vars_key scid h) ≡ some (scid, h)
unfolding split_sc_vars_key sc_vars_key
split_sc_vars_key-sc_vars_key scid h clean int64 =
    rw (append_assoc scid (colon ∷ []) (format_int h)) (
      rw (index_byte-append scid (format_int h) clean, split_sc_vars_key)
        (rw
          (
            take-append_self scid (colon ∷ format_int h),
            behind_colon scid (format_int h),
            parse_int-format_int h int64,
          )
          refl))

height_found :
    (sender entrypoint : Bytes) (h : ℤ)
    → IsI64 h
    → height_part sender (format_int h ++ (colon ∷ entrypoint)) ≡ some (sender, h)
unfolding height_part
height_found sender entrypoint h int64 =
    rw (index_byte-append (format_int h) entrypoint (format_int-IsPlain h), height_part)
      (rw (take-append_self (format_int h) (colon ∷ entrypoint), parse_int-format_int h int64) refl)

txid_found :
    (sender txid rest : Bytes)
    → IsPlain txid
    → txid_part sender (txid ++ (colon ∷ rest)) ≡ height_part sender rest
unfolding txid_part
txid_found sender txid rest plain =
    rw (index_byte-append txid rest plain, txid_part) (rw (behind_colon txid rest) refl)

pub parse_invocation_key-invocation_key :
    (sender txid entrypoint : Bytes) (h : ℤ)
    → IsPlain sender
    → IsPlain txid
    → IsI64 h
    → parse_invocation_key (invocation_key sender txid h entrypoint) ≡ some (sender, h)
unfolding parse_invocation_key invocation_key
parse_invocation_key-invocation_key sender txid entrypoint h clean plain int64 =
    ap parse_invocation_key shape
    ∙ (rw (index_byte-append sender rest clean, parse_invocation_key)
        (rw (take-append_self sender (colon ∷ rest), behind_colon sender rest)
          (txid_found sender txid (format_int h ++ (colon ∷ entrypoint)) plain
            ∙ height_found sender entrypoint h int64)))
  where
    rest : Bytes
    rest = txid ++ (colon ∷ (format_int h ++ (colon ∷ entrypoint)))

    shape : invocation_key sender txid h entrypoint ≡ sender ++ (colon ∷ rest)
    shape = simp append_assoc
