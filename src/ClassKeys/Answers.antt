-- ===== src/ClassKeys/Answers.antt =====
-- indexer/classkeys.go: the loop over the keys and the daemon's answers.
use hyper_gnomon.Base.{
  ℕ, zero, suc, ◌+◌, ◌≡◌, refl, arith, List, [], ◌∷◌, Bool, true, false, ◌&&◌, take, leb, ◌==◌,
}
use hyper_gnomon.Base.{length, ltb, if◌then◌else◌}
use hyper_gnomon.Base.Texts.{Bytes, bytes_eq, text}
use hyper_gnomon.Codec.Variables.{ScidVariable, string}
use hyper_gnomon.ClassKeys.{not_available, zip_loop, sc_vars_from_key_values}

abbrev pub starts_with : Bytes → Bytes → Bool
starts_with [] v = true
starts_with (c ∷ p) [] = false
starts_with (c ∷ p) (d ∷ v) = d == c && starts_with p v

-- A text starts with another if its first characters are that text.
starts_with-take :
    (p v : Bytes) → (leb (length p) (length v) && bytes_eq (take (length p) v) p) ≡ starts_with p v
unfolding bytes_eq
starts_with-take [] v = ground arith
starts_with-take (c ∷ p) [] = ground arith
starts_with-take (c ∷ p) (d ∷ v) = ground (arith, starts_with-take p v)

not_available-starts_with : (v : Bytes) → not_available v ≡ starts_with (text "NOT AVAILABLE") v
not_available-starts_with v = starts_with-take (text "NOT AVAILABLE") v

-- The pairs of keys and values, up to the end of the shorter list, whose value is available.
abbrev pub available_pairs : List Bytes → List Bytes → List ScidVariable
available_pairs [] values = []
available_pairs (k ∷ keys) [] = []
available_pairs (k ∷ keys) (v ∷ values) =
    let rest = available_pairs keys values in
    if starts_with (text "NOT AVAILABLE") v
    then rest
    else record { key = string k; value = string v } ∷ rest

abbrev shorter : List Bytes → List Bytes → ℕ
shorter keys values = if ltb (length values) (length keys) then length values else length keys

-- One more element at the front moves the indices by one.
zip_loop-shift :
    (n i : ℕ) (k v : Bytes) (keys values : List Bytes)
    → zip_loop n (suc i) (k ∷ keys) (v ∷ values) ≡ zip_loop n i keys values
unfolding zip_loop
zip_loop-shift zero i k v keys values = refl
zip_loop-shift (suc n) i k v keys values =
    let e : suc i + 1 ≡ suc (i + 1) = omega arith in
    rw (e, zip_loop-shift n (i + 1) k v keys values) refl

shorter-suc :
    (k v : Bytes) (keys values : List Bytes)
    → shorter (k ∷ keys) (v ∷ values) ≡ suc (shorter keys values)
shorter-suc k v keys values = ground arith

shorter-none : (values : List Bytes) → shorter [] values ≡ 0
shorter-none values = ground arith

shorter-no_values : (k : Bytes) (keys : List Bytes) → shorter (k ∷ keys) [] ≡ 0
shorter-no_values k keys = ground arith

zip_loop-shift_one :
    (n : ℕ) (k v : Bytes) (keys values : List Bytes)
    → zip_loop n (0 + 1) (k ∷ keys) (v ∷ values) ≡ zip_loop n 0 keys values
zip_loop-shift_one n k v keys values =
    let e : 0 + 1 ≡ suc 0 = omega arith in rw e (zip_loop-shift n 0 k v keys values)

zip_loop-available_pairs :
    (keys values : List Bytes)
    → zip_loop (shorter keys values) 0 keys values ≡ available_pairs keys values
unfolding zip_loop
zip_loop-available_pairs [] values = rw (shorter-none values) refl
zip_loop-available_pairs (k ∷ keys) [] = rw (shorter-no_values k keys) refl
zip_loop-available_pairs (k ∷ keys) (v ∷ values) =
    rw
      (
        shorter-suc k v keys values,
        zip_loop-shift_one (shorter keys values) k v keys values,
        zip_loop-available_pairs keys values,
        not_available-starts_with v,
      )
      refl

-- The loop over indices of scVarsFromKeyValues pairs the keys with the values in order, up to the
-- end of the shorter list, and leaves out the pairs whose value starts with NOT AVAILABLE.
pub sc_vars_from_key_values-available_pairs :
    (keys values : List Bytes) → sc_vars_from_key_values keys values ≡ available_pairs keys values
unfolding sc_vars_from_key_values
sc_vars_from_key_values-available_pairs keys values = zip_loop-available_pairs keys values
