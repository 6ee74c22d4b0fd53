-- ===== src/Codec/Variables/Passes.antt =====
-- The second pass over SCIDVariable fields cuts exactly what the first one counted.
use hyper_gnomon.Base.{
  ℕ, zero, suc, ◌+◌, ◌-◌, ◌*◌, ◌≡◌, refl, sym, ap, ap₂, ◌∙◌, ◌≢◌, arith, inl, inr,
}
use hyper_gnomon.Base.{List, [], ◌∷◌, ◌++◌, map, append_assoc, append-nil, length, All, not, ◌||◌}
use hyper_gnomon.Base.{slice, get_or, ltb, ◌==◌, if◌then◌else◌}
use hyper_gnomon.Codec.{
  Bytes, ok, err, panic, ◌>>=◌, Result, Result-cases, >>=-eq-ok, >>=-ne-panic,
  invalid_scid_variables,
}
use hyper_gnomon.Codec.Words.{be_uint}
use hyper_gnomon.Codec.Arena.{owned_cut}
use hyper_gnomon.Codec.Arena.Laws.{
  filled, view_at, owned_cut-filled, view_string-view_at, length-slice,
}
use hyper_gnomon.Codec.Variables.{
  Value, ScidVariable, string, Located, at_range, Cut, viewed, tag_scid_variables_v1,
}
use hyper_gnomon.Codec.Variables.{
  loc_var_field, located_width, cut_located, cut_fields, show_cut, pair_up, double,
}
use hyper_gnomon.Codec.Variables.{read_variables, unmarshal_scid_variables_typed}
use hyper_gnomon.Codec.Variables.Laws.{
  show_located, Fits, loc_fields, read_fields, total_of, loc_fields-Fits,
}
use hyper_gnomon.Codec.Variables.Laws.{fields_total-loc, read_fields-loc, loc_var_field-ne-panic}
use native.Mathlib.Nat.{add-zero, zero-add, add_assoc}

abbrev bytes_of : Bytes → Located → Bytes
bytes_of b (at_range st en) = slice b st en
bytes_of b (Located.number u) = []

abbrev cut_at : Bytes → Bytes → Located → Cut
cut_at used b (at_range st en) = viewed (view_at used (slice b st en))
cut_at used b (Located.number u) = Cut.number u

abbrev all_bytes : Bytes → List Located → Bytes
all_bytes b [] = []
all_bytes b (f ∷ fs) = bytes_of b f ++ all_bytes b fs

abbrev cuts : Bytes → Bytes → List Located → List Cut
cuts used b [] = []
cuts used b (f ∷ fs) = cut_at used b f ∷ cuts (used ++ bytes_of b f) b fs

cut_range-filled :
    (used b s : Bytes) (r st en : ℕ)
    → slice b st en ≡ s
    → en - st ≡ length s
    → owned_cut (filled used ((en - st) + r)) b st en ≡ ok (view_at used s, filled (used ++ s) r)
cut_range-filled used b s r st en e w = rw w (owned_cut-filled used b s r st en e w)

cut_located-filled :
    (used b : Bytes) (r : ℕ) (f : Located)
    → Fits b f
    → cut_located (filled used (located_width f + r)) b f
      ≡ ok (cut_at used b f, filled (used ++ bytes_of b f) r)
cut_located-filled used b r (Located.number u) h = rw (zero-add, append-nil) refl
cut_located-filled used b r (at_range st en) h =
    rw (cut_range-filled used b (slice b st en) r st en refl (sym (length-slice b st en h.0 h.1)))
      refl

cut_fields_step :
    (k : ℕ) (b : Bytes) (pos next r : ℕ) (used : Bytes) (f : Located) (fs : List Located)
    → loc_var_field b pos ≡ ok (f, next)
    → Fits b f
    → cut_fields k b next (filled (used ++ bytes_of b f) (total_of fs + r))
      ≡ ok (cuts (used ++ bytes_of b f) b fs, filled ((used ++ bytes_of b f) ++ all_bytes b fs) r)
    → cut_fields (suc k) b pos (filled used (total_of (f ∷ fs) + r))
      ≡ ok (cuts used b (f ∷ fs), filled (used ++ all_bytes b (f ∷ fs)) r)
unfolding cut_fields total_of
cut_fields_step k b pos next r used f fs found h rest =
    rw
      (
        found,
        add_assoc (located_width f) (total_of fs) r,
        cut_located-filled used b (total_of fs + r) f h,
        rest,
        append_assoc used (bytes_of b f) (all_bytes b fs),
      )
      refl

cut_fields-filled :
    (k : ℕ) (b : Bytes) (pos r : ℕ) (used : Bytes) (fs : List Located)
    → loc_fields k b pos ≡ ok fs
    → All (Fits b) fs
    → cut_fields k b pos (filled used (total_of fs + r))
      ≡ ok (cuts used b fs, filled (used ++ all_bytes b fs) r)
unfolding loc_fields
cut_fields-filled zero b pos r used fs e h =
    let none_left : fs ≡ [] = ground (arith, e) in
    rw none_left (unfold cut_fields total_of in rw (zero-add, append-nil) refl)
cut_fields-filled (suc k) b pos r used fs e h =
    let (first, found, e') = >>=-eq-ok (loc_var_field b pos) _ e in
    let (others, found', e'') = >>=-eq-ok (loc_fields k b first.1) _ e' in
    let split : fs ≡ first.0 ∷ others = ground (arith, e'') in
    let within : All (Fits b) (first.0 ∷ others) = rw split at h in
    rw split (
      cut_fields_step k b pos first.1 r used first.0 others found within.0
        (cut_fields-filled k b first.1 r (used ++ bytes_of b first.0) others found' within.1))

show_cut-cut_at :
    (used b post : Bytes) (f : Located)
    → show_cut (used ++ (bytes_of b f ++ post)) (cut_at used b f) ≡ show_located b f
show_cut-cut_at used b post (at_range st en) =
    ap string (view_string-view_at used (slice b st en) post)
show_cut-cut_at used b post (Located.number u) = refl

show_cuts :
    (buf used b post : Bytes) (fs : List Located)
    → buf ≡ used ++ (all_bytes b fs ++ post)
    → map (show_cut buf) (cuts used b fs) ≡ map (show_located b) fs
show_cuts buf used b post [] e = refl
show_cuts buf used b post (f ∷ fs) e =
    ap₂ (λ (t : Value) (u : List Value). t ∷ u)
      (rw whole (show_cut-cut_at used b (all_bytes b fs ++ post) f))
      (show_cuts buf (used ++ bytes_of b f) b post fs
        (whole ∙ sym (append_assoc used (bytes_of b f) (all_bytes b fs ++ post))))
  where
    whole : buf ≡ used ++ (bytes_of b f ++ (all_bytes b fs ++ post))
    whole = e ∙ ap (λ (t : Bytes). used ++ t) (append_assoc (bytes_of b f) (all_bytes b fs) post)

loc_fields-ne-panic : (k : ℕ) (b : Bytes) (pos : ℕ) → loc_fields k b pos ≢ panic
unfolding loc_fields
loc_fields-ne-panic zero b pos = λ e. cc
loc_fields-ne-panic (suc k) b pos = elim (Result-cases (loc_var_field b pos)) [
  | inl (q, found) ↦ rw found (>>=-ne-panic (loc_fields k b q.1) _ (loc_fields-ne-panic k b q.1))
  | inr (inl (e, found)) ↦ rw found (λ p. cc)
  | inr (inr found) ↦ absurd (loc_var_field-ne-panic b pos found)
]

-- The variables read one field after another.
unfoldable pub direct_variables : ℕ → Bytes → Result (List ScidVariable)
direct_variables n b = read_fields (double n) b 5 >>= λ vs. ok (pair_up vs)

unfoldable pub direct_scid_variables_typed : Bytes → Result (List ScidVariable)
unfolding direct_variables
direct_scid_variables_typed b =
    if ltb (length b) 5 || not (get_or b 0 0 == tag_scid_variables_v1)
    then err invalid_scid_variables
    else let n = be_uint (slice b 1 5) in
      if ltb (length b - 5) (n * 4) then err invalid_scid_variables else direct_variables n b

read-direct_variables : (n : ℕ) (b : Bytes) → read_variables n b ≡ direct_variables n b
unfolding read_variables direct_variables
read-direct_variables n b = elim (Result-cases (loc_fields (double n) b 5)) [
  | inl (fs, found) ↦
      rw (fields_total-loc (double n) b 5, read_fields-loc (double n) b 5, found)
        (rw
          (
            ← add-zero (total_of fs),
            cut_fields-filled (double n) b 5 0 [] fs found
                (loc_fields-Fits (double n) b 5 fs found),
          )
          (ap (λ (t : List Value). ok (pair_up t)) (show_cuts _ [] b [] fs refl)))
  | inr (inl (e, found)) ↦
      rw (fields_total-loc (double n) b 5, read_fields-loc (double n) b 5, found) refl
  | inr (inr found) ↦ absurd (loc_fields-ne-panic (double n) b 5 found)
]

-- On every input the decoder of variable slices with its two passes and one shared string buffer
-- returns what a decoder that reads field after field by itself, as readVarField does, returns.
pub unmarshal-direct_scid_variables_typed :
    (b : Bytes) → unmarshal_scid_variables_typed b ≡ direct_scid_variables_typed b
unfolding unmarshal_scid_variables_typed direct_scid_variables_typed
unmarshal-direct_scid_variables_typed b = rw (read-direct_variables (be_uint (slice b 1 5)) b) refl

direct_variables-ne-panic : (n : ℕ) (b : Bytes) → direct_variables n b ≢ panic
unfolding direct_variables
direct_variables-ne-panic n b = elim (Result-cases (loc_fields (double n) b 5)) [
  | inl (fs, found) ↦ rw (read_fields-loc (double n) b 5, found) (λ e. cc)
  | inr (inl (x, found)) ↦ rw (read_fields-loc (double n) b 5, found) (λ e. cc)
  | inr (inr found) ↦ absurd (loc_fields-ne-panic (double n) b 5 found)
]

-- The decoder of variable slices panics on no input.
pub unmarshal_scid_variables_typed-ne-panic : (b : Bytes) → unmarshal_scid_variables_typed b ≢ panic
unfolding unmarshal_scid_variables_typed
unmarshal_scid_variables_typed-ne-panic b =
    rw (read-direct_variables (be_uint (slice b 1 5)) b)
      (ground (arith, direct_variables-ne-panic (be_uint (slice b 1 5)) b))
