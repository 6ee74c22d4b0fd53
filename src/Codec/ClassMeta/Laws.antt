-- ===== src/Codec/ClassMeta/Laws.antt =====
-- ClassMeta's two passes agree with a decoder that copies string by string.
use hyper_gnomon.Base.{ℕ, ◌+◌, ◌-◌, ◌≤◌, ◌≡◌, refl, sym, ap, ◌∙◌, arith, inl, inr}
use hyper_gnomon.Base.{List, [], ◌++◌, map, some, none, append_assoc, length, All, Bool, not, ◌||◌}
use hyper_gnomon.Base.{
  slice, drop, length-drop, get_or, ltb, ◌==◌, not-ltb→le, true, false, if◌then◌else◌, Bool-cases,
  Option-cases,
}
use native.Mathlib.Nat.{add-zero}
use hyper_gnomon.Codec.{
  Error, Bytes, ok, err, panic, ◌>>=◌, Result, Result-cases, Decoded, returns, panics,
  invalid_class_meta,
}
use hyper_gnomon.Codec.Words.{be_uint, int64_from_bits}
use hyper_gnomon.Codec.Varint.{uvarint}
use hyper_gnomon.Codec.Varint.Laws.{uvarint_takes}
use hyper_gnomon.Codec.Arena.{Range, make_arena, loc_ranges, total_width, cut_strings}
use hyper_gnomon.Codec.Arena.Laws.{
  read_strings, read-loc_ranges, loc_ranges-IsWithin, loc_ranges-ne-panic,
}
use hyper_gnomon.Codec.Arena.Laws.{
  IsWithin, cut, filled, views, concat, read_views, cut_strings-filled,
}
use hyper_gnomon.Codec.ClassMeta.{
  ClassMeta, class_meta_media_fields, media_tail, pass_one, pass_two,
}
use hyper_gnomon.Codec.ClassMeta.{with_strings, read_strings_of, read_tag_count, unmarshal_typed}
use hyper_gnomon.Codec.ClassMeta.{tag_class_meta_v1, class_meta_min_header_size}

regroup : (a b c : ℕ) → a + b + c ≡ a + (b + (c + 0))
regroup a b c = omega arith

-- The media strings: all five, or none where the tail is not there or is malformed.
unfoldable pub direct_media : Bytes → ℕ → List Bytes
direct_media b p =
    if ltb p (length b)
    then elim (read_strings class_meta_media_fields b p) [
      | ok (ss, q) ↦ ss
      | err e ↦ []
      | panic ↦ []
    ]
    else []

-- The strings read one by one.
unfoldable pub direct_strings : ℕ → Bytes → ℕ → Result (List Bytes × List Bytes × List Bytes)
direct_strings tag_count b pos = do
  (tags, p) ← read_strings tag_count b pos
  (fields, p') ← read_strings 6 b p
  ok (tags, fields, direct_media b p')

abbrev with_result : ClassMeta → Result (List Bytes × List Bytes × List Bytes) → Decoded ClassMeta
with_result m r = elim r [
  | ok (tags, fields, media) ↦ returns (with_strings m tags fields media) none
  | err e ↦ returns m (some e)
  | panic ↦ panics
]

unfoldable pub direct_tag_count : ClassMeta → Bytes → Decoded ClassMeta
direct_tag_count m b = elim (uvarint (drop 17 b)) [
  | none ↦ returns m (some invalid_class_meta)
  | some (tag_count, n_len) ↦
      if ltb (length b - (17 + n_len)) tag_count
      then returns m (some invalid_class_meta)
      else with_result m (direct_strings tag_count b (17 + n_len))
]

unfoldable pub direct_typed : ClassMeta → Bytes → Decoded ClassMeta
unfolding direct_tag_count
direct_typed m b =
    if ltb (length b) class_meta_min_header_size || not (get_or b 0 0 == tag_class_meta_v1)
    then returns m (some invalid_class_meta)
    else direct_tag_count
        (record m {
          install_height = int64_from_bits (be_uint (slice b 1 9));
          last_height = int64_from_bits (be_uint (slice b 9 17));
        })
        b

-- What the first pass makes of the tail fits what the direct decoder makes of it.
abbrev TailFits : Bytes → ℕ → ℕ × Bool → Type 0
TailFits b p (extra, media_ok) =
    (rs : List Range) × (end : ℕ) × (loc_ranges (if media_ok then class_meta_media_fields else 0) b
        p
      ≡ ok (rs, end))
    × All (IsWithin b) rs
    × (total_width rs ≡ extra)
    × (direct_media b p ≡ map (cut b) rs)

media_tail-fits :
    (b : Bytes) (p total : ℕ)
    → p ≤ length b
    → (extra : ℕ) × (media_ok : Bool) × (media_tail b p total ≡ (total + extra, media_ok))
      × TailFits b p (extra, media_ok)
unfolding media_tail direct_media
media_tail-fits b p total h = elim (Bool-cases (ltb p (length b))) [
  | inr short ↦ (
    0,
    false,
    rw short (ap (λ (t : ℕ). (t, false)) (sym (add-zero total))),
    ([], p, no_ranges b p, tt, no_width, rw short refl),
  )
  | inl more ↦ elim (Result-cases (loc_ranges 5 b p)) [
    | inl ((rs, end), found) ↦ (
      total_width rs,
      true,
      rw (more, found) refl,
      (
        rs,
        end,
        found,
        (loc_ranges-IsWithin 5 b p rs end h found).0,
        refl,
        rw (more, read-loc_ranges 5 b p, found) refl,
      ),
    )
    | inr (inl (e, found)) ↦ (
      0,
      false,
      rw (more, found) (ap (λ (t : ℕ). (t, false)) (sym (add-zero total))),
      ([], p, no_ranges b p, tt, no_width, rw (more, read-loc_ranges 5 b p, found) refl),
    )
    | inr (inr found) ↦ absurd (loc_ranges-ne-panic 5 b p found)
  ]
]
  where
    no_ranges : (b : Bytes) (p : ℕ) → loc_ranges 0 b p ≡ ok ([], p)
    no_ranges b p = unfold loc_ranges in refl

    no_width : total_width [] ≡ 0
    no_width = unfold total_width in refl

-- The three lots of strings, cut out of one arena of their total width.
module _ (k : ℕ) (b : Bytes) (p₁ p₂ p₃ end : ℕ) (media_ok : Bool) (r₁ r₂ r₃ : List Range)
    (h₁ : All (IsWithin b) r₁) (h₂ : All (IsWithin b) r₂) (h₃ : All (IsWithin b) r₃)
    (e₁ : loc_ranges k b p₁ ≡ ok (r₁, p₂)) (e₂ : loc_ranges 6 b p₂ ≡ ok (r₂, p₃))
    (e₃ : loc_ranges (if media_ok then class_meta_media_fields else 0) b p₃ ≡ ok (r₃, end)) where
  abbrev s₁ : List Bytes
  s₁ = map (cut b) r₁

  abbrev s₂ : List Bytes
  s₂ = map (cut b) r₂

  abbrev s₃ : List Bytes
  s₃ = map (cut b) r₃

  abbrev u₂ : Bytes
  u₂ = concat s₁ ++ concat s₂

  first_cuts :
      cut_strings k b p₁ (make_arena (total_width r₁ + total_width r₂ + total_width r₃))
      ≡ ok (views [] s₁, p₂, filled (concat s₁) (total_width r₂ + (total_width r₃ + 0)))
  first_cuts =
      rw (regroup (total_width r₁) (total_width r₂) (total_width r₃))
        (cut_strings-filled k b p₁ (total_width r₂ + (total_width r₃ + 0)) p₂ [] r₁ h₁ e₁)

  third_part : (u₂ ++ concat s₃) ++ [] ≡ u₂ ++ (concat s₃ ++ [])
  third_part = append_assoc u₂ (concat s₃) []

  second_part : (u₂ ++ concat s₃) ++ [] ≡ concat s₁ ++ (concat s₂ ++ (concat s₃ ++ []))
  second_part = third_part ∙ append_assoc (concat s₁) (concat s₂) (concat s₃ ++ [])

  pub pass_two-cuts :
      pass_two k b p₁ (total_width r₁ + total_width r₂ + total_width r₃) media_ok ≡ ok (s₁, s₂, s₃)
  unfolding pass_two
  pass_two-cuts =
      rw (first_cuts, cut_strings-filled 6 b p₂ (total_width r₃ + 0) p₃ (concat s₁) r₂ h₂ e₂)
        (rw (cut_strings-filled _ b p₃ 0 end u₂ r₃ h₃ e₃) (λ i. ok (
          read_views _ [] (concat s₂ ++ (concat s₃ ++ [])) s₁ second_part i,
          read_views _ (concat s₁) (concat s₃ ++ []) s₂ second_part i,
          read_views _ u₂ [] s₃ third_part i,
        )))

-- Both passes, as the decoder runs them.
abbrev passes : ℕ → Bytes → ℕ → Result (List Bytes × List Bytes × List Bytes)
passes k b pos = pass_one k b pos >>= λ t. pass_two k b pos t.0 t.1

module _ (k : ℕ) (b : Bytes) (pos : ℕ) (h : pos ≤ length b) where
  tags_refused : (e : Error) → loc_ranges k b pos ≡ err e → passes k b pos ≡ direct_strings k b pos
  unfolding pass_one direct_strings
  tags_refused e found = rw (read-loc_ranges k b pos, found) refl

  fields_refused :
      (rs : List Range) (p : ℕ) (e : Error)
      → loc_ranges k b pos ≡ ok (rs, p)
      → loc_ranges 6 b p ≡ err e
      → passes k b pos ≡ direct_strings k b pos
  unfolding pass_one direct_strings
  fields_refused rs p e found refused =
      rw (read-loc_ranges k b pos, found) (rw (read-loc_ranges 6 b p, refused) refl)

  tail_found :
      (r₁ r₂ : List Range) (p₂ p₃ extra : ℕ) (media_ok : Bool)
      → All (IsWithin b) r₁ × All (IsWithin b) r₂
      → loc_ranges k b pos ≡ ok (r₁, p₂)
      → loc_ranges 6 b p₂ ≡ ok (r₂, p₃)
      → media_tail b p₃ (total_width r₁ + total_width r₂)
        ≡ (total_width r₁ + total_width r₂ + extra, media_ok)
      → TailFits b p₃ (extra, media_ok)
      → passes k b pos ≡ direct_strings k b pos
  unfolding pass_one direct_strings
  tail_found r₁ r₂ p₂ p₃ extra media_ok w found found' tail (r₃, end, e₃, w₃, width, media) =
      rw (read-loc_ranges k b pos, found)
        (rw (read-loc_ranges 6 b p₂, found')
          (rw (tail, ← width)
            (rw
              (pass_two-cuts k b pos p₂ p₃ end media_ok r₁ r₂ r₃ w.0 w.1 w₃ found found' e₃, media)
              refl)))

  all_found :
      (r₁ r₂ : List Range) (p₂ p₃ : ℕ)
      → loc_ranges k b pos ≡ ok (r₁, p₂)
      → loc_ranges 6 b p₂ ≡ ok (r₂, p₃)
      → passes k b pos ≡ direct_strings k b pos
  all_found r₁ r₂ p₂ p₃ found found' =
      let (w₁, f₁, _, _) = loc_ranges-IsWithin k b pos r₁ p₂ h found in
      let (w₂, f₂, _, _) = loc_ranges-IsWithin 6 b p₂ r₂ p₃ f₁ found' in
      let (extra, media_ok, tail, fit) =
        media_tail-fits b p₃ (total_width r₁ + total_width r₂) f₂ in
      tail_found r₁ r₂ p₂ p₃ extra media_ok (w₁, w₂) found found' tail fit

  passes-direct : passes k b pos ≡ direct_strings k b pos
  passes-direct = elim (Result-cases (loc_ranges k b pos)) [
    | inl ((rs, p), found) ↦ elim (Result-cases (loc_ranges 6 b p)) [
      | inl ((rs', p'), found') ↦ all_found rs rs' p p' found found'
      | inr (inl (e, refused)) ↦ fields_refused rs p e found refused
      | inr (inr stuck) ↦ absurd (loc_ranges-ne-panic 6 b p stuck)
    ]
    | inr (inl (e, found)) ↦ tags_refused e found
    | inr (inr found) ↦ absurd (loc_ranges-ne-panic k b pos found)
  ]

read-direct_tag_count :
    (m : ClassMeta) (b : Bytes) → 17 ≤ length b → read_tag_count m b ≡ direct_tag_count m b
unfolding read_tag_count direct_tag_count read_strings_of
read-direct_tag_count m b h = elim (Option-cases (uvarint (drop 17 b))) [
  | inl cut_off ↦ rw (cut_off, read_tag_count, direct_tag_count) refl
  | inr ((n, len), found) ↦
      let within : 17 + len ≤ length b =
        omega (arith, uvarint_takes (drop 17 b) n len found, length-drop 17 b) in
      rw (found, read_tag_count, direct_tag_count)
        (rw (passes-direct n b (17 + len) within, read_strings_of) refl)
]

-- On every input and receiver the ClassMeta decoder with its two passes and one shared string
-- buffer returns the same record and error as a decoder that reads each string by itself in a
-- single pass; so it does not panic, and no string shows bytes of another.
pub unmarshal-direct_class_meta :
    (m : ClassMeta) (b : Bytes) → unmarshal_typed m b ≡ direct_typed m b
unfolding unmarshal_typed direct_typed
unmarshal-direct_class_meta m b = elim (Bool-cases (ltb (length b) 17)) [
  | inl short ↦ rw short refl
  | inr long ↦ elim (Bool-cases (get_or b 0 0 == tag_class_meta_v1)) [
    | inl tagged ↦ rw (long, tagged) (read-direct_tag_count _ b (not-ltb→le _ _ long))
    | inr other ↦ rw (long, other) refl
  ]
]
