-- ===== src/Codec/Arena/Laws.antt =====
-- Cutting the ranges out of an arena of their total width gives the bytes of each range.
use hyper_gnomon.Base.{
  ℕ, zero, suc, ◌+◌, ◌-◌, ◌≤◌, ◌≡◌, refl, sym, ap, ap₂, ◌∙◌, arith, inl, inr, ◌≢◌, ◌⊎◌,
}
use hyper_gnomon.Base.{List, [], ◌∷◌, ◌++◌, map, append-nil, append_assoc, true}
use hyper_gnomon.Base.{length, length-append, leb, le→leb, replicate, length-replicate}
use hyper_gnomon.Base.{copy_at, slice, slice_middle, drop, length-take, length-drop, All}
use native.Mathlib.Nat.{zero-add, add-zero}
use hyper_gnomon.Codec.{
  IsU64, Bytes, Result, ok, err, panic, ◌>>=◌, >>=-eq-ok, Result-cases, >>=-ne-panic, Error,
}
use hyper_gnomon.Codec.LenString.{loc_len_string, read_len_string}
use hyper_gnomon.Codec.LenString.Laws.{
  loc_len_string-ne-panic, len_string, read_len_string_found, loc_len_string_within,
  read-loc_len_string, cut_range,
}
use hyper_gnomon.Codec.Arena.{Arena, View, Range, make_arena, owned_cut, view_string}
use hyper_gnomon.Codec.Arena.{loc_ranges, total_width, cut_all, coalesce, cut_strings}

-- A range inside a slice.
abbrev pub IsWithin : Bytes → Range → Type 0
IsWithin b (st, en) = (st ≤ en) × (en ≤ length b)

abbrev pub cut : Bytes → Range → Bytes
cut b (st, en) = slice b st en

pub length-slice :
    (b : Bytes) (st en : ℕ) → st ≤ en → en ≤ length b → length (slice b st en) ≡ en - st
length-slice b st en h k = length-take (en - st) (drop st b) (omega (arith, length-drop st b))

-- An arena that holds `used` and has room for `r` bytes.
abbrev pub filled : Bytes → ℕ → Arena
filled used r = record { sbuf = used ++ replicate r 0; off = length used }

abbrev pub view_at : Bytes → Bytes → View
view_at used [] = (0, 0)
view_at used (x ∷ s) = (length used, suc (length s))

copy_at-fresh : (s : Bytes) (r : ℕ) → copy_at 0 s (replicate (length s + r) 0) ≡ s ++ replicate r 0
copy_at-fresh [] r = rw zero-add (copy_at_nothing (replicate r 0))
  where
    copy_at_nothing : (xs : Bytes) → copy_at 0 [] xs ≡ xs
    copy_at_nothing [] = refl
    copy_at_nothing (x ∷ xs) = refl
copy_at-fresh (x ∷ s) r =
    let longer : suc (length s) + r ≡ suc (length s + r) = omega arith in
    rw longer (ap (λ (t : Bytes). x ∷ t) (copy_at-fresh s r))

copy_at-filled :
    (used s : Bytes) (r : ℕ)
    → copy_at (length used) s (used ++ replicate (length s + r) 0) ≡ (used ++ s) ++ replicate r 0
copy_at-filled [] s r = copy_at-fresh s r
copy_at-filled (u ∷ used) s r = ap (λ (t : Bytes). u ∷ t) (copy_at-filled used s r)

pub owned_cut-filled :
    (used b s : Bytes) (r st en : ℕ)
    → slice b st en ≡ s
    → en - st ≡ length s
    → owned_cut (filled used (length s + r)) b st en ≡ ok (view_at used s, filled (used ++ s) r)
unfolding owned_cut
owned_cut-filled used b [] r st en e w = rw (w, zero-add, append-nil) refl
owned_cut-filled used b (x ∷ s) r st en e w =
    rw (e, w, room, copy_at-filled used (x ∷ s) r, ← length-append used (x ∷ s)) (ground arith)
  where
    room :
        leb (length used + length (x ∷ s)) (length (used ++ replicate (length (x ∷ s) + r) 0))
        ≡ true
    room = le→leb _ _ (
        omega (
          arith,
          length-append used (replicate (length (x ∷ s) + r) 0),
          length-replicate {A = ℕ} (length (x ∷ s) + r) 0,
        ))

pub view_string-view_at :
    (used s post : Bytes) → view_string (used ++ (s ++ post)) (view_at used s) ≡ s
view_string-view_at used [] post = refl
view_string-view_at used (x ∷ s) post = slice_middle used (x ∷ s) post

abbrev pub views : Bytes → List Bytes → List View
views used [] = []
views used (s ∷ ss) = view_at used s ∷ views (used ++ s) ss

abbrev pub concat : List Bytes → Bytes
concat [] = []
concat (s ∷ ss) = s ++ concat ss

pub cut_all-filled :
    (used b : Bytes) (rs : List Range) (r : ℕ)
    → All (IsWithin b) rs
    → cut_all (filled used (total_width rs + r)) b rs
      ≡ ok (views used (map (cut b) rs), filled (used ++ concat (map (cut b) rs)) r)
unfolding cut_all total_width
cut_all-filled used b [] r h = rw (zero-add, append-nil) refl
cut_all-filled used b ((st, en) ∷ rs) r h =
    rw
      (
        split,
        owned_cut-filled used b s (total_width rs + r) st en refl (sym width),
        cut_all-filled (used ++ s) b rs r h.1,
        append_assoc used s (concat (map (cut b) rs)),
      )
      refl
  where
    s : Bytes
    s = slice b st en

    width : length s ≡ en - st
    width = length-slice b st en h.0.0 h.0.1

    split : (en - st) + total_width rs + r ≡ length s + (total_width rs + r)
    split = omega (arith, width)

pub read_views :
    (buf used post : Bytes) (ss : List Bytes)
    → buf ≡ used ++ (concat ss ++ post)
    → map (view_string buf) (views used ss) ≡ ss
read_views buf used post [] e = refl
read_views buf used post (s ∷ ss) e =
    ap₂ (λ (t : Bytes) (u : List Bytes). t ∷ u)
      (rw whole (view_string-view_at used s (concat ss ++ post)))
      (read_views buf (used ++ s) post ss (whole ∙ sym (append_assoc used s (concat ss ++ post))))
  where
    whole : buf ≡ used ++ (s ++ (concat ss ++ post))
    whole = e ∙ ap (λ (t : Bytes). used ++ t) (append_assoc s (concat ss) post)

-- Every range is copied whole, and none over another.
pub cut_all_lem :
    (b : Bytes) (rs : List Range)
    → All (IsWithin b) rs
    → (vs : List View) × (a : Arena) × (cut_all (make_arena (total_width rs)) b rs ≡ ok (vs, a))
      × (map (view_string a.sbuf) vs ≡ map (cut b) rs)
cut_all_lem b rs h = (
  views [] (map (cut b) rs),
  filled (concat (map (cut b) rs)) 0,
  rw (← add-zero (total_width rs)) (cut_all-filled [] b rs 0 h),
  read_views _ [] [] (map (cut b) rs) refl,
)

pub coalesce_lem :
    (b : Bytes) (rs : List Range) → All (IsWithin b) rs → coalesce b rs ≡ ok (map (cut b) rs)
unfolding coalesce
coalesce_lem b rs h = let (vs, a, cuts, reads) = cut_all_lem b rs h in rw cuts (ap ok reads)

-- The strings of `k` fields read one by one, each into a copy of its own.
unfoldable pub read_strings : ℕ → Bytes → ℕ → Result (List Bytes × ℕ)
read_strings zero b pos = ok ([], pos)
read_strings (suc k) b pos = do
  (s, next) ← read_len_string b pos
  (ss, end) ← read_strings k b next
  ok (s ∷ ss, end)

abbrev copy_ranges : Bytes → Result (List Range × ℕ) → Result (List Bytes × ℕ)
copy_ranges b r = r >>= λ q. ok (map (cut b) q.0, q.1)

pub read-loc_ranges :
    (k : ℕ) (b : Bytes) (pos : ℕ) → read_strings k b pos ≡ copy_ranges b (loc_ranges k b pos)
unfolding read_strings loc_ranges
read-loc_ranges zero b pos = refl
read-loc_ranges (suc k) b pos =
    rw (read-loc_len_string b pos) (go (λ next. read-loc_ranges k b next) (loc_len_string b pos))
  where
    inner :
        (rest : Result (List Range × ℕ)) (st en : ℕ)
        → (copy_ranges b rest >>= λ q. ok (slice b st en ∷ q.0, q.1))
          ≡ copy_ranges b (rest >>= λ q. ok ((st, en) ∷ q.0, q.1))
    inner (ok q) st en = refl
    inner (err e) st en = refl
    inner panic st en = refl

    go :
        ((next : ℕ) → read_strings k b next ≡ copy_ranges b (loc_ranges k b next))
        → (r : Result (ℕ × ℕ × ℕ))
        → (cut_range b r >>= λ q. (read_strings k b q.1 >>= λ t. ok (q.0 ∷ t.0, t.1)))
          ≡ copy_ranges b (r >>= λ q. (loc_ranges k b q.2 >>= λ t. ok ((q.0, q.1) ∷ t.0, t.1)))
    go ih (ok (st, en, next)) = rw (ih next) (inner (loc_ranges k b next) st en)
    go ih (err e) = refl
    go ih panic = refl

pub loc_ranges-IsWithin :
    (k : ℕ) (b : Bytes) (pos : ℕ) (rs : List Range) (end : ℕ)
    → pos ≤ length b
    → loc_ranges k b pos ≡ ok (rs, end)
    → All (IsWithin b) rs × (end ≤ length b) × (pos ≤ end) × (length rs ≡ k)
unfolding loc_ranges
loc_ranges-IsWithin zero b pos rs end h e = ground arith
loc_ranges-IsWithin (suc k) b pos rs end h e =
    let (first, found, e') = >>=-eq-ok (loc_len_string b pos) _ e in
    let (others, found', e'') = >>=-eq-ok (loc_ranges k b first.2) _ e' in
    ground (
      arith,
      e'',
      loc_len_string_within b pos first.0 first.1 first.2 found,
      loc_ranges-IsWithin k b first.2 others.0 others.1
          (ground (arith, loc_len_string_within b pos first.0 first.1 first.2 found)) found',
    )

-- The fields of `read_strings` are found one behind the other.
abbrev pub len_strings : List Bytes → Bytes
len_strings [] = []
len_strings (s ∷ ss) = len_string s ++ len_strings ss

pub read_strings_found :
    (ss : List Bytes) (pos : ℕ) {b : Bytes} (pre post : Bytes)
    → b ≡ pre ++ (len_strings ss ++ post)
    → pos ≡ length pre
    → All (λ s. IsU64 (length s)) ss
    → read_strings (length ss) b pos ≡ ok (ss, pos + length (len_strings ss))
unfolding read_strings
read_strings_found [] pos pre post e at h = ap (λ (t : ℕ). ok ([], t)) (omega arith)
read_strings_found (s ∷ ss) pos {b} pre post e at h =
    rw
      (
        read_len_string_found s pos pre (len_strings ss ++ post) whole at h.0,
        read_strings_found ss (pos + length (len_string s)) (pre ++ len_string s) post
            (whole ∙ sym (append_assoc pre (len_string s) (len_strings ss ++ post)))
            (omega (arith, at, length-append pre (len_string s))) h.1,
      )
      (ap (λ (t : ℕ). ok (s ∷ ss, t))
        (omega (arith, length-append (len_string s) (len_strings ss))))
  where
    whole : b ≡ pre ++ (len_string s ++ (len_strings ss ++ post))
    whole = e ∙ ap (λ (t : Bytes). pre ++ t) (append_assoc (len_string s) (len_strings ss) post)

pub loc_ranges-ne-panic : (k : ℕ) (b : Bytes) (pos : ℕ) → loc_ranges k b pos ≢ panic
unfolding loc_ranges
loc_ranges-ne-panic zero b pos = λ e. cc
loc_ranges-ne-panic (suc k) b pos = elim (Result-cases (loc_len_string b pos)) [
  | inl (q, found) ↦ rw found (>>=-ne-panic (loc_ranges k b q.2) _ (loc_ranges-ne-panic k b q.2))
  | inr (inl (e, found)) ↦ rw found (λ p. cc)
  | inr (inr found) ↦ absurd (loc_len_string-ne-panic b pos found)
]

-- Finding the ranges and cutting them gives what reading the strings one by one gives.
abbrev pub Coalesces : ℕ → Bytes → ℕ → Type 0
Coalesces k b pos =
    ((rs : List Range) × (ss : List Bytes) × (end : ℕ) × (loc_ranges k b pos ≡ ok (rs, end))
      × (read_strings k b pos ≡ ok (ss, end))
      × (coalesce b rs ≡ ok ss)
      × (end ≤ length b))
    ⊎ ((e : Error) × (loc_ranges k b pos ≡ err e) × (read_strings k b pos ≡ err e))

pub loc_ranges-Coalesces : (k : ℕ) (b : Bytes) (pos : ℕ) → pos ≤ length b → Coalesces k b pos
loc_ranges-Coalesces k b pos h = elim (Result-cases (loc_ranges k b pos)) [
  | inl ((rs, end), found) ↦
      let (within, fits, _, _) = loc_ranges-IsWithin k b pos rs end h found in
      inl (
        rs,
        map (cut b) rs,
        end,
        found,
        rw (read-loc_ranges k b pos, found),
        coalesce_lem b rs within,
        fits,
      )
  | inr (inl (e, found)) ↦ inr (e, found, rw (read-loc_ranges k b pos, found))
  | inr (inr found) ↦ absurd (loc_ranges-ne-panic k b pos found)
]

abbrev end_at : ℕ → List View × Arena → List View × ℕ × Arena
end_at end (vs, a) = (vs, end, a)

abbrev add_view : View → List View × Arena → List View × Arena
add_view v (vs, a) = (v ∷ vs, a)

abbrev add_cut : View → List View × ℕ × Arena → List View × ℕ × Arena
add_cut v (vs, end, a) = (v ∷ vs, end, a)

-- One round before the others, on either side of the equation below.
cut_first :
    (k : ℕ) (b : Bytes) (next end : ℕ) (rs : List Range) (m : Result (View × Arena))
    → ((a : Arena) → cut_strings k b next a ≡ (cut_all a b rs >>= λ q. ok (end_at end q)))
    → (m >>= λ x. (cut_strings k b next x.1 >>= λ y. ok (add_cut x.0 y)))
      ≡ ((m >>= λ x. (cut_all x.1 b rs >>= λ y. ok (add_view x.0 y))) >>= λ q. ok (end_at end q))
cut_first k b next end rs (ok (v, a)) ih = rw (ih a) (inner (cut_all a b rs))
  where
    inner :
        (c : Result (List View × Arena))
        → ((c >>= λ q. ok (end_at end q)) >>= λ y. ok (add_cut v y))
          ≡ ((c >>= λ y. ok (add_view v y)) >>= λ q. ok (end_at end q))
    inner (ok c) = refl
    inner (err e) = refl
    inner panic = refl
cut_first k b next end rs (err e) ih = refl
cut_first k b next end rs panic ih = refl

cut_strings_step :
    (k : ℕ) (b : Bytes) (pos st en next end : ℕ) (a : Arena) (rs : List Range)
    → loc_len_string b pos ≡ ok (st, en, next)
    → ((a' : Arena) → cut_strings k b next a' ≡ (cut_all a' b rs >>= λ q. ok (end_at end q)))
    → cut_strings (suc k) b pos a ≡ (cut_all a b ((st, en) ∷ rs) >>= λ q. ok (end_at end q))
unfolding cut_strings cut_all
cut_strings_step k b pos st en next end a rs found ih =
    rw found (cut_first k b next end rs (owned_cut a b st en) ih)

cut_strings-ranges :
    (k : ℕ) (b : Bytes) (pos : ℕ) (a : Arena) (rs : List Range) (end : ℕ)
    → loc_ranges k b pos ≡ ok (rs, end)
    → cut_strings k b pos a ≡ (cut_all a b rs >>= λ q. ok (end_at end q))
unfolding loc_ranges
cut_strings-ranges zero b pos a rs end e =
    let none_left : rs ≡ [] = ground (arith, e) in
    let here : end ≡ pos = ground (arith, e) in
    rw (none_left, here) (unfold cut_strings cut_all in refl)
cut_strings-ranges (suc k) b pos a rs end e =
    let (first, found, e') = >>=-eq-ok (loc_len_string b pos) _ e in
    let (others, found', e'') = >>=-eq-ok (loc_ranges k b first.2) _ e' in
    let split : rs ≡ (first.0, first.1) ∷ others.0 = ground (arith, e'') in
    let reached : end ≡ others.1 = ground (arith, e'') in
    rw (split, reached)
      (cut_strings_step k b pos first.0 first.1 first.2 others.1 a others.0 found
        (λ a'. cut_strings-ranges k b first.2 a' others.0 others.1 found'))

-- Rounds of finding and cutting, in an arena with room for them.
pub cut_strings-filled :
    (k : ℕ) (b : Bytes) (pos r end : ℕ) (used : Bytes) (rs : List Range)
    → All (IsWithin b) rs
    → loc_ranges k b pos ≡ ok (rs, end)
    → cut_strings k b pos (filled used (total_width rs + r))
      ≡ ok (views used (map (cut b) rs), end, filled (used ++ concat (map (cut b) rs)) r)
cut_strings-filled k b pos r end used rs h e =
    rw
      (
        cut_strings-ranges k b pos (filled used (total_width rs + r)) rs end e,
        cut_all-filled used b rs r h,
      )
      refl
