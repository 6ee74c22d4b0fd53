-- ===== src/Codec/Variables/Laws.antt =====
-- The decoder of SCIDVariable slices: its two passes over one buffer against readVarField.
use hyper_gnomon.Base.{ℕ, zero, suc, ◌+◌, ◌≤◌, ◌≡◌, refl, ◌≢◌, arith, inl, inr}
use hyper_gnomon.Base.{List, [], ◌∷◌, map, some, length, All}
use hyper_gnomon.Base.{
  slice, drop, length-drop, get_or, leb, ◌==◌, Bool-cases, Option-cases, leb-false→lt,
}
use hyper_gnomon.Codec.{Bytes, ok, err, panic, ◌>>=◌, Result, >>=-eq-ok}
use hyper_gnomon.Codec.Varint.{uvarint}
use hyper_gnomon.Codec.Varint.Laws.{uvarint_takes}
use hyper_gnomon.Codec.Arena.Laws.{}
use hyper_gnomon.Codec.Variables.{Value, string, uint64, Located, at_range}
use hyper_gnomon.Codec.Variables.{
  read_string_body, read_kind, read_var_field, loc_string_body, loc_kind, loc_var_field,
}
use hyper_gnomon.Codec.Variables.{located_width, fields_total}
use hyper_gnomon.Codec.Variables.{var_kind_string}

-- The value of a field that was found.
abbrev pub show_located : Bytes → Located → Value
show_located b (at_range st en) = string (slice b st en)
show_located b (Located.number u) = uint64 u

abbrev pub show_result : Bytes → Result (Located × ℕ) → Result (Value × ℕ)
show_result b r = r >>= λ q. ok (show_located b q.0, q.1)

abbrev pub Fits : Bytes → Located → Type 0
Fits b (at_range st en) = (st ≤ en) × (en ≤ length b)
Fits b (Located.number u) = Unit {0}

read-loc_string_body :
    (b : Bytes) (n pos : ℕ)
    → pos ≤ length b
    → read_string_body b n pos ≡ show_result b (loc_string_body b n pos)
unfolding read_string_body loc_string_body
read-loc_string_body b n pos h = ground arith

-- A length that is read ends inside the slice.
length_inside :
    (b : Bytes) (n k pos : ℕ)
    → pos ≤ length b
    → uvarint (drop pos b) ≡ some (n, k)
    → pos + k ≤ length b
length_inside b n k pos h e = omega (arith, uvarint_takes (drop pos b) n k e, length-drop pos b)

read-loc_kind :
    (b : Bytes) (kind pos : ℕ)
    → pos ≤ length b
    → read_kind b kind pos ≡ show_result b (loc_kind b kind pos)
unfolding read_kind loc_kind
read-loc_kind b kind pos h = elim (Bool-cases (kind == var_kind_string)) [
  | inl text ↦ elim (Option-cases (uvarint (drop pos b))) [
    | inl gone ↦ rw (text, gone) refl
    | inr ((n, k), found) ↦
        rw (text, found) (read-loc_string_body b n (pos + k) (length_inside b n k pos h found))
  ]
  | inr other ↦ rw other (ground arith)
]

-- The locating parser and the copying one stay in lockstep, errors included.
pub read-loc_var_field :
    (b : Bytes) (pos : ℕ) → read_var_field b pos ≡ show_result b (loc_var_field b pos)
unfolding read_var_field loc_var_field
read-loc_var_field b pos = elim (Bool-cases (leb (length b) pos)) [
  | inl out ↦ rw out refl
  | inr inside ↦
      rw inside
        (read-loc_kind b (get_or b pos 0) (pos + 1) (omega (arith, leb-false→lt _ _ inside)))
]

loc_kind-Fits :
    (b : Bytes) (kind pos next : ℕ) (f : Located)
    → pos ≤ length b
    → loc_kind b kind pos ≡ ok (f, next)
    → Fits b f
unfolding loc_kind loc_string_body
loc_kind-Fits b kind pos next (Located.number u) h e = tt
loc_kind-Fits b kind pos next (at_range st en) h e = elim (Option-cases (uvarint (drop pos b))) [
  | inl gone ↦ ground (arith, gone, e)
  | inr ((n, k), found) ↦ ground (arith, found, e, length_inside b n k pos h found)
]

loc_var_field-Fits :
    (b : Bytes) (pos next : ℕ) (f : Located) → loc_var_field b pos ≡ ok (f, next) → Fits b f
unfolding loc_var_field
loc_var_field-Fits b pos next f e = elim (Bool-cases (leb (length b) pos)) [
  | inl out ↦ absurd (ground (arith, out, e))
  | inr inside ↦
      loc_kind-Fits b (get_or b pos 0) (pos + 1) next f (omega (arith, leb-false→lt _ _ inside))
        (ground (arith, inside, e))
]

pub loc_var_field-ne-panic : (b : Bytes) (pos : ℕ) → loc_var_field b pos ≢ panic
unfolding loc_var_field loc_kind loc_string_body
loc_var_field-ne-panic b pos = elim (Option-cases (uvarint (drop (pos + 1) b))) [
  | inl gone ↦ ground (arith, gone)
  | inr (q, found) ↦ ground (arith, found)
]

-- The fields found one behind the other.
unfoldable pub loc_fields : ℕ → Bytes → ℕ → Result (List Located)
loc_fields zero b pos = ok []
loc_fields (suc k) b pos = do (f, next) ← loc_var_field b pos; fs ← loc_fields k b next; ok (f ∷ fs)

-- The fields read one by one by readVarField, each string in a copy of its own.
unfoldable pub read_fields : ℕ → Bytes → ℕ → Result (List Value)
read_fields zero b pos = ok []
read_fields (suc k) b pos = do
  (v, next) ← read_var_field b pos
  vs ← read_fields k b next
  ok (v ∷ vs)

unfoldable pub total_of : List Located → ℕ
total_of [] = 0
total_of (f ∷ fs) = located_width f + total_of fs

pub loc_fields-Fits :
    (k : ℕ) (b : Bytes) (pos : ℕ) (fs : List Located) → loc_fields k b pos ≡ ok fs → All (Fits b) fs
unfolding loc_fields
loc_fields-Fits zero b pos fs e = let none_left : fs ≡ [] = ground (arith, e) in rw none_left tt
loc_fields-Fits (suc k) b pos fs e =
    let (first, found, e') = >>=-eq-ok (loc_var_field b pos) _ e in
    let (others, found', e'') = >>=-eq-ok (loc_fields k b first.1) _ e' in
    let split : fs ≡ first.0 ∷ others = ground (arith, e'') in
    rw split
      (loc_var_field-Fits b pos first.1 first.0 found, loc_fields-Fits k b first.1 others found')

pub fields_total-loc :
    (k : ℕ) (b : Bytes) (pos : ℕ)
    → fields_total k b pos ≡ (loc_fields k b pos >>= λ fs. ok (total_of fs))
unfolding fields_total loc_fields total_of
fields_total-loc zero b pos = refl
fields_total-loc (suc k) b pos = go (loc_var_field b pos) (λ next. fields_total-loc k b next)
  where
    inner :
        (f : Located) (m : Result (List Located))
        → ((m >>= λ fs. ok (total_of fs)) >>= λ total. ok (located_width f + total))
          ≡ ((m >>= λ fs. ok (f ∷ fs)) >>= λ fs. ok (total_of fs))
    inner f (ok fs) = refl
    inner f (err e) = refl
    inner f panic = refl

    go :
        (m : Result (Located × ℕ))
        → ((next : ℕ) → fields_total k b next ≡ (loc_fields k b next >>= λ fs. ok (total_of fs)))
        → (m >>= λ q. (fields_total k b q.1 >>= λ total. ok (located_width q.0 + total)))
          ≡ ((m >>= λ q. (loc_fields k b q.1 >>= λ fs. ok (q.0 ∷ fs))) >>= λ fs. ok (total_of fs))
    go (ok (f, next)) ih = rw (ih next) (inner f (loc_fields k b next))
    go (err e) ih = refl
    go panic ih = refl

pub read_fields-loc :
    (k : ℕ) (b : Bytes) (pos : ℕ)
    → read_fields k b pos ≡ (loc_fields k b pos >>= λ fs. ok (map (show_located b) fs))
unfolding read_fields loc_fields
read_fields-loc zero b pos = refl
read_fields-loc (suc k) b pos =
    rw (read-loc_var_field b pos) (go (loc_var_field b pos) (λ next. read_fields-loc k b next))
  where
    inner :
        (f : Located) (m : Result (List Located))
        → ((m >>= λ fs. ok (map (show_located b) fs)) >>= λ vs. ok (show_located b f ∷ vs))
          ≡ ((m >>= λ fs. ok (f ∷ fs)) >>= λ fs. ok (map (show_located b) fs))
    inner f (ok fs) = refl
    inner f (err e) = refl
    inner f panic = refl

    go :
        (m : Result (Located × ℕ))
        → ((next : ℕ)
            → read_fields k b next ≡ (loc_fields k b next >>= λ fs. ok (map (show_located b) fs)))
        → (show_result b m >>= λ q. (read_fields k b q.1 >>= λ vs. ok (q.0 ∷ vs))) ≡ (
            (m >>= λ q. (loc_fields k b q.1 >>= λ fs. ok (q.0 ∷ fs))) >>= λ fs.
            ok (map (show_located b) fs))
    go (ok (f, next)) ih = rw (ih next) (inner f (loc_fields k b next))
    go (err e) ih = refl
    go panic ih = refl
