-- ===== src/Store/DecimalKeys/Classes.antt =====
-- storage/bbolt.go: the keys of the class bucket tell the class, the height and the contract.
use hyper_gnomon.Base.{
  ℕ, ◌≡◌, ◌≢◌, refl, sym, ap, ◌∙◌, arith, [], ◌∷◌, ◌++◌, append_assoc, true, false, Option, some,
  All, take, drop, take-append_self, drop-append_self, if_yes, if_no,
}
use hyper_gnomon.Base.Int.{ℤ, IsI64}
use hyper_gnomon.Base.Texts.{Bytes, is_empty}
use hyper_gnomon.Codec.{Decoded}
use hyper_gnomon.Codec.ClassMeta.{ClassMeta, marshal_typed, is_class_meta_typed}
use hyper_gnomon.Codec.ClassMeta.RoundTrip.{
  InRange, marshal_class_meta-tag, unmarshal-marshal_class_meta,
}
use hyper_gnomon.Store.Keys.{bar, enc_height, dec_height}
use hyper_gnomon.Store.Keys.Laws.{dec_height-enc_height, length-enc_height}
use hyper_gnomon.Store.DecimalKeys.{class_key, success, present, decode_class_meta}

-- A part of a key in which no bar stands.
abbrev pub IsUnbarred : Bytes → Type 0
IsUnbarred s = All (λ (c : ℕ). c ≢ bar) s

abbrev first : ℕ → Bytes → ℕ
first d [] = d
first d (x ∷ s) = x

same_first : {x y : ℕ} {s t : Bytes} → x ∷ s ≡ y ∷ t → x ≡ y
same_first {x} e = ap (first x) e

same_rest : {x y : ℕ} {s t : Bytes} → x ∷ s ≡ y ∷ t → s ≡ t
same_rest e = ap (drop 1) e

split_at_bar :
    (c c' r r' : Bytes)
    → IsUnbarred c
    → IsUnbarred c'
    → c ++ (bar ∷ r) ≡ c' ++ (bar ∷ r')
    → (c ≡ c') × (r ≡ r')
split_at_bar [] [] r r' h h' e = (refl, same_rest e)
split_at_bar [] (y ∷ c') r r' h h' e = elim (h'.0 (sym (same_first e))) [ ]
split_at_bar (x ∷ c) [] r r' h h' e = elim (h.0 (same_first e)) [ ]
split_at_bar (x ∷ c) (y ∷ c') r r' h h' e =
    let (p, q) = split_at_bar c c' r r' h.1 h'.1 (same_rest e) in (λ i. same_first e i ∷ p i, q)

split_height :
    (h h' : ℤ) (r r' : Bytes)
    → IsI64 h
    → IsI64 h'
    → enc_height h ++ (bar ∷ r) ≡ enc_height h' ++ (bar ∷ r')
    → (h ≡ h') × (r ≡ r')
split_height h h' r r' i i' e =
    let head : enc_height h ≡ enc_height h' =
      sym (taken h (bar ∷ r)) ∙ ap (take 8) e ∙ taken h' (bar ∷ r') in
    let tail : bar ∷ r ≡ bar ∷ r' =
      sym (dropped h (bar ∷ r)) ∙ ap (drop 8) e ∙ dropped h' (bar ∷ r') in
    (
      sym (dec_height-enc_height h i) ∙ ap dec_height head ∙ dec_height-enc_height h' i',
      same_rest tail,
    )
  where
    taken : (z : ℤ) (s : Bytes) → take 8 (enc_height z ++ s) ≡ enc_height z
    taken z s =
        ap (λ (n : ℕ). take n (enc_height z ++ s)) (sym (length-enc_height z))
        ∙ take-append_self (enc_height z) s

    dropped : (z : ℤ) (s : Bytes) → drop 8 (enc_height z ++ s) ≡ s
    dropped z s =
        ap (λ (n : ℕ). drop n (enc_height z ++ s)) (sym (length-enc_height z))
        ∙ drop-append_self (enc_height z) s

class_key_shape :
    (c : Bytes) (h : ℤ) (scid : Bytes)
    → class_key c h scid ≡ c ++ (bar ∷ (enc_height h ++ (bar ∷ scid)))
unfolding class_key
class_key_shape c h scid = simp append_assoc

pub class_key_injective :
    (c c' : Bytes) (h h' : ℤ) (scid scid' : Bytes)
    → IsUnbarred c
    → IsUnbarred c'
    → IsI64 h
    → IsI64 h'
    → class_key c h scid ≡ class_key c' h' scid'
    → (c ≡ c') × (h ≡ h') × (scid ≡ scid')
class_key_injective c c' h h' scid scid' u u' i i' e =
    let (p, q) =
      split_at_bar c c' _ _ u u'
        (sym (class_key_shape c h scid) ∙ e ∙ class_key_shape c' h' scid') in
    let (r, t) = split_height h h' scid scid' i i' q in (p, r, t)

-- The record that a class is stored with is read again.
pub decode-marshal_class_meta :
    (msgpack : Bytes → Option ClassMeta) (m : ClassMeta)
    → InRange m
    → decode_class_meta msgpack (marshal_typed m) ≡ some (some m)
unfolding decode_class_meta is_class_meta_typed
decode-marshal_class_meta msgpack m h =
    let (rest, e) = marshal_class_meta-tag m in
    let filled : is_empty (marshal_typed m) ≡ false = ap is_empty e in
    let typed : is_class_meta_typed (marshal_typed m) ≡ true =
      ap is_class_meta_typed e ∙ ground arith in
    if_no (is_empty (marshal_typed m)) _ _ filled
    ∙ if_yes (is_class_meta_typed (marshal_typed m)) _ _ typed
    ∙ ap (λ (d : Decoded ClassMeta). present (success d)) (unmarshal-marshal_class_meta _ m h)
