-- ===== src/Publish/Classes.antt =====
-- indexer/publish.go: the events of the classes of a batch.
use mathlib.Core.List.{Memᴰ}
use mathlib.Core.List.Memᴰ
use hyper_gnomon.Base.{
  ◌≡◌, ◌≢◌, refl, sym, ap, subst, ◌∙◌, inl, inr, List, [], ◌∷◌, Bool, true, false, ◌||◌, Option,
  none, some, Bool-cases, if_yes, if_no,
}
use hyper_gnomon.Base.Int.{ℤ}
use hyper_gnomon.Base.Texts.{Bytes, bytes_eq, bytes_eq→eq, bytes_eq_refl, is_empty, text}
use hyper_gnomon.Codec.ClassMeta.{ClassMeta}
use hyper_gnomon.Bus.Events.{Event}
use hyper_gnomon.Publish.{Payload, class_events}
use hyper_gnomon.Publish.Announced.{class_at, OfClass}

is_skipped-known :
    (c : Bytes) → c ≢ [] → c ≢ text "UNKNOWN" → (is_empty c || bytes_eq c (text "UNKNOWN")) ≡ false
is_skipped-known [] filled known = absurd (filled refl)
is_skipped-known (x ∷ c) filled known = elim (Bool-cases (bytes_eq (x ∷ c) (text "UNKNOWN"))) [
  | inl same ↦ absurd (known (bytes_eq→eq (x ∷ c) (text "UNKNOWN") same))
  | inr other ↦ other
]

known-is_skipped :
    (c : Bytes)
    → (is_empty c || bytes_eq c (text "UNKNOWN")) ≡ false
    → (c ≢ []) × (c ≢ text "UNKNOWN")
known-is_skipped c kept = (
  λ e. apart (sym (ap skip e) ∙ kept),
  λ e. apart (sym (bytes_eq_refl (text "UNKNOWN")) ∙ (sym (ap skip e) ∙ kept)),
)
  where
    skip : Bytes → Bool
    skip d = is_empty d || bytes_eq d (text "UNKNOWN")

    apart : true ≡ false → ⊥
    apart p = cc

module _ {D : Type 0} (safe : ℤ) where
  class_events-skipped :
      (s : Bytes) (meta : ClassMeta) (l : List (Bytes × Option ClassMeta))
      → (is_empty meta.class || bytes_eq meta.class (text "UNKNOWN")) ≡ true
      → class_events {D = D} safe ((s, some meta) ∷ l) ≡ class_events safe l
  unfolding class_events
  class_events-skipped s meta l h = if_yes _ _ _ h

  class_events-kept :
      (s : Bytes) (meta : ClassMeta) (l : List (Bytes × Option ClassMeta))
      → (is_empty meta.class || bytes_eq meta.class (text "UNKNOWN")) ≡ false
      → class_events {D = D} safe ((s, some meta) ∷ l) ≡ class_at safe s meta ∷ class_events safe l
  unfolding class_events
  class_events-kept s meta l h = if_no _ _ _ h

module _ {D : Type 0} (safe : ℤ) (e : Event (Payload D)) where
  OfClass-tail :
      (p : Bytes × Option ClassMeta) (l : List (Bytes × Option ClassMeta))
      → OfClass safe e l
      → OfClass safe e (p ∷ l)
  OfClass-tail p l (s, meta, there, filled, known, shape) =
      (s, meta, Memᴰ.tail there, filled, known, shape)

  pub class_events-found :
      (l : List (Bytes × Option ClassMeta)) → Memᴰ e (class_events safe l) → OfClass safe e l
  unfolding class_events
  class_events-found [] m = absurd (Memᴰ.not-nil m)
  class_events-found ((s, none) ∷ l) m = OfClass-tail (s, none) l (class_events-found l m)
  class_events-found ((s, some meta) ∷ l) m =
      elim (Bool-cases (is_empty meta.class || bytes_eq meta.class (text "UNKNOWN"))) [
        | inl skip ↦
            OfClass-tail (s, some meta) l
              (class_events-found l (subst (Memᴰ e) (class_events-skipped safe s meta l skip) m))
        | inr kept ↦
            elim (Memᴰ.cases_cons (subst (Memᴰ e) (class_events-kept safe s meta l kept) m)) [
              | inl here ↦
                  let known = known-is_skipped meta.class kept in
                  (s, meta, Memᴰ.head refl, known.0, known.1, here)
              | inr later ↦ OfClass-tail (s, some meta) l (class_events-found l later)
            ]
      ]

  class_events-later :
      (s : Bytes) (m : Option ClassMeta) (l : List (Bytes × Option ClassMeta))
      → Memᴰ e (class_events safe l)
      → Memᴰ e (class_events safe ((s, m) ∷ l))
  unfolding class_events
  class_events-later s none l there = there
  class_events-later s (some meta) l there =
      elim (Bool-cases (is_empty meta.class || bytes_eq meta.class (text "UNKNOWN"))) [
        | inl skip ↦ subst (Memᴰ e) (sym (class_events-skipped safe s meta l skip)) there
        | inr kept ↦ subst (Memᴰ e) (sym (class_events-kept safe s meta l kept)) (Memᴰ.tail there)
      ]

  pub class_events-published :
      (l : List (Bytes × Option ClassMeta)) → OfClass safe e l → Memᴰ e (class_events safe l)
  unfolding class_events
  class_events-published [] (s, meta, there, filled, known, shape) = absurd (Memᴰ.not-nil there)
  class_events-published ((s', m') ∷ l) (s, meta, there, filled, known, shape) =
      elim (Memᴰ.cases_cons there) [
        | inl here ↦
            subst (Memᴰ e)
              (sym (class_events-kept safe s meta l (is_skipped-known meta.class filled known))
                ∙ ap (λ p. class_events safe (p ∷ l)) here)
              (Memᴰ.head shape)
        | inr later ↦
            class_events-later s' m' l
              (class_events-published l (s, meta, later, filled, known, shape))
      ]
