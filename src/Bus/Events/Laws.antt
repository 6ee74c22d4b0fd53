-- ===== src/Bus/Events/Laws.antt =====
-- Names and event types, and what a filter lets through.
use hyper_gnomon.Base.{ℕ, ◌≤◌, ◌≡◌, ◌≢◌, refl, sym, ap, ◌∙◌, ◌⊎◌, ◌↔◌, inl, inr, arith}
use hyper_gnomon.Base.{List, [], ◌∷◌, Bool, true, false, not, ◌&&◌, if◌then◌else◌, Bool-cases, ◌==◌}
use mathlib.Core.Bool.{false≢true}
use mathlib.Core.Option.{some-injective}
use hyper_gnomon.Base.{zero, suc, get_elem?, some, ==_iff, ==_refl}
use hyper_gnomon.Base.Texts.{Bytes, bytes_eq, text, bytes_eq→eq, bytes_eq_refl}
use hyper_gnomon.Bus.Events.{
  EventType, Event, Filter, event_name, parse_event_type, match_event, has_type, is_nil, rejects,
}

-- The event types that the bus fans out.
abbrev pub IsEventType : EventType → Type 0
IsEventType t = (1 ≤ t) × (t ≤ 6)

-- The name of each of the six event types is parsed to that type.
pub parse_event_type-event_name :
    (t : EventType) → IsEventType t → parse_event_type (event_name t) ≡ t
unfolding parse_event_type event_name bytes_eq
parse_event_type-event_name zero (l, u) = absurd (omega arith)
parse_event_type-event_name (suc zero) h = refl
parse_event_type-event_name (suc (suc zero)) h = refl
parse_event_type-event_name (suc (suc (suc zero))) h = refl
parse_event_type-event_name (suc (suc (suc (suc zero)))) h = refl
parse_event_type-event_name (suc (suc (suc (suc (suc zero))))) h = refl
parse_event_type-event_name (suc (suc (suc (suc (suc (suc zero)))))) h = refl
parse_event_type-event_name (suc (suc (suc (suc (suc (suc (suc n))))))) (l, u) =
    absurd (omega arith)

-- A name that is parsed to an event type, and not to 0, is that type's name.
pub event_name-parse_event_type :
    (s : Bytes) → parse_event_type s ≢ 0 → event_name (parse_event_type s) ≡ s
unfolding parse_event_type event_name
event_name-parse_event_type s known = elim (Bool-cases (bytes_eq s (text "install"))) [
  | inl e1 ↦ rw (e1) (sym (bytes_eq→eq s (text "install") e1))
  | inr e1 ↦ elim (Bool-cases (bytes_eq s (text "invoke"))) [
    | inl e2 ↦ rw (e1, e2) (sym (bytes_eq→eq s (text "invoke") e2))
    | inr e2 ↦ elim (Bool-cases (bytes_eq s (text "var_change"))) [
      | inl e3 ↦ rw (e1, e2, e3) (sym (bytes_eq→eq s (text "var_change") e3))
      | inr e3 ↦ elim (Bool-cases (bytes_eq s (text "reorg"))) [
        | inl e4 ↦ rw (e1, e2, e3, e4) (sym (bytes_eq→eq s (text "reorg") e4))
        | inr e4 ↦ elim (Bool-cases (bytes_eq s (text "safe"))) [
          | inl e5 ↦ rw (e1, e2, e3, e4, e5) (sym (bytes_eq→eq s (text "safe") e5))
          | inr e5 ↦ elim (Bool-cases (bytes_eq s (text "class_match"))) [
            | inl e6 ↦ rw (e1, e2, e3, e4, e5, e6) (sym (bytes_eq→eq s (text "class_match") e6))
            | inr e6 ↦ absurd (known (rw (e1, e2, e3, e4, e5, e6) refl))
          ]
        ]
      ]
    ]
  ]
]

-- The event and the filter agree on a field: the filter leaves it out, or the two are the same.
abbrev pub Fits : Bytes → Bytes → Type 0
Fits wanted actual = (wanted ≡ []) ⊎ (wanted ≡ actual)

rejects_cases : (w a : Bytes) → (rejects w a ≡ false) ↔ Fits w a
rejects_cases [] a = (λ h. inl refl, λ h. refl)
rejects_cases (x ∷ w) a = (there, back)
  where
    there : rejects (x ∷ w) a ≡ false → Fits (x ∷ w) a
    there h = elim (Bool-cases (bytes_eq (x ∷ w) a)) [
      | inl same ↦ inr (bytes_eq→eq (x ∷ w) a same)
      | inr other ↦ absurd (false≢true (sym h ∙ ap not other))
    ]

    back : Fits (x ∷ w) a → rejects (x ∷ w) a ≡ false
    back (inl e) = cc
    back (inr e) = rw (← e, bytes_eq_refl (x ∷ w)) refl

abbrev pub Listed : EventType → List EventType → Type 0
Listed t ts = (i : ℕ) × (get_elem? ts i ≡ some t)

-- The filter has no event types, or the event's is one of them.
abbrev pub Selects : List EventType → EventType → Type 0
Selects ts t = (ts ≡ []) ⊎ Listed t ts

has_type→Listed : (t : EventType) (ts : List EventType) → has_type t ts ≡ true → Listed t ts
has_type→Listed t [] h = cc
has_type→Listed t (u ∷ us) h = elim (Bool-cases (t == u)) [
  | inl same ↦ (0, ap some (sym ((==_iff t u).0 same)))
  | inr other ↦ let (i, at) = has_type→Listed t us (rw other at h) in (suc i, at)
]

Listed→has_type : (t : EventType) (ts : List EventType) → Listed t ts → has_type t ts ≡ true
Listed→has_type t [] (i, at) = cc
Listed→has_type t (u ∷ us) (zero, at) = rw (some-injective u t at, ==_refl t) refl
Listed→has_type t (u ∷ us) (suc i, at) = elim (Bool-cases (t == u)) [
  | inl same ↦ rw same refl
  | inr other ↦ rw (other, Listed→has_type t us (i, at)) refl
]

types_cases :
    (t : EventType) (ts : List EventType)
    → ((not (is_nil ts) && not (has_type t ts)) ≡ false) ↔ Selects ts t
types_cases t [] = (λ h. inl refl, λ h. refl)
types_cases t (u ∷ us) = (there, back)
  where
    there : not (has_type t (u ∷ us)) ≡ false → Selects (u ∷ us) t
    there h = elim (Bool-cases (has_type t (u ∷ us))) [
      | inl listed ↦ inr (has_type→Listed t (u ∷ us) listed)
      | inr unlisted ↦ absurd (false≢true (sym h ∙ ap not unlisted))
    ]

    back : Selects (u ∷ us) t → not (has_type t (u ∷ us)) ≡ false
    back (inl e) = cc
    back (inr m) = ap not (Listed→has_type t (u ∷ us) m)

-- A mempool event passes only where the filter asks for them.
abbrev pub Confirms : Bool → Bool → Type 0
Confirms speculative included = speculative ≡ true → included ≡ true

speculative_cases : (s i : Bool) → ((s && not i) ≡ false) ↔ Confirms s i
speculative_cases false i = (λ h. λ e. absurd (false≢true e), λ h. refl)
speculative_cases true true = (λ h. λ e. refl, λ h. refl)
speculative_cases true false = (λ h. absurd (false≢true (sym h)), λ h. absurd (false≢true (h refl)))

guard :
    {P Q : Type 0} (b rest : Bool)
    → (b ≡ false) ↔ P
    → (rest ≡ true) ↔ Q
    → ((if b then false else rest) ≡ true) ↔ (P × Q)
guard true rest (f, g) k = (λ h. absurd (false≢true h), λ pq. absurd (false≢true (sym (g pq.0))))
guard false rest (f, g) (f', g') = (λ h. (f refl, f' h), λ pq. g' pq.1)

last_guard : {P : Type 0} (b : Bool) → (b ≡ false) ↔ P → ((if b then false else true) ≡ true) ↔ P
last_guard true (f, g) = (λ h. absurd (false≢true h), λ p. absurd (false≢true (sym (g p))))
last_guard false (f, g) = (λ h. f refl, λ p. refl)

-- What a filter asks of an event: all its fields at once.
abbrev pub Passes : {P : Type 0} → Filter → Event P → Type 0
Passes f e =
    Confirms e.speculative f.include_speculative
    × (Selects f.events e.type
        × (Fits f.scid e.scid
            × (Fits f.owner e.owner × (Fits f.sender e.sender × Fits f.class e.class))))

-- A filter matches an event exactly if all its conditions hold: a speculative event only where
-- speculative events are included, the event's type in the set of types unless that is empty, and
-- each of scid, owner, sender and class either empty in the filter or the event's own.
pub match_event-Passes :
    {P : Type 0} (f : Filter) (e : Event P) → (match_event f e ≡ true) ↔ Passes f e
unfolding match_event
match_event-Passes f e =
    guard (e.speculative && not f.include_speculative) _
      (speculative_cases e.speculative f.include_speculative)
      (guard (not (is_nil f.events) && not (has_type e.type f.events)) _
        (types_cases e.type f.events)
        (guard (rejects f.scid e.scid) _ (rejects_cases f.scid e.scid) (
          guard (rejects f.owner e.owner) _ (rejects_cases f.owner e.owner) (
            guard (rejects f.sender e.sender) _ (rejects_cases f.sender e.sender)
              (last_guard (rejects f.class e.class) (rejects_cases f.class e.class))))))
