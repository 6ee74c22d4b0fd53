-- ===== src/Bus/Delivery.antt =====
-- What one round of the fan-out does to each subscription.
use hyper_gnomon.Base.{ℕ, zero, suc, ◌<◌, ◌≡◌, ◌≢◌, refl, sym, ap, subst, ◌∙◌, inl, inr}
use hyper_gnomon.Base.{List, [], ◌∷◌, ◌++◌, Bool, true, false, not, Option, none, some}
use hyper_gnomon.Base.{length, get_elem?, All, Option-cases, Bool-cases, if_yes, if_no}
use mathlib.Core.Bool.{false≢true}
use mathlib.Core.Option.{some-injective}
use hyper_gnomon.Chan.{close}
use hyper_gnomon.Chan.Laws.{receive_cases}
use hyper_gnomon.Bus.{Subscription, Bus, run_round, add_one, sub_chan_buffer}
use hyper_gnomon.Bus.{
  Round, waits, goes_on, returns, each_sub, forward, cancel_registered, sub_close, sub_try_send,
}
use hyper_gnomon.Bus.Events.{Event, match_event}
use hyper_gnomon.Bus.Events.Laws.{Passes, match_event-Passes}
use hyper_gnomon.Bus.Safety.{BusOk, run_round-event, run_round-waits, run_round-end}
use hyper_gnomon.Bus.Safety.Subs.{
  SubOk, sub_try_send_cases, each_sub-safe, forward-IsSafe, cancel_registered-IsSafe,
}

module _ {P : Type 0} where
  -- A subscription in the map whose filter the event passes.
  abbrev pub Wants : Event P → Subscription P → Type 0
  Wants e s = (s.registered ≡ true) × Passes s.filter e

  -- What becomes of a subscription: the event is put behind those that wait, or, with 256 of them
  -- waiting, it is counted as dropped, or the subscription does not want it and stays as it is.
  pub data Delivered (e : Event P) (s : Subscription P) : Subscription P → Type 0 where
    buffered :
        Wants e s
        → length s.ch.buffer < sub_chan_buffer
        → Delivered e s (record s { ch = record s.ch { buffer = s.ch.buffer ++ (e ∷ []) } })
    lost :
        Wants e s
        → length s.ch.buffer ≡ sub_chan_buffer
        → Delivered e s (record s { dropped = add_one s.dropped })
    unwanted : (¬ (Wants e s)) → Delivered e s s

  absent :
      (x : Option (List (Subscription P))) (ts : List (Subscription P)) → x ≡ none → x ≢ some ts
  absent x ts p q = cc

  each_sub-get :
      (f : Subscription P → Option (Subscription P)) (ss ts : List (Subscription P))
      → each_sub f ss ≡ some ts
      → (i : ℕ) (s : Subscription P) → get_elem? ss i ≡ some s
      → (t : Subscription P) × ((get_elem? ts i ≡ some t) × (f s ≡ some t))
  unfolding each_sub
  each_sub-get f [] ts all i s at = cc
  each_sub-get f (x ∷ ss) ts all i s at = elim (Option-cases (f x)) [
    | inl bad ↦ absurd (absent (each_sub f (x ∷ ss)) ts (rw (bad, each_sub) refl) all)
    | inr (t, first) ↦ elim (Option-cases (each_sub f ss)) [
      | inl bad ↦ absurd (absent (each_sub f (x ∷ ss)) ts (rw (first, each_sub) (rw bad refl)) all)
      | inr (us, rest) ↦
          let same : t ∷ us ≡ ts =
            some-injective (t ∷ us) ts (sym (rw (first, each_sub) (rw rest refl)) ∙ all) in
          found t us i at first rest same (λ j. each_sub-get f ss us rest j s)
    ]
  ]
    where
      found :
          (t : Subscription P) (us : List (Subscription P)) (i : ℕ)
          → get_elem? (x ∷ ss) i ≡ some s
          → f x ≡ some t
          → each_sub f ss ≡ some us
          → t ∷ us ≡ ts
          → ((j : ℕ)
              → get_elem? ss j ≡ some s
              → (u : Subscription P) × ((get_elem? us j ≡ some u) × (f s ≡ some u)))
          → (u : Subscription P) × ((get_elem? ts i ≡ some u) × (f s ≡ some u))
      found t us zero at first rest same again = (
        t,
        (
          ap (λ (l : List (Subscription P)). get_elem? l 0) (sym same),
          ap f (sym (some-injective x s at)) ∙ first,
        ),
      )
      found t us (suc i) at first rest same again =
          let (u, (here, now)) = again i at in
          (u, (ap (λ (l : List (Subscription P)). get_elem? l (suc i)) (sym same) ∙ here, now))

  All-get :
      (ss : List (Subscription P)) (i : ℕ) (s : Subscription P)
      → All SubOk ss
      → get_elem? ss i ≡ some s
      → SubOk s
  All-get [] i s ok at = cc
  All-get (x ∷ ss) zero s (o, os) at = subst SubOk (some-injective x s at) o
  All-get (x ∷ ss) (suc i) s (o, os) at = All-get ss i s os at

  forward-Delivered :
      (e : Event P) (s t : Subscription P) → SubOk s → forward e s ≡ some t → Delivered e s t
  unfolding forward
  forward-Delivered e s t ok h = elim (Bool-cases s.registered) [
    | inr out ↦
        subst (Delivered e s) (same s (if_yes (not s.registered) _ _ (ap not out)))
          (unwanted (λ w. false≢true (sym out ∙ w.0)))
    | inl r ↦ elim (Bool-cases (match_event s.filter e)) [
      | inr other ↦
          subst (Delivered e s)
            (same s (
              if_no (not s.registered) _ _ (ap not r)
              ∙ if_yes (not (match_event s.filter e)) _ _ (ap not other)))
            (unwanted (λ w. false≢true (sym other ∙ (match_event-Passes s.filter e).1 w.1)))
      | inl pass ↦
          let wants : Wants e s = (r, (match_event-Passes s.filter e).0 pass) in
          let sends : forward e s ≡ sub_try_send e s =
            if_no (not s.registered) _ _ (ap not r)
            ∙ if_no (not (match_event s.filter e)) _ _ (ap not pass) in
          elim (sub_try_send_cases e s ok (ok.live r)) [
            | inl (done, less) ↦ subst (Delivered e s) (same _ (sends ∙ done)) (buffered wants less)
            | inr (done, full) ↦ subst (Delivered e s) (same _ (sends ∙ done)) (lost wants full)
          ]
    ]
  ]
    where
      same : (u : Subscription P) → forward e s ≡ some u → u ≡ t
      same u now = some-injective u t (sym now ∙ h)

  abbrev registered_of : Subscription P → Bool
  registered_of s = s.registered

  none≢some : (t : Subscription P) → ◌≢◌ {A = Option (Subscription P)} none (some t)
  none≢some t e = cc

  abbrev bus_in : Bus P → Option (Round P) → Bus P
  bus_in d none = d
  bus_in d (some waits) = d
  bus_in d (some (goes_on c)) = c
  bus_in d (some (returns c)) = c

  waits≢goes_on : (c : Bus P) → ◌≢◌ {A = Option (Round P)} (some waits) (some (goes_on c))
  waits≢goes_on c e = cc

  waits≢returns : (c : Bus P) → ◌≢◌ {A = Option (Round P)} (some waits) (some (returns c))
  waits≢returns c e = cc

  returns≢goes_on : (c d : Bus P) → ◌≢◌ {A = Option (Round P)} (some (returns c)) (some (goes_on d))
  returns≢goes_on c d e = cc

  abbrev Out : List (Subscription P) → Type 0
  Out ss = All (λ (t : Subscription P). t.registered ≡ false) ss

  sub_close-registered : (s t : Subscription P) → sub_close s ≡ some t → t.registered ≡ s.registered
  unfolding sub_close
  sub_close-registered s t h = elim (Bool-cases s.closed) [
    | inl shut ↦ ap registered_of (some-injective t s (sym h ∙ if_yes s.closed _ _ shut))
    | inr live ↦ elim (Option-cases (close s.ch)) [
      | inl bad ↦ absurd (none≢some t (sym (if_no s.closed _ _ live ∙ rw (bad) refl) ∙ h))
      | inr (ch, e) ↦ ap registered_of (
          some-injective t (record s { closed = true; ch = ch })
            (sym h ∙ if_no s.closed _ _ live ∙ rw (e) refl))
    ]
  ]

  cancel_registered-out :
      (s t : Subscription P) → cancel_registered s ≡ some t → t.registered ≡ false
  unfolding cancel_registered
  cancel_registered-out s t h = elim (Bool-cases s.registered) [
    | inr out ↦
        ap registered_of (some-injective t s (sym h ∙ if_yes (not s.registered) _ _ (ap not out)))
        ∙ out
    | inl r ↦
        sub_close-registered (record s { registered = false }) t
          (sym (if_no (not s.registered) _ _ (ap not r)) ∙ h)
  ]

  each_sub-unregisters :
      (ss ts : List (Subscription P)) → each_sub cancel_registered ss ≡ some ts → Out ts
  unfolding each_sub
  each_sub-unregisters [] ts all = subst Out (some-injective [] ts all) _
  each_sub-unregisters (x ∷ ss) ts all = elim (Option-cases (cancel_registered x)) [
    | inl bad ↦
        absurd (absent (each_sub cancel_registered (x ∷ ss)) ts (rw (bad, each_sub) refl) all)
    | inr (t, first) ↦ elim (Option-cases (each_sub cancel_registered ss)) [
      | inl bad ↦
          absurd (
            absent (each_sub cancel_registered (x ∷ ss)) ts (rw (first, each_sub) (rw bad refl))
              all)
      | inr (us, rest) ↦
          subst Out (some-injective (t ∷ us) ts (sym (rw (first, each_sub) (rw rest refl)) ∙ all))
            (cancel_registered-out x t first, each_sub-unregisters ss us rest)
    ]
  ]

  -- A fan-out round that goes on takes the first event of the ring, and for each subscription of a
  -- well-formed bus: if it is in the map and its filter's conditions hold, the event is put behind
  -- those in its channel if there is room, and counted as dropped if 256 events wait; otherwise the
  -- subscription stays as it is.
  pub round-Delivered :
      (b c : Bus P)
      → BusOk b
      → run_round b ≡ some (goes_on c)
      → (i : ℕ) (s : Subscription P) → get_elem? b.subs i ≡ some s
      → (e : Event P) × ((b.input.buffer ≡ e ∷ c.input.buffer)
          × ((t : Subscription P) × ((get_elem? c.subs i ≡ some t) × Delivered e s t)))
  round-Delivered b c ok h i s at = elim (receive_cases b.input) [
    | inr (inl (empty, live, wait)) ↦ absurd (waits≢goes_on c (sym (run_round-waits b wait) ∙ h))
    | inr (inr (empty, shut, done)) ↦
        let (ts, (all, oks)) =
          each_sub-safe cancel_registered cancel_registered-IsSafe b.subs ok.subs in
        absurd (returns≢goes_on (record b { subs = ts }) c (sym (run_round-end b ts done all) ∙ h))
    | inl (x, xs, front, handed) ↦
        let (ts, (all, oks)) = each_sub-safe (forward x) (forward-IsSafe x) b.subs ok.subs in
        let next : Bus P = record b { input = record b.input { buffer = xs }; subs = ts } in
        let same : next ≡ c =
          ap (bus_in b)
            (sym (run_round-event b x (record b.input { buffer = xs }) ts handed all) ∙ h) in
        let (t, (there, sent)) = each_sub-get (forward x) b.subs ts all i s at in
        (
          x,
          (
            front ∙ ap (λ (d : Bus P). x ∷ d.input.buffer) same,
            (
              t,
              (
                ap (λ (d : Bus P). get_elem? d.subs i) (sym same) ∙ there,
                forward-Delivered x s t (All-get b.subs i s ok.subs at) sent,
              ),
            ),
          ),
        )
  ]

  -- On a well-formed bus the fan-out loop returns only after the bus was closed and every accepted
  -- event was taken from the ring, and no subscription is in the map then.
  pub round-ends :
      (b c : Bus P)
      → BusOk b
      → run_round b ≡ some (returns c)
      → ((b.closed ≡ true) × (b.input.buffer ≡ []))
        × All (λ (t : Subscription P). t.registered ≡ false) c.subs
  round-ends b c ok h = elim (receive_cases b.input) [
    | inr (inl (empty, live, wait)) ↦ absurd (waits≢returns c (sym (run_round-waits b wait) ∙ h))
    | inr (inr (empty, shut, done)) ↦
        let (ts, (all, oks)) =
          each_sub-safe cancel_registered cancel_registered-IsSafe b.subs ok.subs in
        let same : record b { subs = ts } ≡ c =
          ap (bus_in b) (sym (run_round-end b ts done all) ∙ h) in
        (
          (sym ok.agree ∙ shut, empty),
          subst (λ (d : Bus P). All (λ (t : Subscription P). t.registered ≡ false) d.subs) same
              (each_sub-unregisters b.subs ts all),
        )
    | inl (x, xs, front, handed) ↦
        let (ts, (all, oks)) = each_sub-safe (forward x) (forward-IsSafe x) b.subs ok.subs in
        absurd (
          returns≢goes_on c _
            (sym h ∙ run_round-event b x (record b.input { buffer = xs }) ts handed all))
  ]
