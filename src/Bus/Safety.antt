-- ===== src/Bus/Safety.antt =====
-- The event bus stays well-formed and does not panic, whatever order its operations run in.
pub mod Subs
use hyper_gnomon.Base.{
  ℕ, ◌+◌, ◌≤◌, ◌<◌, ◌≡◌, refl, ◌⊎◌, inl, inr, List, [], ◌∷◌, ◌++◌, Bool, true, false, not, Option,
  none, some, arith,
}
use hyper_gnomon.Base.{
  length, length-append, get_elem?, All, Option-cases, Bool-cases, if◌then◌else◌,
}
use hyper_gnomon.Base.Int.{ℤ}
use hyper_gnomon.Chan.{Chan, make, got, would_block, drained, receive}
use hyper_gnomon.Chan.Laws.{IsBounded, try_send_cases, receive_cases, close-live}
use hyper_gnomon.Bus.{
  Subscription, Bus, new, publish, publish_send, subscribe, cancel, run_round, close_bus,
  take_event,
}
use hyper_gnomon.Bus.{
  Round, waits, goes_on, returns, delete_id, update_sub, each_sub, forward, cancel_registered,
  sub_close, sub_try_send,
}
use hyper_gnomon.Bus.Events.{Event, Filter}
use hyper_gnomon.Bus.Safety.Subs.{
  SubOk, delete_id-SubOk, forward-IsSafe, cancel_registered-IsSafe, sub_close-safe, each_sub-safe,
  update_sub-safe,
}
use hyper_gnomon.Bus.{
  Op, op_publish, op_subscribe, op_cancel, op_round, op_take, op_close, apply_op, run_ops,
  after_round, after_take,
}
use hyper_gnomon.Base.{zero, suc, sym, ap, subst, ◌∙◌, if_yes, if_no}
use mathlib.Core.Option.{some-injective}
use hyper_gnomon.Base.Texts.{Bytes, bytes_eq, bytes_eq_refl}
use hyper_gnomon.Bus.{add_one}

module _ {P : Type 0} where
  -- The flag `closed` is the central channel's, that channel is within its capacity, and every
  -- subscription is well-formed.
  pub record BusOk (b : Bus P) : Type 0 where
    pub agree : b.input.is_closed ≡ b.closed
    pub bounded : IsBounded b.input
    pub subs : All SubOk b.subs

  -- A step that neither panics nor breaks the bus.
  abbrev pub IsSafeStep : (Bus P → Option (Bus P)) → Type 0
  IsSafeStep f = (b : Bus P) → BusOk b → (c : Bus P) × ((f b ≡ some c) × BusOk c)

  pub new-BusOk : (buffer : ℤ) → BusOk (new buffer)
  unfolding new make
  new-BusOk buffer = record { agree = refl; bounded = omega arith; subs = _ }

  pub publish-safe : (e : Event P) → IsSafeStep (publish e)
  unfolding publish publish_send
  publish-safe e b ok = elim (Bool-cases b.closed) [
    | inl shut ↦ (b, (if_yes b.closed _ _ shut, ok))
    | inr live ↦ elim (try_send_cases e b.input (ok.agree ∙ live)) [
      | inl (done, less) ↦ (
        record b {
          input = record b.input { buffer = b.input.buffer ++ (e ∷ []) };
          publish_count = add_one b.publish_count;
        },
        (
          if_no b.closed _ _ live ∙ rw (done, publish_send) refl,
          record {
            agree = ok.agree;
            bounded = omega (arith, length-append b.input.buffer (e ∷ []));
            subs = ok.subs;
          },
        ),
      )
      | inr (done, more) ↦ (
        record b { dropped_count = add_one b.dropped_count },
        (
          if_no b.closed _ _ live ∙ rw (done, publish_send) refl,
          record { agree = ok.agree; bounded = ok.bounded; subs = ok.subs },
        ),
      )
    ]
  ]

  All-append : (xs ys : List (Subscription P)) → All SubOk xs → All SubOk ys → All SubOk (xs ++ ys)
  All-append [] ys p q = q
  All-append (x ∷ xs) ys (p, ps) q = (p, All-append xs ys ps q)

  subscribe-BusOk : (f : Filter) (b : Bus P) → BusOk b → BusOk (subscribe f b)
  unfolding subscribe make
  subscribe-BusOk f b ok = record {
    agree = ok.agree;
    bounded = ok.bounded;
    subs =
        All-append _ _ (delete_id-SubOk _ b.subs ok.subs)
          (record { agree = refl; room = omega arith; capacity = refl; live = λ r. refl }, _);
  }

  -- Whoever stands under the id leaves the map.
  delete_id-unregisters :
      (id : Bytes) (ss : List (Subscription P)) (i : ℕ) (s t : Subscription P)
      → get_elem? ss i ≡ some s
      → s.id ≡ id
      → get_elem? (delete_id id ss) i ≡ some t
      → t.registered ≡ false
  delete_id-unregisters id [] i s t at same now = cc
  delete_id-unregisters id (x ∷ ss) zero s t at same now =
      let here : x ≡ s = some-injective x s at in
      let named : bytes_eq x.id id ≡ true =
        subst (λ (j : Bytes). bytes_eq x.id j ≡ true)
          (ap (λ (y : Subscription P). y.id) here ∙ same) (bytes_eq_refl x.id) in
      let changed : record x { registered = false } ≡ t =
        sym (if_yes (bytes_eq x.id id) _ _ named) ∙ some-injective _ t now in
      ap (λ (y : Subscription P). y.registered) (sym changed)
  delete_id-unregisters id (x ∷ ss) (suc i) s t at same now =
      delete_id-unregisters id ss i s t at same now

  pub cancel-safe : (i : ℕ) → IsSafeStep (cancel i)
  unfolding cancel
  cancel-safe i b ok = elim (Option-cases (get_elem? b.subs i)) [
    | inl e ↦ (b, (rw (e, cancel) refl, ok))
    | inr (s, e) ↦
        let (ts, (done, oks)) =
          update_sub-safe sub_close i (delete_id s.id b.subs) (delete_id-SubOk s.id b.subs ok.subs)
            (λ t at o. closes t o (delete_id-unregisters s.id b.subs i s t e refl at)) in
        (
          record b { subs = ts },
          (
            rw (e, cancel) (rw done refl),
            record { agree = ok.agree; bounded = ok.bounded; subs = oks },
          ),
        )
  ]
    where
      closes :
          (t : Subscription P)
          → SubOk t
          → t.registered ≡ false
          → (u : Subscription P) × ((sub_close t ≡ some u) × SubOk u)
      closes t o out = let (u, (done, (ok', shut))) = sub_close-safe t o out in (u, (done, ok'))

  -- A round with an event, and the last one.
  pub run_round-event :
      (b : Bus P) (x : Event P) (ch : Chan (Event P)) (ts : List (Subscription P))
      → receive b.input ≡ got x ch
      → each_sub (forward x) b.subs ≡ some ts
      → run_round b ≡ some (goes_on (record b { input = ch; subs = ts }))
  unfolding run_round
  run_round-event b x ch ts take all = rw (take, run_round) (rw all refl)

  pub run_round-waits : (b : Bus P) → receive b.input ≡ would_block → run_round b ≡ some waits
  unfolding run_round
  run_round-waits b wait = rw (wait, run_round) refl

  pub run_round-end :
      (b : Bus P) (ts : List (Subscription P))
      → receive b.input ≡ drained
      → each_sub cancel_registered b.subs ≡ some ts
      → run_round b ≡ some (returns (record b { subs = ts }))
  unfolding run_round
  run_round-end b ts done all = rw (done, run_round) (rw all refl)

  pub round-safe :
      (b : Bus P) → BusOk b → (c : Bus P) × ((after_round b (run_round b) ≡ some c) × BusOk c)
  round-safe b ok = elim (receive_cases b.input) [
    | inr (inl (e, live, wait)) ↦ (b, (ap (after_round b) (run_round-waits b wait), ok))
    | inr (inr (e, shut, done)) ↦
        let (ts, (all, oks)) =
          each_sub-safe cancel_registered cancel_registered-IsSafe b.subs ok.subs in
        (
          record b { subs = ts },
          (
            ap (after_round b) (run_round-end b ts done all),
            record { agree = ok.agree; bounded = ok.bounded; subs = oks },
          ),
        )
    | inl (x, xs, at, take) ↦
        let (ts, (all, oks)) = each_sub-safe (forward x) (forward-IsSafe x) b.subs ok.subs in
        let ch : Chan (Event P) = record b.input { buffer = xs } in
        (
          record b { input = ch; subs = ts },
          (
            ap (after_round b) (run_round-event b x ch ts take all),
            record {
              agree = ok.agree;
              bounded = omega (arith, ok.bounded, ap length at);
              subs = oks;
            },
          ),
        )
  ]

  pub close_bus-safe : IsSafeStep close_bus
  unfolding close_bus
  close_bus-safe b ok = elim (Bool-cases b.closed) [
    | inl shut ↦ (b, (if_yes b.closed _ _ shut, ok))
    | inr live ↦ (
      record b { closed = true; input = record b.input { is_closed = true } },
      (
        if_no b.closed _ _ live ∙ rw (close-live b.input (ok.agree ∙ live)) refl,
        record { agree = refl; bounded = ok.bounded; subs = ok.subs },
      ),
    )
  ]

  take_event-BusOk : (i : ℕ) (b : Bus P) → BusOk b → BusOk (after_take b (take_event i b))
  unfolding take_event
  take_event-BusOk i b ok = elim (Option-cases (get_elem? b.subs i)) [
    | inl e ↦ nothing (rw (e, take_event) refl)
    | inr (s, e) ↦ elim (receive_cases s.ch) [
      | inr (inl (empty, live, wait)) ↦ nothing (rw (e, take_event) (rw wait refl))
      | inr (inr (empty, shut, done)) ↦ nothing (rw (e, take_event) (rw done refl))
      | inl (x, xs, at, take) ↦
          let ch : Chan (Event P) = record s.ch { buffer = xs } in
          let (ts, (done, oks)) =
            update_sub-safe (λ t. some (record t { ch = ch })) i b.subs ok.subs
              (λ t here o. (
                record t { ch = ch },
                (refl, shorter t s x xs (some-injective t s (sym here ∙ e)) at o),
              )) in
          let taken : take_event i b ≡ some (x, record b { subs = ts }) =
            rw (e, take_event) (rw take (rw done refl)) in
          subst BusOk (sym (ap (after_take b) taken))
            (record { agree = ok.agree; bounded = ok.bounded; subs = oks })
    ]
  ]
    where
      nothing : take_event i b ≡ none → BusOk (after_take b (take_event i b))
      nothing h = subst BusOk (sym (ap (after_take b) h)) ok

      shorter :
          (t s : Subscription P) (x : Event P) (xs : List (Event P))
          → t ≡ s
          → s.ch.buffer ≡ x ∷ xs
          → SubOk t
          → SubOk (record t { ch = record s.ch { buffer = xs } })
      shorter t s x xs same at o = fewer (subst SubOk same o)
        where
          fewer : SubOk s → SubOk (record t { ch = record s.ch { buffer = xs } })
          fewer o = record {
            agree = o.agree ∙ ap (λ (y : Subscription P). y.closed) (sym same);
            room = omega (arith, o.room, ap length at);
            capacity = o.capacity;
            live = λ r.
                ap (λ (y : Subscription P). y.closed) same
                ∙ o.live (ap (λ (y : Subscription P). y.registered) (sym same) ∙ r);
          }

  pub apply_op-safe : (o : Op P) → IsSafeStep (apply_op o)
  unfolding apply_op
  apply_op-safe (op_publish e) b ok = publish-safe e b ok
  apply_op-safe (op_subscribe f) b ok = (subscribe f b, (refl, subscribe-BusOk f b ok))
  apply_op-safe (op_cancel i) b ok = cancel-safe i b ok
  apply_op-safe op_round b ok = round-safe b ok
  apply_op-safe (op_take i) b ok = (after_take b (take_event i b), (refl, take_event-BusOk i b ok))
  apply_op-safe op_close b ok = close_bus-safe b ok

  -- From a well-formed bus, every sequence of publishing, subscribing, cancelling, fan-out rounds,
  -- receiving and closing ends without a panic in a well-formed bus: the closed flags agree with
  -- the channels, no channel holds more than its capacity, and a subscription in the map is not
  -- closed.
  pub run_ops-safe :
      (os : List (Op P)) (b : Bus P) → BusOk b → (c : Bus P) × ((run_ops os b ≡ some c) × BusOk c)
  unfolding run_ops
  run_ops-safe [] b ok = (b, (refl, ok))
  run_ops-safe (o ∷ os) b ok =
      let (c, (here, okc)) = apply_op-safe o b ok in
      let (d, (there, okd)) = run_ops-safe os c okc in (d, (rw (here, run_ops) there, okd))
