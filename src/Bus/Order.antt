-- ===== src/Bus/Order.antt =====
-- The central ring hands its events on in the order in which they were accepted, none lost and none
-- twice; and what a round does to each subscription.
use hyper_gnomon.Base.{ℕ, ◌≡◌, ◌≢◌, refl, sym, ap, ◌∙◌, inl, inr}
use hyper_gnomon.Base.{
  List, [], ◌∷◌, ◌++◌, append-nil, append_assoc, true, not, ◌&&◌, Option, none, some,
}
use hyper_gnomon.Base.{
  length, take, get_elem?, Option-cases, Bool-cases, ltb, lt→ltb, le→not-ltb, if◌then◌else◌, if_yes,
  if_no,
}
use mathlib.Core.Option.{some-injective}
use hyper_gnomon.Chan.{Chan}
use hyper_gnomon.Chan.Laws.{try_send_cases, receive_cases, close-live}
use hyper_gnomon.Bus.{
  Subscription, Bus, publish, publish_send, subscribe, cancel, run_round, close_bus, take_event,
  add_one,
}
use hyper_gnomon.Bus.{delete_id, update_sub, forward, cancel_registered, sub_close}
use hyper_gnomon.Bus.{
  Op, op_publish, op_subscribe, op_cancel, op_round, op_take, op_close, apply_op, run_ops,
  after_round, after_take,
}
use hyper_gnomon.Bus.Events.{Event}
use hyper_gnomon.Bus.Safety.{BusOk, apply_op-safe, run_round-event, run_round-waits, run_round-end}
use hyper_gnomon.Bus.Safety.Subs.{each_sub-safe, forward-IsSafe, cancel_registered-IsSafe}

module _ {P : Type 0} where
  -- The event that an operation puts into the central ring, if it does.
  abbrev pub accepted_by : Op P → Bus P → List (Event P)
  accepted_by (op_publish e) b =
      if not b.closed && ltb (length b.input.buffer) b.input.capacity then e ∷ [] else []
  accepted_by o b = []

  -- The event that an operation takes out of it.
  abbrev pub forwarded_by : Op P → Bus P → List (Event P)
  forwarded_by op_round b = take 1 b.input.buffer
  forwarded_by o b = []

  -- What a run of operations notes down.
  pub log : (Op P → Bus P → List (Event P)) → List (Op P) → Bus P → List (Event P)
  log f [] b = []
  log f (o ∷ os) b = f o b ++ elim (apply_op o b) [ none ↦ [] | some c ↦ log f os c ]

  -- The two results of one call.
  pin : (x : Option (Bus P)) (b c : Bus P) → x ≡ some b → x ≡ some c → b ≡ c
  pin x b c p q = some-injective b c (sym p ∙ q)

  absent : (x : Option (Bus P)) (c : Bus P) → x ≡ none → x ≢ some c
  absent x c p q = cc

  input_of : Bus P → Chan (Event P)
  input_of b = b.input

  buffer_of : Bus P → List (Event P)
  buffer_of b = b.input.buffer

  cancel-input : (i : ℕ) (b c : Bus P) → cancel i b ≡ some c → c.input ≡ b.input
  unfolding cancel input_of
  cancel-input i b c h = elim (Option-cases (get_elem? b.subs i)) [
    | inl e ↦ sym (ap input_of (pin (cancel i b) b c (rw (e, cancel) refl) h))
    | inr (s, e) ↦ elim (Option-cases (update_sub sub_close i (delete_id s.id b.subs))) [
      | inl bad ↦ absurd (absent (cancel i b) c (rw (e, cancel) (rw bad refl)) h)
      | inr (ts, done) ↦ sym (
          ap input_of
            (pin (cancel i b) (record b { subs = ts }) c (rw (e, cancel) (rw done refl)) h))
    ]
  ]

  close_bus-buffer :
      (b c : Bus P) → BusOk b → close_bus b ≡ some c → c.input.buffer ≡ b.input.buffer
  unfolding close_bus buffer_of
  close_bus-buffer b c ok h = elim (Bool-cases b.closed) [
    | inl shut ↦ sym (ap buffer_of (pin (close_bus b) b c (if_yes b.closed _ _ shut) h))
    | inr live ↦
        let closing : Bus P = record b {
          closed = true;
          input = record b.input { is_closed = true };
        } in
        let done : close_bus b ≡ some closing =
          if_no b.closed _ _ live ∙ rw (close-live b.input (ok.agree ∙ live)) refl in
        sym (ap buffer_of (pin (close_bus b) closing c done h))
  ]

  take_event-input : (i : ℕ) (b : Bus P) → (after_take b (take_event i b)).input ≡ b.input
  unfolding take_event
  take_event-input i b = elim (Option-cases (get_elem? b.subs i)) [
    | inl e ↦ after none (rw (e, take_event) refl) refl
    | inr (s, e) ↦ elim (receive_cases s.ch) [
      | inr (inl (empty, live, wait)) ↦ after none (rw (e, take_event) (rw wait refl)) refl
      | inr (inr (empty, shut, done)) ↦ after none (rw (e, take_event) (rw done refl)) refl
      | inl (x, xs, at, take) ↦
          let shorten : Subscription P → Option (Subscription P) =
            λ t. some (record t { ch = record s.ch { buffer = xs } }) in
          elim (Option-cases (update_sub shorten i b.subs)) [
            | inl e' ↦ after none (rw (e, take_event) (rw take (rw e' refl))) refl
            | inr (ts, e') ↦
                after (some (x, record b { subs = ts })) (rw (e, take_event) (rw take (rw e' refl)))
                  refl
          ]
    ]
  ]
    where
      after :
          (r : Option (Event P × Bus P))
          → take_event i b ≡ r
          → (after_take b r).input ≡ b.input
          → (after_take b (take_event i b)).input ≡ b.input
      after r e h = ap (λ (q : Option (Event P × Bus P)). (after_take b q).input) e ∙ h

  publish-ring :
      (e : Event P) (b c : Bus P)
      → BusOk b
      → publish e b ≡ some c
      → b.input.buffer ++ accepted_by (op_publish e) b ≡ c.input.buffer
  unfolding publish publish_send buffer_of
  publish-ring e b c ok h = elim (Bool-cases b.closed) [
    | inl shut ↦
        ap (λ (t : List (Event P)). b.input.buffer ++ t)
          (if_no (not b.closed && ltb (length b.input.buffer) b.input.capacity) _ _ (rw shut refl))
        ∙ append-nil b.input.buffer
        ∙ ap buffer_of (pin (publish e b) b c (if_yes b.closed _ _ shut) h)
    | inr live ↦ elim (try_send_cases e b.input (ok.agree ∙ live)) [
      | inl (done, less) ↦
          let next : Bus P = record b {
            input = record b.input { buffer = b.input.buffer ++ (e ∷ []) };
            publish_count = add_one b.publish_count;
          } in
          ap (λ (t : List (Event P)). b.input.buffer ++ t)
            (if_yes (not b.closed && ltb (length b.input.buffer) b.input.capacity) _ _
              (rw (live, lt→ltb (length b.input.buffer) b.input.capacity less) refl))
          ∙ ap buffer_of
              (pin (publish e b) next c (if_no b.closed _ _ live ∙ rw (done, publish_send) refl) h)
      | inr (done, more) ↦
          let next : Bus P = record b { dropped_count = add_one b.dropped_count } in
          ap (λ (t : List (Event P)). b.input.buffer ++ t)
            (if_no (not b.closed && ltb (length b.input.buffer) b.input.capacity) _ _
              (rw (live, le→not-ltb (length b.input.buffer) b.input.capacity more) refl))
          ∙ append-nil b.input.buffer
          ∙ ap buffer_of
              (pin (publish e b) next c (if_no b.closed _ _ live ∙ rw (done, publish_send) refl) h)
    ]
  ]

  round-ring :
      (b c : Bus P)
      → BusOk b
      → after_round b (run_round b) ≡ some c
      → b.input.buffer ≡ take 1 b.input.buffer ++ c.input.buffer
  unfolding buffer_of
  round-ring b c ok h = elim (receive_cases b.input) [
    | inr (inl (e, live, wait)) ↦ kept b e (ap (after_round b) (run_round-waits b wait)) refl
    | inr (inr (e, shut, done)) ↦
        let (ts, (all, oks)) =
          each_sub-safe cancel_registered cancel_registered-IsSafe b.subs ok.subs in
        kept (record b { subs = ts }) e (ap (after_round b) (run_round-end b ts done all)) refl
    | inl (x, xs, at, handed) ↦
        let (ts, (all, oks)) = each_sub-safe (forward x) (forward-IsSafe x) b.subs ok.subs in
        let next : Bus P = record b { input = record b.input { buffer = xs }; subs = ts } in
        let same : next ≡ c =
          pin (after_round b (run_round b)) next c
            (ap (after_round b)
              (run_round-event b x (record b.input { buffer = xs }) ts handed all))
            h in
        at
        ∙ ap (λ (d : Bus P). x ∷ d.input.buffer) same
        ∙ ap (λ (t : List (Event P)). take 1 t ++ c.input.buffer) (sym at)
  ]
    where
      kept :
          (d : Bus P)
          → b.input.buffer ≡ []
          → after_round b (run_round b) ≡ some d
          → b.input.buffer ≡ d.input.buffer
          → b.input.buffer ≡ take 1 b.input.buffer ++ c.input.buffer
      kept d e now same =
          same
          ∙ ap (λ (x : Bus P). x.input.buffer) (pin (after_round b (run_round b)) d c now h)
          ∙ ap (λ (t : List (Event P)). take 1 t ++ c.input.buffer) (sym e)

  apply_op-ring :
      (o : Op P) (b c : Bus P)
      → BusOk b
      → apply_op o b ≡ some c
      → b.input.buffer ++ accepted_by o b ≡ forwarded_by o b ++ c.input.buffer
  unfolding apply_op subscribe buffer_of
  apply_op-ring (op_publish e) b c ok h = publish-ring e b c ok h
  apply_op-ring (op_subscribe f) b c ok h =
      append-nil b.input.buffer ∙ ap buffer_of (some-injective (subscribe f b) c h)
  apply_op-ring (op_cancel i) b c ok h =
      append-nil b.input.buffer ∙ ap (λ (q : Chan (Event P)). q.buffer) (sym (cancel-input i b c h))
  apply_op-ring op_round b c ok h = append-nil b.input.buffer ∙ round-ring b c ok h
  apply_op-ring (op_take i) b c ok h =
      append-nil b.input.buffer
      ∙ ap (λ (q : Chan (Event P)). q.buffer) (sym (take_event-input i b))
      ∙ ap (λ (d : Bus P). d.input.buffer) (some-injective _ c h)
  apply_op-ring op_close b c ok h = append-nil b.input.buffer ∙ sym (close_bus-buffer b c ok h)

  regroup :
      (q a l f d m e : List (Event P))
      → q ++ a ≡ f ++ d
      → d ++ l ≡ m ++ e
      → q ++ (a ++ l) ≡ (f ++ m) ++ e
  regroup q a l f d m e p r =
      sym (append_assoc q a l)
      ∙ ap (λ (t : List (Event P)). t ++ l) p
      ∙ append_assoc f d l
      ∙ ap (λ (t : List (Event P)). f ++ t) r
      ∙ sym (append_assoc f m e)

  log_step :
      (f : Op P → Bus P → List (Event P)) (o : Op P) (os : List (Op P)) (b d : Bus P)
      → apply_op o b ≡ some d
      → log f (o ∷ os) b ≡ f o b ++ log f os d
  unfolding log
  log_step f o os b d here = rw (here, log) refl

  run_step :
      (o : Op P) (os : List (Op P)) (b d c : Bus P)
      → apply_op o b ≡ some d
      → run_ops (o ∷ os) b ≡ some c
      → run_ops os d ≡ some c
  unfolding run_ops
  run_step o os b d c here h = rw (here, run_ops) at h

  -- Over every run of operations on a well-formed bus, the events that waited in the central ring
  -- followed by those that it accepted are those that the fan-out took followed by those that still
  -- wait: it hands events on in the order of their publication, each once, and loses none that it
  -- accepted.
  pub run_ops-ring :
      (os : List (Op P)) (b : Bus P)
      → BusOk b
      → (c : Bus P) → run_ops os b ≡ some c
      → b.input.buffer ++ log accepted_by os b ≡ log forwarded_by os b ++ c.input.buffer
  unfolding log run_ops
  run_ops-ring [] b ok c h =
      append-nil b.input.buffer ∙ ap (λ (d : Bus P). d.input.buffer) (some-injective b c h)
  run_ops-ring (o ∷ os) b ok c h =
      let (d, (here, okd)) = apply_op-safe o b ok in
      rw (log_step accepted_by o os b d here, log_step forwarded_by o os b d here)
        (regroup b.input.buffer (accepted_by o b) (log accepted_by os d) (forwarded_by o b)
          d.input.buffer (log forwarded_by os d) c.input.buffer (apply_op-ring o b d ok here)
          (run_ops-ring os d okd c (run_step o os b d c here h)))
