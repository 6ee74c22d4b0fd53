-- ===== src/Bus/Safety/Subs.antt =====
-- A subscription stays well-formed under a send, a close and the loops over all subscriptions.
use hyper_gnomon.Base.{
  ℕ, zero, suc, ◌≤◌, ◌<◌, ◌≡◌, refl, sym, ap, subst, ◌∙◌, ◌⊎◌, inl, inr, List, [], ◌∷◌, ◌++◌, true,
  false, not, Option, some, arith,
}
use hyper_gnomon.Base.{if_yes, if_no, length, length-append, get_elem?, All, Bool-cases}
use mathlib.Core.Bool.{false≢true}
use hyper_gnomon.Base.Texts.{Bytes, bytes_eq}
use hyper_gnomon.Chan.Laws.{try_send_cases, close-live}
use hyper_gnomon.Bus.{
  Subscription, sub_chan_buffer, sub_try_send, sub_close, delete_id, update_sub, each_sub, forward,
  cancel_registered, add_one,
}
use hyper_gnomon.Bus.Events.{Event, match_event}

module _ {P : Type 0} where
  -- The flag `closed` is the channel's, the channel holds 256 events at most, and a subscription
  -- that is in the map is not closed.
  pub record SubOk (s : Subscription P) : Type 0 where
    pub agree : s.ch.is_closed ≡ s.closed
    pub room : length s.ch.buffer ≤ sub_chan_buffer
    pub capacity : s.ch.capacity ≡ sub_chan_buffer
    pub live : s.registered ≡ true → s.closed ≡ false

  -- A step on one subscription that neither panics nor breaks it.
  abbrev pub IsSafe : (Subscription P → Option (Subscription P)) → Type 0
  IsSafe f = (s : Subscription P) → SubOk s → (t : Subscription P) × ((f s ≡ some t) × SubOk t)

  -- What a send to a subscription that is not closed does.
  pub sub_try_send_cases :
      (e : Event P) (s : Subscription P)
      → SubOk s
      → s.closed ≡ false
      → ((sub_try_send e s
            ≡ some (record s { ch = record s.ch { buffer = s.ch.buffer ++ (e ∷ []) } }))
          × (length s.ch.buffer < sub_chan_buffer))
        ⊎ ((sub_try_send e s ≡ some (record s { dropped = add_one s.dropped }))
            × (length s.ch.buffer ≡ sub_chan_buffer))
  unfolding sub_try_send
  sub_try_send_cases e s ok live = elim (try_send_cases e s.ch (ok.agree ∙ live)) [
    | inl (done, less) ↦ inl (if_no s.closed _ _ live ∙ rw done refl, omega (arith, ok.capacity))
    | inr (done, more) ↦
        inr (if_no s.closed _ _ live ∙ rw done refl, omega (arith, ok.capacity, ok.room))
  ]

  pub sub_try_send-IsSafe : (e : Event P) → IsSafe (sub_try_send e)
  unfolding sub_try_send
  sub_try_send-IsSafe e s ok = elim (Bool-cases s.closed) [
    | inl shut ↦ (s, (if_yes s.closed _ _ shut, ok))
    | inr live ↦ elim (sub_try_send_cases e s ok live) [
      | inl (done, less) ↦ (
        _,
        (
          done,
          record {
            agree = ok.agree;
            room = omega (arith, length-append s.ch.buffer (e ∷ []));
            capacity = ok.capacity;
            live = ok.live;
          },
        ),
      )
      | inr (done, more) ↦ (
        _,
        (done, record { agree = ok.agree; room = ok.room; capacity = ok.capacity; live = ok.live }),
      )
    ]
  ]

  -- A subscription that has left the map may be closed, and closing it twice does no harm.
  pub sub_close-safe :
      (s : Subscription P)
      → SubOk s
      → s.registered ≡ false
      → (t : Subscription P) × ((sub_close s ≡ some t) × (SubOk t × (t.closed ≡ true)))
  unfolding sub_close
  sub_close-safe s ok out = elim (Bool-cases s.closed) [
    | inl shut ↦ (s, (if_yes s.closed _ _ shut, (ok, shut)))
    | inr live ↦ (
      record s { closed = true; ch = record s.ch { is_closed = true } },
      (
        if_no s.closed _ _ live ∙ rw (close-live s.ch (ok.agree ∙ live)) refl,
        (
          record {
            agree = refl;
            room = ok.room;
            capacity = ok.capacity;
            live = λ r. absurd (false≢true (sym out ∙ r));
          },
          refl,
        ),
      ),
    )
  ]

  pub unregister : (s : Subscription P) → SubOk s → SubOk (record s { registered = false })
  unregister s o = record {
    agree = o.agree;
    room = o.room;
    capacity = o.capacity;
    live = λ r. absurd (false≢true r);
  }

  pub delete_id-SubOk :
      (id : Bytes) (ss : List (Subscription P)) → All SubOk ss → All SubOk (delete_id id ss)
  delete_id-SubOk id [] ok = ok
  delete_id-SubOk id (s ∷ ss) (o, os) = (
    elim (Bool-cases (bytes_eq s.id id)) [
      | inl same ↦ subst SubOk (sym (if_yes (bytes_eq s.id id) _ _ same)) (unregister s o)
      | inr other ↦ subst SubOk (sym (if_no (bytes_eq s.id id) _ _ other)) o
    ],
    delete_id-SubOk id ss os,
  )

  pub forward-IsSafe : (e : Event P) → IsSafe (forward e)
  unfolding forward
  forward-IsSafe e s ok = elim (Bool-cases s.registered) [
    | inr out ↦ (s, (if_yes (not s.registered) _ _ (ap not out), ok))
    | inl r ↦ elim (Bool-cases (match_event s.filter e)) [
      | inr other ↦ (
        s,
        (
          if_no (not s.registered) _ _ (ap not r)
              ∙ if_yes (not (match_event s.filter e)) _ _ (ap not other),
          ok,
        ),
      )
      | inl same ↦
          let (t, (done, o)) = sub_try_send-IsSafe e s ok in
          (
            t,
            (
              if_no (not s.registered) _ _ (ap not r)
                  ∙ if_no (not (match_event s.filter e)) _ _ (ap not same)
                  ∙ done,
              o,
            ),
          )
    ]
  ]

  pub cancel_registered-IsSafe : IsSafe cancel_registered
  unfolding cancel_registered
  cancel_registered-IsSafe s ok = elim (Bool-cases s.registered) [
    | inr out ↦ (s, (if_yes (not s.registered) _ _ (ap not out), ok))
    | inl r ↦
        let (t, (done, (o, shut))) =
          sub_close-safe (record s { registered = false }) (unregister s ok) refl in
        (t, (if_no (not s.registered) _ _ (ap not r) ∙ done, o))
  ]

  pub each_sub-safe :
      (f : Subscription P → Option (Subscription P))
      → IsSafe f
      → (ss : List (Subscription P)) → All SubOk ss
      → (ts : List (Subscription P)) × ((each_sub f ss ≡ some ts) × All SubOk ts)
  unfolding each_sub
  each_sub-safe f safe [] ok = ([], (refl, ok))
  each_sub-safe f safe (s ∷ ss) (o, os) =
      let (t, (here, o')) = safe s o in
      let (ts, (there, os')) = each_sub-safe f safe ss os in
      (t ∷ ts, (rw (here, each_sub) (rw there refl), (o', os')))

  pub update_sub-safe :
      (f : Subscription P → Option (Subscription P)) (i : ℕ) (ss : List (Subscription P))
      → All SubOk ss
      → ((s : Subscription P)
          → get_elem? ss i ≡ some s
          → SubOk s
          → (t : Subscription P) × ((f s ≡ some t) × SubOk t))
      → (ts : List (Subscription P)) × ((update_sub f i ss ≡ some ts) × All SubOk ts)
  unfolding update_sub
  update_sub-safe f i [] ok safe = ([], (refl, ok))
  update_sub-safe f zero (s ∷ ss) (o, os) safe =
      let (t, (here, o')) = safe s refl o in (t ∷ ss, (rw (here, update_sub) refl, (o', os)))
  update_sub-safe f (suc i) (s ∷ ss) (o, os) safe =
      let (ts, (there, os')) = update_sub-safe f i ss os safe in
      (s ∷ ts, (rw (there, update_sub) refl, (o, os')))
