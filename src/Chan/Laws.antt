-- ===== src/Chan/Laws.antt =====
-- What a send, a receive and a close do to a channel.
use hyper_gnomon.Base.{◌≤◌, ◌<◌, ◌≡◌, refl, ◌⊎◌, inl, inr, List, [], ◌∷◌, ◌++◌, true, false, some}
use hyper_gnomon.Base.{length, ltb, ltb→lt, not-ltb→le, Bool-cases}
use hyper_gnomon.Chan.{Chan, sent, full, send_panics, got, would_block, drained}
use hyper_gnomon.Chan.{try_send, receive, close}

module _ {A : Type 0} where
  List-cases : (xs : List A) → (xs ≡ []) ⊎ ((y : A) × (ys : List A) × (xs ≡ y ∷ ys))
  List-cases [] = inl refl
  List-cases (y ∷ ys) = inr (y, ys, refl)

  abbrev pub IsBounded : Chan A → Type 0
  IsBounded c = length c.buffer ≤ c.capacity

  -- On an open channel a send appends, or the channel is full.
  pub try_send_cases :
      (x : A) (c : Chan A)
      → c.is_closed ≡ false
      → ((try_send x c ≡ sent (record c { buffer = c.buffer ++ (x ∷ []) }))
          × (length c.buffer < c.capacity))
        ⊎ ((try_send x c ≡ full) × (c.capacity ≤ length c.buffer))
  unfolding try_send
  try_send_cases x c live = elim (Bool-cases (ltb (length c.buffer) c.capacity)) [
    | inl room ↦ inl (rw live (rw room refl), ltb→lt (length c.buffer) c.capacity room)
    | inr less ↦ inr (rw live (rw less refl), not-ltb→le (length c.buffer) c.capacity less)
  ]

  pub try_send-closed : (x : A) (c : Chan A) → c.is_closed ≡ true → try_send x c ≡ send_panics
  unfolding try_send
  try_send-closed x c shut = rw shut refl

  pub receive_cases :
      (c : Chan A)
      → ((x : A) × (xs : List A) × (c.buffer ≡ x ∷ xs)
          × (receive c ≡ got x (record c { buffer = xs })))
        ⊎ (((c.buffer ≡ []) × (c.is_closed ≡ false) × (receive c ≡ would_block))
            ⊎ ((c.buffer ≡ []) × (c.is_closed ≡ true) × (receive c ≡ drained)))
  unfolding receive
  receive_cases c = elim (List-cases c.buffer) [
    | inr (x, xs, e) ↦ inl (x, xs, e, rw e refl)
    | inl e ↦ elim (Bool-cases c.is_closed) [
      | inl shut ↦ inr (inr (e, shut, rw e (rw shut refl)))
      | inr live ↦ inr (inl (e, live, rw e (rw live refl)))
    ]
  ]

  pub close-live :
      (c : Chan A) → c.is_closed ≡ false → close c ≡ some (record c { is_closed = true })
  unfolding close
  close-live c live = rw live refl
