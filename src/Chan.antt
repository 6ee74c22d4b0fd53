-- ===== src/Chan.antt =====
-- Go's buffered channels, as the event bus and the connection pool use them.
pub mod Laws
use hyper_gnomon.Base.{ℕ, List, [], ◌∷◌, ◌++◌, Bool, true, false, Option, none, some}
use hyper_gnomon.Base.{length, ltb, if◌then◌else◌}

pub record Chan (A : Type 0) : Type 0 where
  pub buffer : List A
  pub capacity : ℕ
  pub is_closed : Bool

-- What a `select` with a send and a default does: it sends, takes the default, or panics, since
-- the channel is closed.
pub data Sent (A : Type 0) : Type 0 where
  sent : Chan A → Sent A
  full : Sent A
  send_panics : Sent A

-- What a receive finds: a value, nothing yet, or a closed channel without values.
pub data Received (A : Type 0) : Type 0 where
  got : A → Chan A → Received A
  would_block : Received A
  drained : Received A

module _ {A : Type 0} where
  unfoldable pub make : ℕ → Chan A
  make n = record { buffer = []; capacity = n; is_closed = false }

  unfoldable pub try_send : A → Chan A → Sent A
  try_send x c =
      if c.is_closed
      then send_panics
      else if ltb (length c.buffer) c.capacity
      then sent (record c { buffer = c.buffer ++ (x ∷ []) })
      else full

  unfoldable pub receive : Chan A → Received A
  receive c = elim c.buffer [
    | [] ↦ if c.is_closed then drained else would_block
    | x ∷ xs ↦ got x (record c { buffer = xs })
  ]

  -- Closing a closed channel panics.
  unfoldable pub close : Chan A → Option (Chan A)
  close c = if c.is_closed then none else some (record c { is_closed = true })
