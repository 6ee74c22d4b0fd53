-- ===== src/ConnPool.antt =====
-- rpc/pool.go: the pool of connections to the daemon. A client is a value of a parameter type, and
-- a `Close` of a client is noted in `shut`.
pub mod Conservation
pub mod Creation
mod Examples
use hyper_gnomon.Base.{ℕ, List, [], ◌∷◌, ◌++◌, Bool, true, false, Option, none, some, if◌then◌else◌}
use hyper_gnomon.Chan.{
  Chan, sent, full, send_panics, got, would_block, drained, make, try_send, receive,
}

pub record Pool (C : Type 0) : Type 0 where
  pub conns : Chan C
  pub size : ℕ
  pub closed : Bool
  pub shut : List C

-- What one of the goroutines of `NewPool` comes back with.
pub data Dialed (C E : Type 0) : Type 0 where
  connected : C → Dialed C E
  refused : E → Dialed C E

-- What `NewPool` returns: a pool, or the first error and what it has closed.
pub data Created (C E : Type 0) : Type 0 where
  created : Pool C → Created C E
  not_created : E → List C → Created C E

-- A `Get`: a connection, nil, or a wait.
pub data Borrowed (C : Type 0) : Type 0 where
  conn : C → Pool C → Borrowed C
  no_conn : Borrowed C
  get_blocks : Borrowed C

-- A `Put`: done, or a wait for room, while the lock is held.
pub data Returned (C : Type 0) : Type 0 where
  put_done : Pool C → Returned C
  put_blocks : Returned C

-- A `WithConn`: the function's error or none, that the pool is closed, or a wait.
pub data Used (C E : Type 0) : Type 0 where
  used : Option E → Pool C → Used C E
  pool_closed : Used C E
  use_blocks : Used C E

module _ {C : Type 0} where
  -- `Close`: the swap, the close of the channel, and the loop that closes what is left in it.
  unfoldable pub close_pool : Pool C → Pool C
  close_pool p = if p.closed then p else record p {
    closed = true;
    conns = record p.conns { buffer = []; is_closed = true };
    shut = p.shut ++ p.conns.buffer;
  }

  unfoldable pub get : Pool C → Borrowed C
  get p = elim (receive p.conns) [
    | got c ch ↦ conn c (record p { conns = ch })
    | would_block ↦ get_blocks
    | drained ↦ no_conn
  ]

  -- The send on the open channel waits where a `select` would take its default.
  unfoldable pub put : Option C → Pool C → Returned C
  put none p = put_done p
  put (some c) p =
      if p.closed
      then put_done (record p { shut = p.shut ++ (c ∷ []) })
      else elim (try_send c p.conns) [
        | sent ch ↦ put_done (record p { conns = ch })
        | full ↦ put_blocks
        | send_panics ↦ put_blocks
      ]

  -- The timer: whether it has run out when the `select` looks, and is what the `select` takes.
  unfoldable pub get_with_timeout : Bool → Pool C → Borrowed C
  get_with_timeout expired p = if expired then no_conn else get p

module _ {C E : Type 0} where
  -- The connections that were made, in the order in which they reach the channel.
  abbrev pub connections : List (Dialed C E) → List C
  connections [] = []
  connections (connected c ∷ ds) = c ∷ connections ds
  connections (refused e ∷ ds) = connections ds

  abbrev pub first_error : List (Dialed C E) → Option E
  first_error [] = none
  first_error (connected c ∷ ds) = first_error ds
  first_error (refused e ∷ ds) = some e

  -- `NewPool`, from what the `size` goroutines come back with, in the order in which they finish.
  unfoldable pub new_pool : ℕ → List (Dialed C E) → Created C E
  new_pool size ds =
      let p : Pool C = record {
        conns = record { buffer = connections ds; capacity = size; is_closed = false };
        size = size;
        closed = false;
        shut = [];
      } in
      elim (first_error ds) [ some e ↦ not_created e (close_pool p).shut | none ↦ created p ]

  abbrev pub after_put : Option E → Returned C → Used C E
  after_put r (put_done q) = used r q
  after_put r put_blocks = use_blocks

  -- `WithConn`. While the function runs it and other goroutines may use the pool.
  unfoldable pub with_conn : (C → Pool C → Option E × Pool C) → Pool C → Used C E
  with_conn fn p = elim (get p) [
    | no_conn ↦ pool_closed
    | get_blocks ↦ use_blocks
    | conn c q ↦ after_put (fn c q).0 (put (some c) (fn c q).1)
  ]
