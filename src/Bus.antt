-- ===== src/Bus.antt =====
-- eventbus/bus.go: subscriptions and the event bus. A method's result is `none` where the Go code
-- panics. A lock-protected or atomic part of a method is one step.
pub mod Events
pub mod Ids
pub mod Safety
pub mod Order
pub mod Delivery
pub mod Race
mod Examples
use hyper_gnomon.Base.{
  ℕ, zero, suc, ◌+◌, ◌/◌, ◌%◌, ◌^◌, List, [], ◌∷◌, ◌++◌, Bool, true, false, not, ◌&&◌, Option, none,
  some,
}
use hyper_gnomon.Base.{ltb, leb, length, get_elem?, if◌then◌else◌}
use hyper_gnomon.Base.Int.{ℤ, pos, negsuc, leb_ℤ, pos_part}
use hyper_gnomon.Base.Texts.{Bytes, bytes_eq, text}
use hyper_gnomon.Chan.{Chan, Sent, sent, full, send_panics, Received, got, would_block, drained}
use hyper_gnomon.Chan.{make, try_send, receive, close}
use hyper_gnomon.Bus.Events.{EventType, Event, Filter, match_event}

abbrev pub sub_chan_buffer : ℕ
sub_chan_buffer = 256

-- A 64-bit counter, as its bit pattern: `Add(1)` wraps.
abbrev pub add_one : ℕ → ℕ
add_one n = (n + 1) % 2 ^ 64

-- The characters of `strconv.FormatUint(n, 36)`, lowest last. A uint64 has 13 of them at most.
abbrev pub digit36 : ℕ → ℕ
digit36 d = if ltb d 10 then 48 + d else 87 + d

unfoldable pub format_uint36 : ℕ → ℕ → Bytes
format_uint36 zero n = []
format_uint36 (suc f) n =
    let front = format_uint36 f (n / 36) in
    if ltb n 36 then digit36 n ∷ [] else front ++ (digit36 (n % 36) ∷ [])

unfoldable pub sub_id : ℕ → Bytes
unfolding format_uint36
sub_id n = text "s_" ++ format_uint36 13 n

-- `subscription`. The bus keeps every one that it made; `registered` says that the map `subs` has
-- it under its id.
pub record Subscription (P : Type 0) : Type 0 where
  pub id : Bytes
  pub filter : Filter
  pub ch : Chan (Event P)
  pub closed : Bool
  pub dropped : ℕ
  pub registered : Bool

pub record Bus (P : Type 0) : Type 0 where
  pub input : Chan (Event P)
  pub subs : List (Subscription P)
  pub seq : ℕ
  pub closed : Bool
  pub publish_count : ℕ
  pub dropped_count : ℕ

-- What one round of `Run` does: it waits, goes on with the next round, or returns.
pub data Round (P : Type 0) : Type 0 where
  waits : Round P
  goes_on : Bus P → Round P
  returns : Bus P → Round P

module _ {P : Type 0} where
  unfoldable pub sub_try_send : Event P → Subscription P → Option (Subscription P)
  sub_try_send e s = if s.closed then some s else elim (try_send e s.ch) [
    | sent ch ↦ some (record s { ch = ch })
    | full ↦ some (record s { dropped = add_one s.dropped })
    | send_panics ↦ none
  ]

  unfoldable pub sub_close : Subscription P → Option (Subscription P)
  sub_close s =
      if s.closed
      then some s
      else elim (close s.ch) [ none ↦ none | some ch ↦ some (record s { closed = true; ch = ch }) ]

  unfoldable pub new : ℤ → Bus P
  new buffer = record {
    input = make (if leb_ℤ buffer (pos 0) then 1024 else pos_part buffer);
    subs = [];
    seq = 0;
    closed = false;
    publish_count = 0;
    dropped_count = 0;
  }

  -- The send of `Publish`, once it has found the bus open.
  unfoldable pub publish_send : Event P → Bus P → Option (Bus P)
  publish_send e b = elim (try_send e b.input) [
    | sent ch ↦ some (record b { input = ch; publish_count = add_one b.publish_count })
    | full ↦ some (record b { dropped_count = add_one b.dropped_count })
    | send_panics ↦ none
  ]

  unfoldable pub publish : Event P → Bus P → Option (Bus P)
  publish e b = if b.closed then some b else publish_send e b

  -- `subs.Delete(id)`.
  abbrev pub delete_id : Bytes → List (Subscription P) → List (Subscription P)
  delete_id id [] = []
  delete_id id (s ∷ ss) =
      (if bytes_eq s.id id then record s { registered = false } else s) ∷ delete_id id ss

  -- `subs.Store(sub.id, sub)` of a new subscription takes the place of one with the same id.
  unfoldable pub subscribe : Filter → Bus P → Bus P
  subscribe f b =
      let n = add_one b.seq in
      record b {
        seq = n;
        subs =
            delete_id (sub_id n) b.subs
            ++ (record {
              id = sub_id n;
              filter = f;
              ch = make sub_chan_buffer;
              closed = false;
              dropped = 0;
              registered = true;
            }
                ∷ []);
      }

  -- Applies a step that may panic to one subscription, or to all.
  unfoldable pub update_sub :
      (Subscription P → Option (Subscription P))
      → ℕ
      → List (Subscription P)
      → Option (List (Subscription P))
  update_sub f i [] = some []
  update_sub f zero (s ∷ ss) = elim (f s) [ none ↦ none | some t ↦ some (t ∷ ss) ]
  update_sub f (suc i) (s ∷ ss) = elim (update_sub f i ss) [ none ↦ none | some ts ↦ some (s ∷ ts) ]

  unfoldable pub each_sub :
      (Subscription P → Option (Subscription P))
      → List (Subscription P)
      → Option (List (Subscription P))
  each_sub f [] = some []
  each_sub f (s ∷ ss) = elim (f s) [
    | none ↦ none
    | some t ↦ elim (each_sub f ss) [ none ↦ none | some ts ↦ some (t ∷ ts) ]
  ]

  -- `cancel` of the `i`-th subscription that was made.
  unfoldable pub cancel : ℕ → Bus P → Option (Bus P)
  cancel i b = elim (get_elem? b.subs i) [
    | none ↦ some b
    | some s ↦ elim (update_sub sub_close i (delete_id s.id b.subs)) [
      | none ↦ none
      | some subs ↦ some (record b { subs = subs })
    ]
  ]

  -- The body of the `Range` over an event.
  unfoldable pub forward : Event P → Subscription P → Option (Subscription P)
  forward e s =
      if not s.registered
      then some s
      else if not (match_event s.filter e)
      then some s
      else sub_try_send e s

  -- The body of the `Range` at the end: `cancel` of a subscription that is in the map.
  unfoldable pub cancel_registered : Subscription P → Option (Subscription P)
  cancel_registered s =
      if not s.registered then some s else sub_close (record s { registered = false })

  unfoldable pub run_round : Bus P → Option (Round P)
  run_round b = elim (receive b.input) [
    | would_block ↦ some waits
    | drained ↦ elim (each_sub cancel_registered b.subs) [
      | none ↦ none
      | some subs ↦ some (returns (record b { subs = subs }))
    ]
    | got e ch ↦ elim (each_sub (forward e) b.subs) [
      | none ↦ none
      | some subs ↦ some (goes_on (record b { input = ch; subs = subs }))
    ]
  ]

  -- `Close`: the swap and the close of the channel.
  unfoldable pub close_bus : Bus P → Option (Bus P)
  close_bus b = if b.closed then some b else elim (close b.input) [
    | none ↦ none
    | some ch ↦ some (record b { closed = true; input = ch })
  ]

  -- A subscriber takes the next event from its channel.
  unfoldable pub take_event : ℕ → Bus P → Option (Event P × Bus P)
  take_event i b = elim (get_elem? b.subs i) [
    | none ↦ none
    | some s ↦ elim (receive s.ch) [
      | would_block ↦ none
      | drained ↦ none
      | got e ch ↦ elim (update_sub (λ t. some (record t { ch = ch })) i b.subs) [
        | none ↦ none
        | some subs ↦ some (e, record b { subs = subs })
      ]
    ]
  ]

  -- `Dropped` and `SubscriberCount` read the map.
  abbrev pub dropped_in : Bytes → List (Subscription P) → ℕ
  dropped_in id [] = 0
  dropped_in id (s ∷ ss) = if s.registered && bytes_eq s.id id then s.dropped else dropped_in id ss

  abbrev pub dropped : Bytes → Bus P → ℕ
  dropped id b = dropped_in id b.subs

  abbrev pub count_registered : List (Subscription P) → ℕ
  count_registered [] = 0
  count_registered (s ∷ ss) = (if s.registered then 1 else 0) + count_registered ss

  abbrev pub subscriber_count : Bus P → ℕ
  subscriber_count b = count_registered b.subs

-- What the goroutines that share a bus do to it.
pub data Op (P : Type 0) : Type 0 where
  op_publish : Event P → Op P
  op_subscribe : Filter → Op P
  op_cancel : ℕ → Op P
  op_round : Op P
  op_take : ℕ → Op P
  op_close : Op P

module _ {P : Type 0} where
  abbrev pub after_round : Bus P → Option (Round P) → Option (Bus P)
  after_round b none = none
  after_round b (some waits) = some b
  after_round b (some (goes_on c)) = some c
  after_round b (some (returns c)) = some c

  abbrev pub after_take : Bus P → Option (Event P × Bus P) → Bus P
  after_take b none = b
  after_take b (some (e, c)) = c

  unfoldable pub apply_op : Op P → Bus P → Option (Bus P)
  apply_op (op_publish e) b = publish e b
  apply_op (op_subscribe f) b = some (subscribe f b)
  apply_op (op_cancel i) b = cancel i b
  apply_op op_round b = after_round b (run_round b)
  apply_op (op_take i) b = some (after_take b (take_event i b))
  apply_op op_close b = close_bus b

  -- The operations in the order in which they take effect.
  unfoldable pub run_ops : List (Op P) → Bus P → Option (Bus P)
  run_ops [] b = some b
  run_ops (o ∷ os) b = elim (apply_op o b) [ none ↦ none | some c ↦ run_ops os c ]
