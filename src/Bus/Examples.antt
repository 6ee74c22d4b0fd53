-- ===== src/Bus/Examples.antt =====
-- The event bus's theorems at a bus with two subscribers.
use hyper_gnomon.Base.{
  ℕ, ◌≡◌, refl, ◌↔◌, arith, List, [], ◌∷◌, ◌++◌, true, false, none, some, get_elem?, All,
}
use hyper_gnomon.Base.Int.{pos}
use hyper_gnomon.Base.Texts.{text}
use hyper_gnomon.Chan.{receive, try_send, close}
use hyper_gnomon.Bus.{
  Bus, Subscription, Op, op_publish, op_subscribe, op_cancel, op_round, op_take, op_close, new,
  run_ops, apply_op, run_round, each_sub, forward, cancel_registered, sub_try_send, sub_close,
  goes_on, returns,
}
use hyper_gnomon.Bus.Events.{Event, Filter, match_event}
use hyper_gnomon.Bus.Events.Laws.{Passes, match_event-Passes}
use hyper_gnomon.Bus.Safety.{BusOk, new-BusOk, run_ops-safe}
use hyper_gnomon.Bus.Order.{log, accepted_by, forwarded_by, run_ops-ring}
use hyper_gnomon.Bus.Delivery.{Delivered, round-Delivered, round-ends}
use hyper_gnomon.Bus.Race.{close_inside_publish, close_inside_publish-panics}

abbrev installed : ℕ → Event ℕ
installed n = record {
  type = 1;
  height = pos n;
  safe_height = pos 0;
  scid = text "ab";
  class = text "TELA";
  tags = [];
  owner = text "dero1qy";
  sender = [];
  entrypoint = [];
  speculative = false;
  payload = n;
}

abbrev all_events : Filter
all_events = record {
  events = [];
  scid = [];
  owner = [];
  sender = [];
  class = [];
  code_contains = [];
  include_speculative = false;
}

abbrev reorgs : Filter
reorgs = record all_events { events = 4 ∷ [] }

match_event_example : (match_event reorgs (installed 5) ≡ true) ↔ Passes reorgs (installed 5)
match_event_example = match_event-Passes reorgs (installed 5)

abbrev quiet : Bus ℕ
quiet = new (pos 4)

abbrev session : List (Op ℕ)
session =
    op_subscribe all_events
    ∷ (op_publish (installed 1)
        ∷ (op_publish (installed 2)
            ∷ (op_round
                ∷ (op_take 0
                    ∷ (op_close ∷ (op_publish (installed 3) ∷ (op_cancel 0 ∷ (op_round ∷ []))))))))

run_ops-safe_example : (c : Bus ℕ) × ((run_ops session quiet ≡ some c) × BusOk c)
run_ops-safe_example = run_ops-safe session quiet (new-BusOk (pos 4))

close_inside_publish_example : close_inside_publish (installed 1) quiet ≡ none
unfolding new
close_inside_publish_example =
    close_inside_publish-panics (installed 1) quiet (new-BusOk (pos 4)) refl

abbrev listening : Subscription ℕ
listening = record {
  id = text "s_1";
  filter = all_events;
  ch = record { buffer = []; capacity = 256; is_closed = false };
  closed = false;
  dropped = 0;
  registered = true;
}

abbrev busy : Bus ℕ
busy = record {
  input = record { buffer = installed 1 ∷ []; capacity = 4; is_closed = false };
  subs = listening ∷ [];
  seq = 1;
  closed = false;
  publish_count = 1;
  dropped_count = 0;
}

abbrev delivered : Bus ℕ
delivered = record busy {
  input = record { buffer = []; capacity = 4; is_closed = false };
  subs =
      record listening {
        ch = record { buffer = installed 1 ∷ []; capacity = 256; is_closed = false };
      }
      ∷ [];
}

busy-BusOk : BusOk busy
busy-BusOk = record {
  agree = refl;
  bounded = omega arith;
  subs = (record { agree = refl; room = omega arith; capacity = refl; live = λ r. refl }, _);
}

busy_round : run_round busy ≡ some (goes_on delivered)
unfolding run_round receive each_sub forward match_event sub_try_send try_send
busy_round = refl

round-Delivered_example :
    (e : Event ℕ) × ((busy.input.buffer ≡ e ∷ delivered.input.buffer)
      × ((t : Subscription ℕ) × ((get_elem? delivered.subs 0 ≡ some t) × Delivered e listening t)))
round-Delivered_example = round-Delivered busy delivered busy-BusOk busy_round 0 listening refl

one_round : run_ops (op_round ∷ []) busy ≡ some delivered
unfolding run_ops apply_op run_round receive each_sub forward match_event sub_try_send try_send
one_round = refl

run_ops-ring_example :
    busy.input.buffer ++ log accepted_by (op_round ∷ []) busy
    ≡ log forwarded_by (op_round ∷ []) busy ++ delivered.input.buffer
run_ops-ring_example = run_ops-ring (op_round ∷ []) busy busy-BusOk delivered one_round

abbrev ending : Bus ℕ
ending = record busy {
  input = record { buffer = []; capacity = 4; is_closed = true };
  closed = true;
}

abbrev ended : Bus ℕ
ended = record ending {
  subs =
      record listening {
        ch = record { buffer = []; capacity = 256; is_closed = true };
        closed = true;
        registered = false;
      }
      ∷ [];
}

ending-BusOk : BusOk ending
ending-BusOk = record {
  agree = refl;
  bounded = omega arith;
  subs = (record { agree = refl; room = omega arith; capacity = refl; live = λ r. refl }, _);
}

ending_round : run_round ending ≡ some (returns ended)
unfolding run_round receive each_sub cancel_registered sub_close close
ending_round = refl

round-ends_example :
    ((ending.closed ≡ true) × (ending.input.buffer ≡ []))
    × All (λ (t : Subscription ℕ). t.registered ≡ false) ended.subs
round-ends_example = round-ends ending ended ending-BusOk ending_round
