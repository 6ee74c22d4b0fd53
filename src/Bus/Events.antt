-- ===== src/Bus/Events.antt =====
-- eventbus/bus.go: event types, events and filters.
pub mod Laws
use hyper_gnomon.Base.{ℕ, List, [], ◌∷◌, Bool, true, false, not, ◌&&◌, if◌then◌else◌, ◌==◌}
use hyper_gnomon.Base.Int.{ℤ}
use hyper_gnomon.Base.Texts.{Bytes, bytes_eq, is_empty, text}

-- An `EventType` is a uint8.
abbrev pub EventType : Type 0
EventType = ℕ

abbrev pub event_install : EventType
event_install = 1

abbrev pub event_invoke : EventType
event_invoke = 2

abbrev pub event_var_change : EventType
event_var_change = 3

abbrev pub event_reorg : EventType
event_reorg = 4

abbrev pub event_safe : EventType
event_safe = 5

abbrev pub event_class_match : EventType
event_class_match = 6

-- `EventType.String`.
unfoldable pub event_name : EventType → Bytes
event_name t =
    if t == event_install
    then text "install"
    else if t == event_invoke
    then text "invoke"
    else if t == event_var_change
    then text "var_change"
    else if t == event_reorg
    then text "reorg"
    else if t == event_safe
    then text "safe"
    else if t == event_class_match
    then text "class_match"
    else text "unknown"

unfoldable pub parse_event_type : Bytes → EventType
parse_event_type s =
    if bytes_eq s (text "install")
    then event_install
    else if bytes_eq s (text "invoke")
    then event_invoke
    else if bytes_eq s (text "var_change")
    then event_var_change
    else if bytes_eq s (text "reorg")
    then event_reorg
    else if bytes_eq s (text "safe")
    then event_safe
    else if bytes_eq s (text "class_match")
    then event_class_match
    else 0

-- The payload's type is a parameter: the bus does not look at it.
pub record Event (P : Type 0) : Type 0 where
  pub type : EventType
  pub height : ℤ
  pub safe_height : ℤ
  pub scid : Bytes
  pub class : Bytes
  pub tags : List Bytes
  pub owner : Bytes
  pub sender : Bytes
  pub entrypoint : Bytes
  pub speculative : Bool
  pub payload : P

-- `events` is a set of event types, of which only membership and emptiness count.
pub record Filter : Type 0 where
  pub events : List EventType
  pub scid : Bytes
  pub owner : Bytes
  pub sender : Bytes
  pub class : Bytes
  pub code_contains : Bytes
  pub include_speculative : Bool

abbrev pub has_type : EventType → List EventType → Bool
has_type t [] = false
has_type t (u ∷ us) = if t == u then true else has_type t us

abbrev pub is_nil : List EventType → Bool
is_nil [] = true
is_nil (t ∷ ts) = false

-- A field that the filter sets has to be the event's.
abbrev pub rejects : Bytes → Bytes → Bool
rejects wanted actual = not (is_empty wanted) && not (bytes_eq wanted actual)

module _ {P : Type 0} where
  unfoldable pub match_event : Filter → Event P → Bool
  match_event f e =
      if e.speculative && not f.include_speculative
      then false
      else if not (is_nil f.events) && not (has_type e.type f.events)
      then false
      else if rejects f.scid e.scid
      then false
      else if rejects f.owner e.owner
      then false
      else if rejects f.sender e.sender
      then false
      else if rejects f.class e.class
      then false
      else true
