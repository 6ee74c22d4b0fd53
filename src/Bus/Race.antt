-- ===== src/Bus/Race.antt =====
-- `Publish` loads `closed` and then sends: a `Close` between the two.
use hyper_gnomon.Base.{if◌then◌else◌, ◌≡◌, refl, true, false, Option, none, some}
use hyper_gnomon.Chan.Laws.{try_send-closed, close-live}
use hyper_gnomon.Base.{if_no, ◌∙◌}
use hyper_gnomon.Bus.{Bus, publish_send, close_bus}
use hyper_gnomon.Bus.Safety.{BusOk}
use hyper_gnomon.Bus.Events.{Event}

module _ {P : Type 0} where
  -- What the goroutines do, in this order: one finds the bus open in `Publish`, another one runs
  -- `Close` to its end, and the first one sends.
  unfoldable pub close_inside_publish : Event P → Bus P → Option (Bus P)
  close_inside_publish e b =
      if b.closed then some b else elim (close_bus b) [ none ↦ none | some c ↦ publish_send e c ]

  -- On every well-formed bus that is open: if Close runs to its end between the check and the send
  -- of Publish, the send panics.
  pub close_inside_publish-panics :
      (e : Event P) (b : Bus P) → BusOk b → b.closed ≡ false → close_inside_publish e b ≡ none
  unfolding close_inside_publish close_bus publish_send
  close_inside_publish-panics e b ok live = if_no b.closed _ _ live ∙ rw closes sends
    where
      closes :
          close_bus b
          ≡ some (record b { closed = true; input = record b.input { is_closed = true } })
      closes = if_no b.closed _ _ live ∙ rw (close-live b.input (ok.agree ∙ live)) refl

      sends :
          publish_send e (record b { closed = true; input = record b.input { is_closed = true } })
          ≡ none
      sends = rw (try_send-closed e (record b.input { is_closed = true }) refl, publish_send) refl
