-- ===== src/Publish/Batch.antt =====
-- indexer/publish.go: the events of a flushed batch are those that announce something in it.
use mathlib.Core.List.{Memᴰ}
use mathlib.Core.List.Memᴰ
use hyper_gnomon.Base.{inl, inr}
use hyper_gnomon.Base.Int.{ℤ}
use hyper_gnomon.Bus.Events.{Event}
use hyper_gnomon.Publish.{
  WriteBatch, Payload, install_events, invoke_events, variable_events, class_events, batch_events,
}
use hyper_gnomon.Publish.Announced.{
  IsWritten, Announces, an_install, an_invocation, a_snapshot, a_class, a_safe_height,
}
use hyper_gnomon.Publish.Parts.{
  install_events-found, install_events-published, invoke_events-found, invoke_events-published,
  variable_events-found, variable_events-published, safe_events-found, safe_events-published,
}
use hyper_gnomon.Publish.Classes.{class_events-found, class_events-published}

module _ {D : Type 0} (safe : ℤ) (e : Event (Payload D)) where
  batch_events-found :
      (b : WriteBatch D) (new_height prev : ℤ)
      → IsWritten b.installs
      → Memᴰ e (batch_events safe b new_height prev)
      → Announces safe e b new_height prev
  unfolding batch_events
  batch_events-found b new_height prev w m =
      elim (Memᴰ.append_cases (install_events safe b.installs) m) [
        | inl found ↦ an_install (install_events-found safe e b.installs w found)
        | inr m1 ↦ elim (Memᴰ.append_cases (invoke_events safe b.invocations) m1) [
          | inl found ↦ an_invocation (invoke_events-found safe e b.invocations found)
          | inr m2 ↦ elim (Memᴰ.append_cases (variable_events safe b.variables) m2) [
            | inl found ↦ a_snapshot (variable_events-found safe e b.variables found)
            | inr m3 ↦ elim (Memᴰ.append_cases (class_events safe b.classes) m3) [
              | inl found ↦ a_class (class_events-found safe e b.classes found)
              | inr found ↦ a_safe_height (safe_events-found safe e new_height prev found)
            ]
          ]
        ]
      ]

  batch_events-published :
      (b : WriteBatch D) (new_height prev : ℤ)
      → IsWritten b.installs
      → Announces safe e b new_height prev
      → Memᴰ e (batch_events safe b new_height prev)
  unfolding batch_events
  batch_events-published b new_height prev w (an_install o) =
      Memᴰ.append_left _ (install_events-published safe e b.installs w o)
  batch_events-published b new_height prev w (an_invocation o) =
      Memᴰ.append_right (install_events safe b.installs)
        (Memᴰ.append_left _ (invoke_events-published safe e b.invocations o))
  batch_events-published b new_height prev w (a_snapshot o) =
      Memᴰ.append_right (install_events safe b.installs) (
        Memᴰ.append_right (invoke_events safe b.invocations)
          (Memᴰ.append_left _ (variable_events-published safe e b.variables o)))
  batch_events-published b new_height prev w (a_class o) =
      Memᴰ.append_right (install_events safe b.installs) (
        Memᴰ.append_right (invoke_events safe b.invocations) (
          Memᴰ.append_right (variable_events safe b.variables)
            (Memᴰ.append_left _ (class_events-published safe e b.classes o))))
  batch_events-published b new_height prev w (a_safe_height o) =
      Memᴰ.append_right (install_events safe b.installs) (
        Memᴰ.append_right (invoke_events safe b.invocations) (
          Memᴰ.append_right (variable_events safe b.variables) (
            Memᴰ.append_right (class_events safe b.classes)
              (safe_events-published safe e new_height prev o))))

-- If the install keys of a flushed batch are those that AddInstall writes, an event is among those
-- that it is published with exactly if it is the install event of an install under its contract and
-- height, the invoke event of an invocation, the var_change event of a snapshot, the class_match
-- event of a class that is there and neither empty nor UNKNOWN, or the safe event where the safe
-- height has risen; each not speculative and with the batch's safe height.
pub batch_events-Announces :
    {D : Type 0} (safe : ℤ) (e : Event (Payload D)) (b : WriteBatch D) (new_height prev : ℤ)
    → IsWritten b.installs
    → (Memᴰ e (batch_events safe b new_height prev) → Announces safe e b new_height prev)
      × (Announces safe e b new_height prev → Memᴰ e (batch_events safe b new_height prev))
batch_events-Announces safe e b new_height prev w = (
  batch_events-found safe e b new_height prev w,
  batch_events-published safe e b new_height prev w,
)
