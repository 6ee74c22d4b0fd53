-- ===== src/Publish/Examples.antt =====
-- The theorem on published batches, at a batch with an install, an invocation and two classes.
use mathlib.Core.List.{Memᴰ}
use hyper_gnomon.Base.{ℕ, refl, arith, [], ◌∷◌, none}
use hyper_gnomon.Base.Int.{pos}
use hyper_gnomon.Base.Texts.{text}
use hyper_gnomon.Bus.Events.{Event}
use hyper_gnomon.Publish.{WriteBatch, Payload, batch_events, scid_height_key}
use hyper_gnomon.Publish.Announced.{Announces, install_at}
use hyper_gnomon.Publish.Batch.{batch_events-Announces}

abbrev flushed : WriteBatch ℕ
flushed = record {
  installs =
      (
        scid_height_key (text "ab") (pos 12),
        record { owner = text "dero1qy"; entrypoint = text "Initialize"; fees = 3 },
      )
      ∷ [];
  invocations =
      record {
        scid = text "ab";
        sender = text "dero1xx";
        entrypoint = text "Rate";
        height = pos 13;
        details = 5;
      }
      ∷ [];
  variables = [];
  classes = (text "ab", none) ∷ [];
}

abbrev installed : Event (Payload ℕ)
installed =
    install_at (pos 9) (text "ab") 12
      (record { owner = text "dero1qy"; entrypoint = text "Initialize"; fees = 3 })

batch_events-Announces_example :
    (Memᴰ installed (batch_events (pos 9) flushed (pos 20) (pos 8))
      → Announces (pos 9) installed flushed (pos 20) (pos 8))
    × (Announces (pos 9) installed flushed (pos 20) (pos 8)
        → Memᴰ installed (batch_events (pos 9) flushed (pos 20) (pos 8)))
batch_events-Announces_example =
    batch_events-Announces (pos 9) installed flushed (pos 20) (pos 8)
      ((text "ab", 12, refl, omega arith), _)
