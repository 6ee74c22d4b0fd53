-- ===== src/ClassKeys/Examples.antt =====
-- The theorem on the refreshes, at the tenth refresh of the documents.
use hyper_gnomon.Base.{arith, List, [], ◌∷◌}
use hyper_gnomon.Base.Texts.{Bytes, text}
use hyper_gnomon.ClassKeys.{pick_refresh_keys}
use hyper_gnomon.ClassKeys.Schedule.{Scheduled, counters_after, pick_refresh_keys-Scheduled}

abbrev docs : Bytes
docs = text "TELA-DOC-1"

abbrev earlier : List Bytes
earlier = docs ∷ docs ∷ docs ∷ text "G45-NFT" ∷ docs ∷ docs ∷ docs ∷ docs ∷ docs ∷ docs ∷ []

pick_refresh_keys-Scheduled_example :
    Scheduled docs earlier (pick_refresh_keys docs (counters_after earlier)).0
pick_refresh_keys-Scheduled_example = pick_refresh_keys-Scheduled docs earlier (omega arith)
