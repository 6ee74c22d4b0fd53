-- ===== src/Store/Owners/Examples.antt =====
-- The theorem on the reverse index, at a contract whose owner is set twice.
use hyper_gnomon.Base.{◌≡◌, refl, List, [], ◌∷◌, true, some}
use hyper_gnomon.Base.Texts.{Bytes, bytes_eq, text}
use hyper_gnomon.Base.Dict.{get}
use hyper_gnomon.Store.Owners.{add_owner, add_owners, listed}
use hyper_gnomon.Store.Owners.Laws.{add_owners-listed}

abbrev calls : List (Bytes × Bytes)
calls = (text "b", text "dero1y") ∷ (text "a", text "dero1x") ∷ (text "b", text "dero1x") ∷ []

owner_found : get (text "b") (add_owners calls).owners ≡ some (text "dero1y")
unfolding add_owners add_owner bytes_eq
owner_found = refl

add_owners-listed_example : listed (text "b") (text "dero1y") (add_owners calls) ≡ true
add_owners-listed_example = add_owners-listed calls (text "b") (text "dero1y") owner_found refl refl
