-- ===== src/Store/Owners.antt =====
-- AddOwner of storage/storage.go: the owners of the contracts and the reverse index beside them. A Go
-- map is a list in which each key stands once; a set of strings is a list of them, and the nil map that AddOwner replaces is empty too.
pub mod Laws
mod Examples
use hyper_gnomon.Base.{List, [], ◌∷◌, Bool, true, false, ◌||◌, Option, none, some, if◌then◌else◌}
use hyper_gnomon.Base.Dict.{get, put, has, include}
use hyper_gnomon.Base.Texts.{Bytes, bytes_eq, is_empty}

abbrev pub members : Option (List Bytes) → List Bytes
members none = []
members (some set) = set

pub record OwnerMaps : Type 0 where
  pub owners : List (Bytes × Bytes)
  pub owner_scids : List (Bytes × List Bytes)

-- A set that the index does not have yet is made empty; the set that it has is changed in place.
unfoldable pub add_reverse : Bytes → Bytes → List (Bytes × List Bytes) → List (Bytes × List Bytes)
add_reverse scid owner m = put owner (include scid (members (get owner m))) m

unfoldable pub add_owner : Bytes → Bytes → OwnerMaps → OwnerMaps
add_owner scid owner b = record {
  owners = put scid owner b.owners;
  owner_scids =
      if is_empty owner || is_empty scid
      then b.owner_scids
      else add_reverse scid owner b.owner_scids;
}

-- A batch after calls with these contracts and owners, the last call first.
unfoldable pub add_owners : List (Bytes × Bytes) → OwnerMaps
add_owners [] = record { owners = []; owner_scids = [] }
add_owners ((scid, owner) ∷ calls) = add_owner scid owner (add_owners calls)

abbrev pub listed : Bytes → Bytes → OwnerMaps → Bool
listed scid owner b = has scid (members (get owner b.owner_scids))
