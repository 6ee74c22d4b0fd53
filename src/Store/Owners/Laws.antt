-- ===== src/Store/Owners/Laws.antt =====
-- The reverse index of the owners has every contract that the map of the owners has.
use hyper_gnomon.Base.{
  ◌≡◌, sym, ap, ◌∙◌, inl, inr, List, [], ◌∷◌, true, false, ◌||◌, Option, none, some, Bool-cases,
}
use hyper_gnomon.Base.Dict.{
  get, put, has, include, get-put_same, get-put_other, has-include_same, has-include,
}
use hyper_gnomon.Base.Texts.{Bytes, bytes_eq, bytes_eq→eq, is_empty}
use hyper_gnomon.Store.Owners.{members, OwnerMaps, add_reverse, add_owner, add_owners, listed}

listed-same :
    (scid owner : Bytes) (m : List (Bytes × List Bytes))
    → has scid (members (get owner (add_reverse scid owner m))) ≡ true
unfolding add_reverse
listed-same scid owner m =
    rw (get-put_same owner (include scid (members (get owner m))) m)
      (has-include_same scid (members (get owner m)))

listed-kept_same :
    (s o scid : Bytes) (m : List (Bytes × List Bytes))
    → has scid (members (get o m)) ≡ true
    → has scid (members (get o (add_reverse s o m))) ≡ true
unfolding add_reverse
listed-kept_same s o scid m h =
    rw (get-put_same o (include s (members (get o m))) m) (has-include s scid (members (get o m)) h)

listed-kept :
    (s o scid owner : Bytes) (m : List (Bytes × List Bytes))
    → has scid (members (get owner m)) ≡ true
    → has scid (members (get owner (add_reverse s o m))) ≡ true
unfolding add_reverse
listed-kept s o scid owner m h = elim (Bool-cases (bytes_eq o owner)) [
  | inl same ↦
      let p : o ≡ owner = bytes_eq→eq o owner same in
      rw (sym p) (listed-kept_same s o scid m (rw p h))
  | inr other ↦ rw (get-put_other o owner (include s (members (get o m))) m other) h
]

add_owner-listed_kept :
    (s o scid owner : Bytes) (b : OwnerMaps)
    → listed scid owner b ≡ true
    → listed scid owner (add_owner s o b) ≡ true
unfolding add_owner
add_owner-listed_kept s o scid owner b h = elim (Bool-cases (is_empty o || is_empty s)) [
  | inl skip ↦ rw skip h
  | inr go ↦ rw go (listed-kept s o scid owner b.owner_scids h)
]

add_owner-listed :
    (s o : Bytes) (b : OwnerMaps)
    → is_empty o ≡ false
    → is_empty s ≡ false
    → listed s o (add_owner s o b) ≡ true
unfolding add_owner
add_owner-listed s o b ho hs = rw (ho, hs) (listed-same s o b.owner_scids)

abbrev value_or : Option Bytes → Bytes → Bytes
value_or none x = x
value_or (some y) x = y

-- After any calls of AddOwner on an empty batch, a contract that the owners map gives an owner is
-- in the reverse index under that owner, if neither of the two strings is empty.
pub add_owners-listed :
    (calls : List (Bytes × Bytes)) (scid owner : Bytes)
    → get scid (add_owners calls).owners ≡ some owner
    → is_empty owner ≡ false
    → is_empty scid ≡ false
    → listed scid owner (add_owners calls) ≡ true
unfolding add_owners add_owner
add_owners-listed [] scid owner h ho hs = cc
add_owners-listed ((s, o) ∷ calls) scid owner h ho hs = elim (Bool-cases (bytes_eq s scid)) [
  | inl same ↦
      let p : s ≡ scid = bytes_eq→eq s scid same in
      let q : some o ≡ some owner =
        sym (get-put_same s o (add_owners calls).owners)
        ∙ ap (λ (t : Bytes). get t (put s o (add_owners calls).owners)) p
        ∙ h in
      let e : o ≡ owner = ap (λ (x : Option Bytes). value_or x o) q in
      rw (sym p, sym e) (add_owner-listed s o (add_owners calls) (rw e ho) (rw p hs))
  | inr other ↦ add_owner-listed_kept s o scid owner (add_owners calls) (
      add_owners-listed calls scid owner
        (sym (get-put_other s scid o (add_owners calls).owners other) ∙ h) ho hs)
]
