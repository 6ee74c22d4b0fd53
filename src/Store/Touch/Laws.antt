-- ===== src/Store/Touch/Laws.antt =====
-- The two ways of counting touches agree, and the order of the touches does not matter.
use hyper_gnomon.Base.{
  ◌≡◌, refl, sym, ap, ◌∙◌, inl, inr, arith, [], ◌∷◌, Bool, true, false, ◌&&◌, Option, none, some,
  Bool-cases, Option-cases, if◌then◌else◌, if_no,
}
use mathlib.Core.Bool.{false≢true}
use hyper_gnomon.Base.Int.{ℤ, pos, negsuc, ltb_ℤ}
use hyper_gnomon.Base.Texts.{Bytes, bytes_eq, bytes_eq→eq, bytes_eq_refl, is_empty}
use hyper_gnomon.Codec.AddrScid.{AddrScidEntry}
use hyper_gnomon.Store.Touch.{
  AddrScidKey, Entries, key_eq, lookup, increment, first_touch, touch, raise_entry,
  merge_addr_touch, insert, put_touch, add_addr_scid,
}

abbrev pub touched : ℤ → Option AddrScidEntry → AddrScidEntry
touched hh none = first_touch hh
touched hh (some e) = touch hh e

lower : ℤ → ℤ → ℤ
lower a b = if ltb_ℤ a b then a else b

lower-swap : (a b c : ℤ) → lower a (lower b c) ≡ lower b (lower a c)
unfolding lower
lower-swap (pos a) (pos b) (pos c) = ground arith
lower-swap (pos a) (pos b) (negsuc c) = ground arith
lower-swap (pos a) (negsuc b) (pos c) = ground arith
lower-swap (pos a) (negsuc b) (negsuc c) = ground arith
lower-swap (negsuc a) (pos b) (pos c) = ground arith
lower-swap (negsuc a) (pos b) (negsuc c) = ground arith
lower-swap (negsuc a) (negsuc b) (pos c) = ground arith
lower-swap (negsuc a) (negsuc b) (negsuc c) = ground arith

upper : ℤ → ℤ → ℤ
upper a b = if ltb_ℤ b a then a else b

upper-swap : (a b c : ℤ) → upper a (upper b c) ≡ upper b (upper a c)
unfolding upper
upper-swap (pos a) (pos b) (pos c) = ground arith
upper-swap (pos a) (pos b) (negsuc c) = ground arith
upper-swap (pos a) (negsuc b) (pos c) = ground arith
upper-swap (pos a) (negsuc b) (negsuc c) = ground arith
upper-swap (negsuc a) (pos b) (pos c) = ground arith
upper-swap (negsuc a) (pos b) (negsuc c) = ground arith
upper-swap (negsuc a) (negsuc b) (pos c) = ground arith
upper-swap (negsuc a) (negsuc b) (negsuc c) = ground arith

lower_comm : (a b : ℤ) → lower a b ≡ lower b a
unfolding lower
lower_comm (pos a) (pos b) = ground arith
lower_comm (pos a) (negsuc b) = ground arith
lower_comm (negsuc a) (pos b) = ground arith
lower_comm (negsuc a) (negsuc b) = ground arith

upper_comm : (a b : ℤ) → upper a b ≡ upper b a
unfolding upper
upper_comm (pos a) (pos b) = ground arith
upper_comm (pos a) (negsuc b) = ground arith
upper_comm (negsuc a) (pos b) = ground arith
upper_comm (negsuc a) (negsuc b) = ground arith

key_eq→eq : (k j : AddrScidKey) → key_eq k j ≡ true → k ≡ j
key_eq→eq k j h = λ i. record {
  addr = bytes_eq→eq k.addr j.addr (both (bytes_eq k.addr j.addr) (bytes_eq k.scid j.scid) h).0 i;
  scid = bytes_eq→eq k.scid j.scid (both (bytes_eq k.addr j.addr) (bytes_eq k.scid j.scid) h).1 i;
}
  where
    both : (b c : Bool) → (b && c) ≡ true → (b ≡ true) × (c ≡ true)
    both true c h = (refl, h)
    both false c h = cc

key_eq_refl : (k : AddrScidKey) → key_eq k k ≡ true
key_eq_refl k = rw (bytes_eq_refl k.addr, bytes_eq_refl k.scid) refl

touch-swap : (g h : ℤ) (e : AddrScidEntry) → touch g (touch h e) ≡ touch h (touch g e)
unfolding touch lower upper
touch-swap g h e = λ i. record {
  first_height = lower-swap g h e.first_height i;
  last_height = upper-swap g h e.last_height i;
  count = increment (increment e.count);
}

insert-touched :
    (m : Entries) (k : AddrScidKey) (h : ℤ)
    → insert m k (touched h (lookup k m)) ≡ merge_addr_touch m k h
unfolding insert merge_addr_touch
insert-touched [] k h = refl
insert-touched ((j, e) ∷ m) k h = elim (Bool-cases (key_eq j k)) [
  | inl same ↦ rw same refl
  | inr other ↦ rw other (ap (λ (t : Entries). (j, e) ∷ t) (insert-touched m k h))
]

-- For an address that is not empty, AddAddrSCID and the recount of a truncation (mergeAddrTouch)
-- change the entries in the same way.
pub add_addr_scid-merge_addr_touch :
    (m : Entries) (addr scid : Bytes) (h : ℤ)
    → is_empty addr ≡ false
    → add_addr_scid m addr scid h ≡ merge_addr_touch m (record { addr = addr; scid = scid }) h
unfolding add_addr_scid put_touch raise_entry touch
add_addr_scid-merge_addr_touch m addr scid h filled =
    if_no (is_empty addr) _ _ filled ∙ put m (record { addr = addr; scid = scid })
  where
    put : (m : Entries) (k : AddrScidKey) → put_touch m k h ≡ merge_addr_touch m k h
    put m k = elim (Option-cases (lookup k m)) [
      | inl e ↦
          rw (e, put_touch)
            (ap (λ (o : Option AddrScidEntry). insert m k (touched h o)) (sym e)
              ∙ insert-touched m k h)
      | inr (x, e) ↦
          rw (e, put_touch)
            (ap (λ (o : Option AddrScidEntry). insert m k (touched h o)) (sym e)
              ∙ insert-touched m k h)
    ]

-- What a map holds after a touch.
pub lookup-merge_addr_touch :
    (m : Entries) (k j : AddrScidKey) (h : ℤ)
    → lookup j (merge_addr_touch m k h)
      ≡ (if key_eq k j then some (touched h (lookup j m)) else lookup j m)
unfolding merge_addr_touch
lookup-merge_addr_touch [] k j h = refl
lookup-merge_addr_touch ((i, e) ∷ m) k j h = elim (Bool-cases (key_eq i k)) [
  | inl same ↦
      let alike : key_eq k j ≡ key_eq i j =
        ap (λ (x : AddrScidKey). key_eq x j) (sym (key_eq→eq i k same)) in
      rw (same, alike)
        (elim (Bool-cases (key_eq i j)) [ inl e1 ↦ rw e1 refl | inr e2 ↦ rw e2 refl ])
  | inr other ↦ elim (Bool-cases (key_eq i j)) [
    | inl e1 ↦ rw (other, e1, apart e1 other) refl
    | inr e2 ↦ rw (other, e2) (lookup-merge_addr_touch m k j h)
  ]
]
  where
    apart : key_eq i j ≡ true → key_eq i k ≡ false → key_eq k j ≡ false
    apart same other = elim (Bool-cases (key_eq k j)) [
      | inr no_match ↦ no_match
      | inl match ↦ absurd (
          false≢true (
            sym other
            ∙ ap (key_eq i) (key_eq→eq k j match ∙ sym (key_eq→eq i j same))
            ∙ key_eq_refl i))
    ]

touched-swap :
    (g h : ℤ) (o : Option AddrScidEntry)
    → touched g (some (touched h o)) ≡ touched h (some (touched g o))
unfolding touch lower upper
touched-swap g h none = λ i. record {
  first_height = lower_comm g h i;
  last_height = upper_comm g h i;
  count = increment (pos 1);
}
touched-swap g h (some e) = touch-swap g h e

-- Two touches, of whatever keys and heights, leave the same entry under every key in either order.
pub merge_addr_touch-swap :
    (m : Entries) (k j : AddrScidKey) (g h : ℤ) (i : AddrScidKey)
    → lookup i (merge_addr_touch (merge_addr_touch m k g) j h)
      ≡ lookup i (merge_addr_touch (merge_addr_touch m j h) k g)
merge_addr_touch-swap m k j g h i =
    rw (lookup-merge_addr_touch (merge_addr_touch m k g) j i h, lookup-merge_addr_touch m k i g)
      (rw (lookup-merge_addr_touch (merge_addr_touch m j h) k i g, lookup-merge_addr_touch m j i h)
        (either (key_eq k i) (key_eq j i) (lookup i m)))
  where
    either :
        (b c : Bool) (o : Option AddrScidEntry)
        → (if c
            then some (touched h (if b then some (touched g o) else o))
            else (if b then some (touched g o) else o))
          ≡ (if b
              then some (touched g (if c then some (touched h o) else o))
              else (if c then some (touched h o) else o))
    either true true o = ap some (touched-swap h g o)
    either true false o = refl
    either false true o = refl
    either false false o = refl
