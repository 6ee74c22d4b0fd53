-- ===== src/Store/Touch.antt =====
-- Counting the touches of a contract by an address: AddAddrSCID of storage/storage.go, and
-- mergeAddrTouch of storage/truncate.go, which recomputes the same entries.
pub mod Laws
mod Examples
use hyper_gnomon.Base.{
  ℕ, ◌+◌, ◌%◌, ◌^◌, List, [], ◌∷◌, Bool, true, false, ◌&&◌, Option, none, some, if◌then◌else◌,
}
use hyper_gnomon.Base.Int.{ℤ, pos, ltb_ℤ}
use hyper_gnomon.Base.Texts.{Bytes, bytes_eq, is_empty}
use hyper_gnomon.Codec.Words.{int64_bits, int64_from_bits}
use hyper_gnomon.Codec.AddrScid.{AddrScidEntry}

pub record AddrScidKey : Type 0 where
  pub addr : Bytes
  pub scid : Bytes

-- A Go map with these keys: each key stands in the list once.
abbrev pub Entries : Type 0
Entries = List (AddrScidKey × AddrScidEntry)

abbrev pub key_eq : AddrScidKey → AddrScidKey → Bool
key_eq k j = bytes_eq k.addr j.addr && bytes_eq k.scid j.scid

abbrev pub lookup : AddrScidKey → Entries → Option AddrScidEntry
lookup k [] = none
lookup k ((j, e) ∷ m) = let rest = lookup k m in if key_eq j k then some e else rest

-- `e.Count++` on an int64.
abbrev pub increment : ℤ → ℤ
increment z = int64_from_bits ((int64_bits z + 1) % 2 ^ 64)

abbrev pub first_touch : ℤ → AddrScidEntry
first_touch hh = record { first_height = hh; last_height = hh; count = pos 1 }

unfoldable pub touch : ℤ → AddrScidEntry → AddrScidEntry
touch hh e = record {
  first_height = if ltb_ℤ hh e.first_height then hh else e.first_height;
  last_height = if ltb_ℤ e.last_height hh then hh else e.last_height;
  count = increment e.count;
}

unfoldable pub merge_addr_touch : Entries → AddrScidKey → ℤ → Entries
merge_addr_touch [] key hh = (key, first_touch hh) ∷ []
merge_addr_touch ((j, e) ∷ m) key hh =
    let rest = merge_addr_touch m key hh in
    if key_eq j key then (j, touch hh e) ∷ m else (j, e) ∷ rest

abbrev pub new_entry : ℤ → AddrScidEntry
new_entry height = record { first_height = height; last_height = height; count = pos 1 }

-- The entry that is there, in AddAddrSCID.
unfoldable pub raise_entry : ℤ → AddrScidEntry → AddrScidEntry
raise_entry height e = record {
  first_height = if ltb_ℤ height e.first_height then height else e.first_height;
  last_height = if ltb_ℤ e.last_height height then height else e.last_height;
  count = increment e.count;
}

unfoldable pub insert : Entries → AddrScidKey → AddrScidEntry → Entries
insert [] key e = (key, e) ∷ []
insert ((j, d) ∷ m) key e =
    let rest = insert m key e in if key_eq j key then (j, e) ∷ m else (j, d) ∷ rest

-- The entry that the map holds is changed in place, or a new one is put into it.
unfoldable pub put_touch : Entries → AddrScidKey → ℤ → Entries
unfolding raise_entry
put_touch m key height = elim (lookup key m) [
  | none ↦ insert m key (new_entry height)
  | some e ↦ insert m key (raise_entry height e)
]

unfoldable pub add_addr_scid : Entries → Bytes → Bytes → ℤ → Entries
add_addr_scid m addr scid height =
    if is_empty addr then m else put_touch m (record { addr = addr; scid = scid }) height
