-- ===== src/Store/Touch/Examples.antt =====
-- The theorems on touches, at a small map.
use hyper_gnomon.Base.{◌≡◌, refl, [], ◌∷◌}
use hyper_gnomon.Base.Int.{pos}
use hyper_gnomon.Base.Texts.{text}
use hyper_gnomon.Store.Touch.{
  AddrScidKey, Entries, lookup, first_touch, merge_addr_touch, add_addr_scid,
}
use hyper_gnomon.Store.Touch.Laws.{add_addr_scid-merge_addr_touch, merge_addr_touch-swap}

abbrev mine : AddrScidKey
mine = record { addr = text "dero1qy"; scid = text "ab" }

abbrev yours : AddrScidKey
yours = record { addr = text "dero1xx"; scid = text "ab" }

abbrev entries : Entries
entries = (yours, first_touch (pos 4)) ∷ []

add_addr_scid-merge_addr_touch_example :
    add_addr_scid entries (text "dero1xx") (text "ab") (pos 3)
    ≡ merge_addr_touch entries yours (pos 3)
add_addr_scid-merge_addr_touch_example =
    add_addr_scid-merge_addr_touch entries (text "dero1xx") (text "ab") (pos 3) refl

merge_addr_touch-swap_example :
    lookup mine (merge_addr_touch (merge_addr_touch entries mine (pos 9)) mine (pos 2))
    ≡ lookup mine (merge_addr_touch (merge_addr_touch entries mine (pos 2)) mine (pos 9))
merge_addr_touch-swap_example = merge_addr_touch-swap entries mine mine (pos 9) (pos 2) mine
