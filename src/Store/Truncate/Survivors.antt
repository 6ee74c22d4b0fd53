-- ===== src/Store/Truncate/Survivors.antt =====
-- The recount of the touches of contracts by addresses in step 1, against a list of the heights that
-- it has to count.
use hyper_gnomon.Base.{
  ◌≡◌, refl, ap, ◌∙◌, inl, inr, arith, List, [], ◌∷◌, Bool, true, false, ◌&&◌, not, Option, none,
  some, Bool-cases, if◌then◌else◌,
}
use hyper_gnomon.Base.Int.{ℤ, ltb_ℤ}
use hyper_gnomon.Base.Texts.{Bytes, bytes_eq, bytes_eq→eq}
use hyper_gnomon.Base.Dict.{has}
use hyper_gnomon.Codec.AddrScid.{AddrScidEntry}
use hyper_gnomon.Store.Keys.{split_norm_tx_key}
use hyper_gnomon.Store.DecimalKeys.{parse_invocation_key}
use hyper_gnomon.Store.Touch.{AddrScidKey, Entries, lookup, merge_addr_touch}
use hyper_gnomon.Store.Touch.Laws.{touched, lookup-merge_addr_touch}
use hyper_gnomon.Store.Truncate.{
  Rows, norm_tx_above, touch_at, touch_invocations, touch_norm_tx, touch_norm_txs,
}

-- One touch after the other.
abbrev pub tally : List ℤ → Option AddrScidEntry → Option AddrScidEntry
tally [] o = o
tally (hh ∷ l) o = tally l (some (touched hh o))

abbrev pub of_sender : ℤ → Bytes → Option (Bytes × ℤ) → List ℤ → List ℤ
of_sender h addr none l = l
of_sender h addr (some (sender, hh)) l =
    if not (ltb_ℤ h hh) && bytes_eq sender addr then hh ∷ l else l

-- The heights up to `h` of the invocations that an address sent, in the order of the bucket.
abbrev pub sent_heights : ℤ → Bytes → Rows → List ℤ
sent_heights h addr [] = []
sent_heights h addr ((k, v) ∷ m) = of_sender h addr (parse_invocation_key k) (sent_heights h addr m)

abbrev pub of_ring : ℤ → Bytes → Bytes → Option (Bytes × Bytes × ℤ) → List ℤ → List ℤ
of_ring h addr scid none l = l
of_ring h addr scid (some (a, s, hh)) l =
    if not (ltb_ℤ h hh) && (bytes_eq a addr && bytes_eq s scid) then hh ∷ l else l

-- The heights up to `h` of the normal transactions of an address with a contract.
abbrev pub ring_heights : ℤ → Bytes → Bytes → Rows → List ℤ
ring_heights h addr scid [] = []
ring_heights h addr scid ((k, v) ∷ m) =
    let rest = ring_heights h addr scid m in
    if norm_tx_above h k then rest else of_ring h addr scid (split_norm_tx_key k) rest

abbrev pub key_of : Bytes → Bytes → AddrScidKey
key_of addr scid = record { addr = addr; scid = scid }

pub lookup-if :
    (k : AddrScidKey) (b : Bool) (m n : Entries)
    → lookup k (if b then m else n) ≡ (if b then lookup k m else lookup k n)
lookup-if k true m n = refl
lookup-if k false m n = refl

abbrev hit : Bool → ℤ → Option AddrScidEntry → Option AddrScidEntry
hit b hh o = if b then some (touched hh o) else o

module _ (hh : ℤ) (l : List ℤ) (o : Option AddrScidEntry) where
  sent_case :
      (late a n : Bool)
      → (if n
          then tally l (if late then o else hit (a && n) hh o)
          else (if late then o else hit (a && n) hh o))
        ≡ (if n then tally (if not late && a then hh ∷ l else l) o else o)
  sent_case true a true = refl
  sent_case true a false = refl
  sent_case false true true = refl
  sent_case false false true = refl
  sent_case false true false = refl
  sent_case false false false = refl

  ring_same :
      (late a n : Bool)
      → (if n
          then tally l (if not late && n then hit (a && true) hh o else o)
          else (if not late && n then hit (a && true) hh o else o))
        ≡ (if n then tally (if not late && (a && true) then hh ∷ l else l) o else o)
  ring_same true a true = refl
  ring_same true a false = refl
  ring_same false true true = refl
  ring_same false false true = refl
  ring_same false a false = refl

  ring_other :
      (late a k n : Bool)
      → (if n
          then tally l (if not late && k then hit (a && false) hh o else o)
          else (if not late && k then hit (a && false) hh o else o))
        ≡ (if n then tally (if not late && (a && false) then hh ∷ l else l) o else o)
  ring_other true a k n = refl
  ring_other false true true n = refl
  ring_other false true false n = refl
  ring_other false false true n = refl
  ring_other false false false n = refl

pub lookup-touch_invocations :
    (h : ℤ) (scid addr name : Bytes) (m : Rows) (acc : Entries)
    → lookup (key_of addr name) (touch_invocations h scid m acc) ≡ (
        if bytes_eq scid name
        then tally (sent_heights h addr m) (lookup (key_of addr name) acc)
        else lookup (key_of addr name) acc)
unfolding touch_invocations
lookup-touch_invocations h scid addr name [] acc = ground arith
lookup-touch_invocations h scid addr name ((k, v) ∷ m) acc =
    lookup-touch_invocations h scid addr name m (touch_at h scid (parse_invocation_key k) acc)
    ∙ step (parse_invocation_key k)
  where
    step :
        (o : Option (Bytes × ℤ))
        → (if bytes_eq scid name
            then tally (sent_heights h addr m) (lookup (key_of addr name) (touch_at h scid o acc))
            else lookup (key_of addr name) (touch_at h scid o acc))
          ≡ (if bytes_eq scid name
              then tally
                  (of_sender h addr o (sent_heights h addr m))
                  (lookup (key_of addr name) acc)
              else lookup (key_of addr name) acc)
    step none = refl
    step (some (sender, hh)) =
        ap
          (λ (u : Option AddrScidEntry).
            if bytes_eq scid name then tally (sent_heights h addr m) u else u)
          (lookup-if (key_of addr name) (ltb_ℤ h hh) acc
              (merge_addr_touch acc (key_of sender scid) hh)
            ∙ ap
                (λ (u : Option AddrScidEntry).
                  if ltb_ℤ h hh then lookup (key_of addr name) acc else u)
                (lookup-merge_addr_touch acc (key_of sender scid) (key_of addr name) hh))
        ∙ sent_case hh (sent_heights h addr m) (lookup (key_of addr name) acc) (ltb_ℤ h hh)
            (bytes_eq sender addr) (bytes_eq scid name)

pub lookup-touch_norm_txs :
    (h : ℤ) (affected : List Bytes) (addr name : Bytes) (m : Rows) (acc : Entries)
    → lookup (key_of addr name) (touch_norm_txs h affected m acc) ≡ (
        if has name affected
        then tally (ring_heights h addr name m) (lookup (key_of addr name) acc)
        else lookup (key_of addr name) acc)
unfolding touch_norm_txs
lookup-touch_norm_txs h affected addr name [] acc = ground arith
lookup-touch_norm_txs h affected addr name ((k, v) ∷ m) acc =
    lookup-touch_norm_txs h affected addr name m
      (if norm_tx_above h k then acc else touch_norm_tx h affected (split_norm_tx_key k) acc)
    ∙ elim (Bool-cases (norm_tx_above h k)) [
      | inl late ↦ rw late refl
      | inr kept ↦ rw kept (step (split_norm_tx_key k))
    ]
  where
    entry : Option AddrScidEntry
    entry = lookup (key_of addr name) acc

    step :
        (o : Option (Bytes × Bytes × ℤ))
        → (if has name affected
            then tally
                (ring_heights h addr name m)
                (lookup (key_of addr name) (touch_norm_tx h affected o acc))
            else lookup (key_of addr name) (touch_norm_tx h affected o acc))
          ≡ (if has name affected
              then tally (of_ring h addr name o (ring_heights h addr name m)) entry
              else entry)
    step none = refl
    step (some (a, s, hh)) =
        ap
          (λ (u : Option AddrScidEntry).
            if has name affected then tally (ring_heights h addr name m) u else u)
          (lookup-if (key_of addr name) (not (ltb_ℤ h hh) && has s affected)
              (merge_addr_touch acc (key_of a s) hh) acc
            ∙ ap
                (λ (u : Option AddrScidEntry).
                  if not (ltb_ℤ h hh) && has s affected then u else entry)
                (lookup-merge_addr_touch acc (key_of a s) (key_of addr name) hh))
        ∙ elim (Bool-cases (bytes_eq s name)) [
          | inl same ↦
              rw (same, bytes_eq→eq s name same)
                (ring_same hh (ring_heights h addr name m) entry (ltb_ℤ h hh) (bytes_eq a addr)
                  (has name affected))
          | inr other ↦ rw other (
              ring_other hh (ring_heights h addr name m) entry (ltb_ℤ h hh) (bytes_eq a addr)
                (has s affected) (has name affected))
        ]
