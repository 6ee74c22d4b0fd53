-- ===== src/Store/Truncate/Recount.antt =====
-- The whole of step 1: what the recount holds for an address and a contract, and what it is put in
-- place of.
use hyper_gnomon.Base.{
  ◌≡◌, refl, sym, ap, ◌∙◌, inl, inr, arith, List, [], ◌∷◌, Bool, true, false, ◌&&◌, ◌||◌, not,
  Option, none, some, Bool-cases, Option-cases, length, take, drop, get_or, ltb, ◌==◌,
  if◌then◌else◌, if_yes, if_no,
}
use hyper_gnomon.Base.Int.{ℤ}
use hyper_gnomon.Base.Texts.{Bytes, bytes_eq, bytes_eq→eq, is_empty}
use hyper_gnomon.Base.Dict.{has, is_some}
use hyper_gnomon.Codec.AddrScid.{AddrScidEntry}
use hyper_gnomon.Codec.Install.{InstallRecord}
use hyper_gnomon.Store.Keys.{bar, enc_height, dec_height, install_key_scid}
use hyper_gnomon.Store.Keys.Order.{less_bytes}
use hyper_gnomon.Store.DecimalKeys.{decode_install_record}
use hyper_gnomon.Store.Touch.{AddrScidKey, Entries, lookup, increment, merge_addr_touch}
use hyper_gnomon.Store.Touch.Laws.{touched, lookup-merge_addr_touch}
use hyper_gnomon.Store.Bolt.{Engine, seek}
use hyper_gnomon.Store.Truncate.{
  Rows, mark_key, mark, height_above, snapshot_above, touch_owner, touch_installs, Db, touch_bucket,
  touch_affected, survivors, affected_scids, installed_above,
}
use hyper_gnomon.Store.Truncate.Survivors.{
  tally, sent_heights, ring_heights, key_of, lookup-if, lookup-touch_invocations,
  lookup-touch_norm_txs,
}

abbrev pub IsDistinct : List Bytes → Type 0
IsDistinct [] = Unit {0}
IsDistinct (x ∷ l) = (has x l ≡ false) × IsDistinct l

mark_key-IsDistinct : (o : Option Bytes) (l : List Bytes) → IsDistinct l → IsDistinct (mark_key o l)
mark_key-IsDistinct none l d = d
mark_key-IsDistinct (some x) l d = elim (Bool-cases (has x l)) [
  | inl old ↦ rw old d
  | inr new ↦ rw new (new, d)
]

pub mark-IsDistinct :
    (f : Bytes → Option Bytes) (m : Rows) (l : List Bytes) → IsDistinct l → IsDistinct (mark f m l)
unfolding mark
mark-IsDistinct f [] l d = d
mark-IsDistinct f ((k, v) ∷ m) l d =
    mark-IsDistinct f m (mark_key (f k) l) (mark_key-IsDistinct (f k) l d)

-- Whether a decoded install gives the address as the owner.
abbrev pub owner_is : Bytes → Option (Option InstallRecord) → Bool
owner_is addr none = false
owner_is addr (some none) = false
owner_is addr (some (some r)) = not (is_empty r.owner) && bytes_eq r.owner addr

-- The height of the first install of the contract before `stop` with the address as the owner.
abbrev pub owner_height : (Bytes → Option InstallRecord) → Bytes → Bytes → Bytes → Rows → Option ℤ
owner_height msgpack stop addr scid [] = none
owner_height msgpack stop addr scid ((k, v) ∷ m) =
    let rest = owner_height msgpack stop addr scid m in
    if ltb (length k) 9 || not (get_or k 8 0 == bar)
    then rest
    else if not (less_bytes (take 8 k) stop)
    then none
    else if bytes_eq (drop 9 k) scid && owner_is addr (decode_install_record msgpack v)
    then some (dec_height (take 8 k))
    else rest

-- The install counts only where nothing else did.
abbrev pub or_install : Option AddrScidEntry → Option ℤ → Option AddrScidEntry
or_install (some e) o = some e
or_install none none = none
or_install none (some hh) = some (touched hh none)

or_install-none : (o : Option AddrScidEntry) → or_install o none ≡ o
or_install-none none = refl
or_install-none (some e) = refl

or_install_again :
    (o : Option AddrScidEntry) (hh : ℤ) (p : Option ℤ)
    → or_install (or_install o (some hh)) p ≡ or_install o (some hh)
or_install_again none hh p = refl
or_install_again (some e) hh p = refl

module _ (hh : ℤ) (o : Option AddrScidEntry) where
  owner_other :
      (skip ie a n : Bool)
      → (a && n) ≡ false
      → (if skip then o else (if a && n then some (touched hh o) else o))
        ≡ (if n && (not ie && a) then or_install o (some hh) else o)
  owner_other true ie a false h = refl
  owner_other false ie true false h = refl
  owner_other false ie false false h = refl
  owner_other true true false true h = refl
  owner_other true false false true h = refl
  owner_other false true false true h = refl
  owner_other false false false true h = refl
  owner_other skip ie true true h = cc

  owner_same :
      (ie : Bool)
      → (if ie || is_some o then o else some (touched hh o))
        ≡ (if not ie then or_install o (some hh) else o)
  owner_same ie = elim (Option-cases o) [
    | inl e ↦ rw e (case_none ie)
    | inr (x, e) ↦ rw e (case_some ie x)
  ]
    where
      case_none :
          (ie : Bool)
          → (if ie || false then none else some (touched hh none))
            ≡ (if not ie then some (touched hh none) else none)
      case_none true = refl
      case_none false = refl

      case_some :
          (ie : Bool) (x : AddrScidEntry)
          → (if ie || true then some x else some (touched hh (some x)))
            ≡ (if not ie then some x else some x)
      case_some true x = refl
      case_some false x = refl

lookup-touch_owner :
    (scid addr name : Bytes) (hh : ℤ) (o : Option (Option InstallRecord)) (acc : Entries)
    → lookup (key_of addr name) (touch_owner scid hh o acc) ≡ (
        if bytes_eq scid name && owner_is addr o
        then or_install (lookup (key_of addr name) acc) (some hh)
        else lookup (key_of addr name) acc)
lookup-touch_owner scid addr name hh none acc = ground arith
lookup-touch_owner scid addr name hh (some none) acc = ground arith
lookup-touch_owner scid addr name hh (some (some r)) acc =
    lookup-if key (is_empty r.owner || is_some (lookup own acc)) acc (merge_addr_touch acc own hh)
    ∙ ap
        (λ (u : Option AddrScidEntry).
          if is_empty r.owner || is_some (lookup own acc) then entry else u)
        (lookup-merge_addr_touch acc own key hh)
    ∙ elim (Bool-cases (bytes_eq r.owner addr && bytes_eq scid name)) [
      | inr other ↦
          owner_other hh entry (is_empty r.owner || is_some (lookup own acc)) (is_empty r.owner)
            (bytes_eq r.owner addr) (bytes_eq scid name) other
      | inl same ↦
          let (a, n) = both (bytes_eq r.owner addr) (bytes_eq scid name) same in
          let e : own ≡ key =
            λ i. record { addr = bytes_eq→eq r.owner addr a i; scid = bytes_eq→eq scid name n i } in
          ap
            (λ (k : AddrScidKey).
              if is_empty r.owner || is_some (lookup k acc)
              then entry
              else (if bytes_eq r.owner addr && bytes_eq scid name
                  then some (touched hh entry)
                  else entry))
            e
          ∙ ap
              (λ (b : Bool).
                if is_empty r.owner || is_some entry
                then entry
                else (if b then some (touched hh entry) else entry))
              same
          ∙ owner_same hh entry (is_empty r.owner)
          ∙ sym (
              ap (λ (b : Bool). if b then or_install entry (some hh) else entry)
                (strip (is_empty r.owner) (bytes_eq r.owner addr) (bytes_eq scid name) a n))
    ]
  where
    key : AddrScidKey
    key = key_of addr name

    own : AddrScidKey
    own = record { addr = r.owner; scid = scid }

    entry : Option AddrScidEntry
    entry = lookup key acc

    both : (b c : Bool) → (b && c) ≡ true → (b ≡ true) × (c ≡ true)
    both true c h = (refl, h)
    both false c h = cc

    strip : (ie a n : Bool) → a ≡ true → n ≡ true → (n && (not ie && a)) ≡ not ie
    strip ie a n ha hn = ground (arith, ha, hn)

lookup-touch_installs :
    (msgpack : Bytes → Option InstallRecord) (stop : Bytes) (affected : List Bytes)
    (addr name : Bytes) (m : Rows) (acc : Entries)
    → lookup (key_of addr name) (touch_installs msgpack stop affected m acc) ≡ (
        if has name affected
        then or_install (lookup (key_of addr name) acc) (owner_height msgpack stop addr name m)
        else lookup (key_of addr name) acc)
unfolding touch_installs
lookup-touch_installs msgpack stop affected addr name [] acc =
    ground (arith, or_install-none (lookup (key_of addr name) acc))
lookup-touch_installs msgpack stop affected addr name ((k, v) ∷ m) acc =
    elim (Bool-cases (ltb (length k) 9 || not (get_or k 8 0 == bar))) [
      | inl bad ↦ rw bad (lookup-touch_installs msgpack stop affected addr name m acc)
      | inr good ↦ rw good (elim (Bool-cases (not (less_bytes (take 8 k) stop))) [
        | inl above ↦ rw above (ground (arith, or_install-none entry))
        | inr below ↦ rw below (elim (Bool-cases (not (has (drop 9 k) affected))) [
          | inl away ↦
              rw away (skipped away (lookup-touch_installs msgpack stop affected addr name m acc))
          | inr near ↦ rw near (
              counted near (
                lookup-touch_installs msgpack stop affected addr name m
                  (touch_owner (drop 9 k) hh dec acc)))
        ])
      ])
    ]
  where
    entry : Option AddrScidEntry
    entry = lookup (key_of addr name) acc

    hh : ℤ
    hh = dec_height (take 8 k)

    dec : Option (Option InstallRecord)
    dec = decode_install_record msgpack v

    owned : Bool
    owned = bytes_eq (drop 9 k) name && owner_is addr dec

    later : Option ℤ
    later = owner_height msgpack stop addr name m

    named : owned ≡ true → drop 9 k ≡ name
    named own =
        bytes_eq→eq (drop 9 k) name (first (bytes_eq (drop 9 k) name) (owner_is addr dec) own)
      where
        first : (b c : Bool) → (b && c) ≡ true → b ≡ true
        first true c h = refl
        first false c h = cc

    skipped :
        not (has (drop 9 k) affected) ≡ true
        → lookup (key_of addr name) (touch_installs msgpack stop affected m acc)
          ≡ (if has name affected then or_install entry later else entry)
        → lookup (key_of addr name) (touch_installs msgpack stop affected m acc) ≡ (
            if has name affected
            then or_install entry (if owned then some hh else later)
            else entry)
    skipped away ih = elim (Bool-cases owned) [
      | inr other ↦
          ih
          ∙ ap (λ (o : Option ℤ). if has name affected then or_install entry o else entry)
              (sym (if_no owned _ _ other))
      | inl own ↦
          let absent : has name affected ≡ false =
            ap (λ (x : Bytes). has x affected) (sym (named own)) ∙ ground (arith, away) in
          ih ∙ if_no (has name affected) _ _ absent ∙ sym (if_no (has name affected) _ _ absent)
    ]

    counted :
        not (has (drop 9 k) affected) ≡ false
        → lookup
            (key_of addr name)
            (touch_installs msgpack stop affected m (touch_owner (drop 9 k) hh dec acc))
          ≡ (if has name affected
              then or_install (lookup (key_of addr name) (touch_owner (drop 9 k) hh dec acc)) later
              else lookup (key_of addr name) (touch_owner (drop 9 k) hh dec acc))
        → lookup
            (key_of addr name)
            (touch_installs msgpack stop affected m (touch_owner (drop 9 k) hh dec acc))
          ≡ (if has name affected
              then or_install entry (if owned then some hh else later)
              else entry)
    counted near ih = ih ∙ elim (Bool-cases owned) [
      | inr other ↦
          ap (λ (u : Option AddrScidEntry). if has name affected then or_install u later else u)
            (lookup-touch_owner (drop 9 k) addr name hh dec acc ∙ if_no owned _ _ other)
          ∙ ap (λ (o : Option ℤ). if has name affected then or_install entry o else entry)
              (sym (if_no owned _ _ other))
      | inl own ↦
          let present : has name affected ≡ true =
            ap (λ (x : Bytes). has x affected) (sym (named own)) ∙ ground (arith, near) in
          if_yes (has name affected) _ _ present
          ∙ ap (λ (u : Option AddrScidEntry). or_install u later)
              (lookup-touch_owner (drop 9 k) addr name hh dec acc ∙ if_yes owned _ _ own)
          ∙ or_install_again entry hh later
          ∙ sym (
              if_yes (has name affected) _ _ present ∙ ap (or_install entry) (if_yes owned _ _ own))
    ]

module _ (D : Engine) where
  abbrev pub bucket_heights : ℤ → Bytes → Option D.Bucket → List ℤ
  bucket_heights h addr none = []
  bucket_heights h addr (some b) = sent_heights h addr (D.entries b)

  lookup-touch_bucket :
      (h : ℤ) (scid addr name : Bytes) (o : Option D.Bucket) (acc : Entries)
      → lookup (key_of addr name) (touch_bucket D h scid o acc) ≡ (
          if bytes_eq scid name
          then tally (bucket_heights h addr o) (lookup (key_of addr name) acc)
          else lookup (key_of addr name) acc)
  unfolding touch_bucket
  lookup-touch_bucket h scid addr name none acc = ground arith
  lookup-touch_bucket h scid addr name (some b) acc =
      lookup-touch_invocations h scid addr name (D.entries b) acc

  lookup-touch_affected :
      (h : ℤ) (l : List Bytes) (s : Db D) (addr name : Bytes) (acc : Entries)
      → IsDistinct l
      → lookup (key_of addr name) (touch_affected D h l s acc) ≡ (
          if has name l
          then tally (bucket_heights h addr (s.invocations name)) (lookup (key_of addr name) acc)
          else lookup (key_of addr name) acc)
  unfolding touch_affected
  lookup-touch_affected h [] s addr name acc d = refl
  lookup-touch_affected h (scid ∷ more) s addr name acc d =
      lookup-touch_affected h more s addr name (touch_bucket D h scid (s.invocations scid) acc) d.1
      ∙ elim (Bool-cases (bytes_eq scid name)) [
        | inl same ↦
            let p : scid ≡ name = bytes_eq→eq scid name same in
            let absent : has name more ≡ false = rw (← p) d.0 in
            if_no (has name more) _ _ absent
            ∙ lookup-touch_bucket h scid addr name (s.invocations scid) acc
            ∙ if_yes (bytes_eq scid name) _ _ same
            ∙ ap
                (λ (x : Bytes).
                  tally (bucket_heights h addr (s.invocations x)) (lookup (key_of addr name) acc))
                p
            ∙ sym (if_yes (has name (scid ∷ more)) _ _ (if_yes (bytes_eq scid name) _ _ same))
        | inr other ↦
            let e =
              lookup-touch_bucket h scid addr name (s.invocations scid) acc
              ∙ if_no (bytes_eq scid name) _ _ other in
            ap
              (λ (u : Option AddrScidEntry).
                if has name more then tally (bucket_heights h addr (s.invocations name)) u else u)
              e
            ∙ ap
                (λ (b : Bool).
                  if b
                  then tally (bucket_heights h addr (s.invocations name))
                      (lookup (key_of addr name) acc)
                  else lookup (key_of addr name) acc)
                (sym (if_no (bytes_eq scid name) _ _ other))
      ]

  pub affected_scids-IsDistinct : (h : ℤ) (s : Db D) → IsDistinct (affected_scids D h s)
  unfolding affected_scids installed_above
  affected_scids-IsDistinct h s =
      mark-IsDistinct install_key_scid (seek (enc_height (increment h)) (D.entries s.installs)) _ (
        mark-IsDistinct (snapshot_above h) (D.entries s.sc_vars) _
          (mark-IsDistinct (height_above h) (D.entries s.heights) [] tt))

  -- The entry that the surviving records of an address and a contract make.
  abbrev pub recount :
      (Bytes → Option InstallRecord) → ℤ → Db D → Bytes → Bytes → Option AddrScidEntry
  recount msgpack h s addr scid =
      or_install
        (tally (ring_heights h addr scid (D.entries s.norm_txs))
          (tally (bucket_heights h addr (s.invocations scid)) none))
        (owner_height msgpack (enc_height (increment h)) addr scid (D.entries s.installs))

  pub lookup-survivors :
      (msgpack : Bytes → Option InstallRecord) (h : ℤ) (l : List Bytes) (s : Db D)
      (addr scid : Bytes)
      → IsDistinct l
      → has scid l ≡ true
      → lookup (key_of addr scid) (survivors D msgpack h l s) ≡ recount msgpack h s addr scid
  unfolding survivors
  lookup-survivors msgpack h l s addr scid d aff =
      lookup-touch_installs msgpack (enc_height (increment h)) l addr scid (D.entries s.installs) _
      ∙ if_yes (has scid l) _ _ aff
      ∙ ap
          (λ (o : Option AddrScidEntry).
            or_install o
              (owner_height msgpack (enc_height (increment h)) addr scid (D.entries s.installs)))
          (lookup-touch_norm_txs h l addr scid (D.entries s.norm_txs) _
            ∙ if_yes (has scid l) _ _ aff
            ∙ ap (tally (ring_heights h addr scid (D.entries s.norm_txs)))
                (lookup-touch_affected h l s addr scid [] d ∙ if_yes (has scid l) _ _ aff))
