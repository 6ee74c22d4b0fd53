-- ===== src/Store/Truncate/Rollback.antt =====
-- The entries of the addresses after a truncation.
use hyper_gnomon.Base.{
  ◌≡◌, refl, sym, ap, ◌∙◌, inl, inr, arith, List, [], ◌∷◌, Bool, true, false, ◌&&◌, Option, none,
  some, Bool-cases, if◌then◌else◌, if_yes, if_no,
}
use hyper_gnomon.Base.Int.{ℤ}
use hyper_gnomon.Base.Texts.{Bytes, bytes_eq, bytes_eq→eq}
use hyper_gnomon.Base.Dict.{get, has, keys, is_some, has-keys}
use hyper_gnomon.Codec.Install.{InstallRecord}
use hyper_gnomon.Codec.ClassMeta.{ClassMeta}
use hyper_gnomon.Store.Touch.{Entries, lookup}
use hyper_gnomon.Store.Bolt.{Engine, IsLawful, at_key}
use hyper_gnomon.Store.Truncate.{
  Rows, addr_op, addr_ops, apply_ops, apply_addr_scid_rollback, Db, affected_scids, survivors,
  finished, truncate_to_height, not_below_zero,
}
use hyper_gnomon.Store.Truncate.Stages.{>>=-eq-some, Passes, truncate_to_height-Passes}
use hyper_gnomon.Store.Truncate.Survivors.{key_of}
use hyper_gnomon.Store.Truncate.Recount.{recount, lookup-survivors, affected_scids-IsDistinct}

module _ (D : Engine) (L : IsLawful D) where
  -- One operation leaves what it puts, or nothing.
  get-apply_op :
      (scid x : Bytes) (o : Option Bytes) (ops : List (Bytes × Option Bytes)) (b c : D.Bucket)
      → apply_ops D ((scid, o) ∷ ops) b ≡ some c
      → (d : D.Bucket) × (apply_ops D ops d ≡ some c)
        × (at_key D x d ≡ (if bytes_eq scid x then o else at_key D x b))
  unfolding apply_ops
  get-apply_op scid x none ops b c e = (D.delete scid b, e, L.get-delete scid x b)
  get-apply_op scid x (some v) ops b c e =
      let (d, first, more) = >>=-eq-some (D.put scid v b) _ e in
      (d, more, L.get-put scid v x b d first)

  get-addr_ops :
      (aff : List Bytes) (acc : Entries) (addr x : Bytes) (m : Rows) (b c : D.Bucket)
      → apply_ops D (addr_ops aff acc addr m) b ≡ some c
      → at_key D x c ≡ (
          if has x aff && has x (keys m)
          then addr_op (lookup (key_of addr x) acc)
          else at_key D x b)
  unfolding apply_ops
  get-addr_ops aff acc addr x [] b c e =
      let q : b ≡ c = cc e in ap (at_key D x) (sym q) ∙ ground arith
  get-addr_ops aff acc addr x ((k, v) ∷ m) b c e = elim (Bool-cases (has k aff)) [
    | inr away ↦
        let rest : apply_ops D (addr_ops aff acc addr m) b ≡ some c =
          ap (λ (ops : List (Bytes × Option Bytes)). apply_ops D ops b)
            (sym (if_no (has k aff) _ _ away))
          ∙ e in
        get-addr_ops aff acc addr x m b c rest ∙ elim (Bool-cases (bytes_eq k x)) [
          | inl same ↦
              let absent : has x aff ≡ false = rw (← bytes_eq→eq k x same) away in
              ground (arith, absent)
          | inr other ↦ ground (arith, other)
        ]
    | inl near ↦
        let op : Option Bytes = addr_op (lookup (key_of addr k) acc) in
        let all : apply_ops D ((k, op) ∷ addr_ops aff acc addr m) b ≡ some c =
          ap (λ (ops : List (Bytes × Option Bytes)). apply_ops D ops b)
            (sym (if_yes (has k aff) _ _ near))
          ∙ e in
        let (d, rest, one) = get-apply_op k x op (addr_ops aff acc addr m) b c all in
        get-addr_ops aff acc addr x m d c rest ∙ elim (Bool-cases (bytes_eq k x)) [
          | inr other ↦
              ap
                (λ (o : Option Bytes).
                  if has x aff && has x (keys m) then addr_op (lookup (key_of addr x) acc) else o)
                (one ∙ if_no (bytes_eq k x) _ _ other)
              ∙ ground (arith, other)
          | inl same ↦
              let p : k ≡ x = bytes_eq→eq k x same in
              let target : Option Bytes = addr_op (lookup (key_of addr x) acc) in
              let r : at_key D x d ≡ target =
                one
                ∙ if_yes (bytes_eq k x) _ _ same
                ∙ ap (λ (t : Bytes). addr_op (lookup (key_of addr t) acc)) p in
              let present : has x aff ≡ true = rw (← p) near in
              ap (λ (o : Option Bytes). if has x aff && has x (keys m) then target else o) r
              ∙ ground (arith, present, same)
        ]
  ]

  pub get-apply_addr_scid_rollback :
      (aff : List Bytes) (acc : Entries) (addr x : Bytes) (l l' : List (Bytes × D.Bucket))
      (sub : D.Bucket)
      → apply_addr_scid_rollback D aff acc l ≡ some l'
      → get addr l ≡ some sub
      → (sub' : D.Bucket) × (get addr l' ≡ some sub')
        × (at_key D x sub' ≡ (
            if has x aff && is_some (at_key D x sub)
            then addr_op (lookup (key_of addr x) acc)
            else at_key D x sub))
  unfolding apply_addr_scid_rollback
  get-apply_addr_scid_rollback aff acc addr x [] l' sub e found = cc found
  get-apply_addr_scid_rollback aff acc addr x ((a, b) ∷ l) l' sub e found =
      let (b', first, e1) = >>=-eq-some (apply_ops D (addr_ops aff acc a (D.entries b)) b) _ e in
      let (more, second, e2) = >>=-eq-some (apply_addr_scid_rollback D aff acc l) _ e1 in
      let made : (a, b') ∷ more ≡ l' = cc e2 in
      elim (Bool-cases (bytes_eq a addr)) [
        | inl same ↦
            let p : a ≡ addr = bytes_eq→eq a addr same in
            let q0 : some b ≡ some sub = sym (if_yes (bytes_eq a addr) _ _ same) ∙ found in
            let q : b ≡ sub = cc q0 in
            (
              b',
              ap (get addr) (sym made) ∙ if_yes (bytes_eq a addr) _ _ same,
              get-addr_ops aff acc a x (D.entries b) b b' first
                  ∙ ap
                      (λ (t : Bool).
                        if has x aff && t then addr_op (lookup (key_of a x) acc) else at_key D x b)
                      (has-keys x (D.entries b))
                  ∙ ap
                      (λ (t : Bytes).
                        if has x aff && is_some (at_key D x b)
                        then addr_op (lookup (key_of t x) acc)
                        else at_key D x b)
                      p
                  ∙ ap
                      (λ (t : D.Bucket).
                        if has x aff && is_some (at_key D x t)
                        then addr_op (lookup (key_of addr x) acc)
                        else at_key D x t)
                      q,
            )
        | inr other ↦
            let found' : get addr l ≡ some sub = sym (if_no (bytes_eq a addr) _ _ other) ∙ found in
            let (sub', f, r) =
              get-apply_addr_scid_rollback aff acc addr x l more sub second found' in
            (sub', ap (get addr) (sym made) ∙ if_no (bytes_eq a addr) _ _ other ∙ f, r)
      ]

module _ (D : Engine) (L : IsLawful D) (mi : Bytes → Option InstallRecord)
    (mc : Bytes → Option ClassMeta) where
  -- After a truncation, the entry that an address had for a contract is the encoding of the recount
  -- of the contract's surviving records, or is gone where there are none, if the contract is
  -- affected, and is as before if not. The recount touches one height after the other of the
  -- invocations that the address sent and of its normal transactions with the contract, and where
  -- there are none the height of the contract's first surviving install with the address as its
  -- owner.
  pub truncate_to_height-recount :
      (height : ℤ) (s t : Db D) (addr scid v : Bytes) (sub : D.Bucket)
      → truncate_to_height D mi mc height s ≡ some t
      → get addr s.addr_scids ≡ some sub
      → at_key D scid sub ≡ some v
      → (sub' : D.Bucket) × (get addr t.addr_scids ≡ some sub')
        × (at_key D scid sub' ≡ (
            if has scid (affected_scids D (not_below_zero height) s)
            then addr_op (recount D mi (not_below_zero height) s addr scid)
            else some v))
  unfolding finished
  truncate_to_height-recount height s t addr scid v sub e found here =
      let h = not_below_zero height in
      let aff = affected_scids D h s in
      let p : Passes D mi mc height s t = truncate_to_height-Passes D mi mc height s t e in
      let addrs : p.addrs ≡ t.addr_scids = ap (λ (u : Db D). u.addr_scids) p.result in
      let (sub', f, r) =
        get-apply_addr_scid_rollback D L aff (survivors D mi h aff s) addr scid s.addr_scids p.addrs
          sub p.rolled found in
      (
        sub',
        ap (get addr) (sym addrs) ∙ f,
        r ∙ elim (Bool-cases (has scid aff)) [
          | inl near ↦
              rw (near, here)
                (ap addr_op
                  (lookup-survivors D mi h aff s addr scid (affected_scids-IsDistinct D h s) near))
          | inr away ↦ rw (away, here) refl
        ],
      )
