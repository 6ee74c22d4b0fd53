-- ===== src/Store/Flush/Frame.antt =====
-- FlushBatch of storage/bbolt.go: what its loops leave as it was. `test` is a property of keys that all
-- the keys which a loop writes have.
use hyper_gnomon.Base.{
  ℕ, ◌≡◌, sym, ap, ◌∙◌, inl, inr, List, [], ◌∷◌, Bool, true, false, some, All, Bool-cases,
  if◌then◌else◌, if_no,
}
use hyper_gnomon.Base.Int.{ℤ}
use hyper_gnomon.Base.Texts.{Bytes, bytes_eq, bytes_eq→eq}
use hyper_gnomon.Base.Sort.{sort_by, All-sort_by}
use hyper_gnomon.Codec.Variables.{ScidVariable}
use hyper_gnomon.Publish.{VarKey}
use hyper_gnomon.Store.Keys.{append_height_key}
use hyper_gnomon.Store.DecimalKeys.{sc_vars_key}
use hyper_gnomon.Store.Bolt.{Engine, IsLawful, at_key}
use hyper_gnomon.Base.Int.{ltb_ℤ}
use hyper_gnomon.Store.Truncate.{Rows}
use hyper_gnomon.Store.Truncate.Stages.{>>=-eq-some}
use hyper_gnomon.Store.Batch.{eq_ℤ}
use hyper_gnomon.Store.Flush.{add_run, runs}
use hyper_gnomon.Store.Flush.Stages.{
  put_rows, ends_run, put_latest_sc_vars_height, put_snapshots, put_runs, put_heights,
}

All-add_run :
    (P : ℤ → Type 0) (h : ℤ) (l : List (ℤ × ℕ))
    → P h
    → All (λ r. P r.0) l
    → All (λ r. P r.0) (add_run h l)
All-add_run P h [] p a = (p, tt)
All-add_run P h ((g, n) ∷ l) p a = elim (Bool-cases (eq_ℤ g h)) [
  | inl same ↦ rw same (a.0, a.1)
  | inr other ↦ rw other (p, a)
]

All-runs : (P : ℤ → Type 0) (l : List ℤ) → All P l → All (λ r. P r.0) (runs l)
All-runs P [] a = tt
All-runs P (h ∷ l) a = All-add_run P h (runs l) a.0 (All-runs P l a.1)

module _ (D : Engine) (test : Bytes → Bool) where
  -- The two buckets agree on the keys that do not have the property.
  abbrev pub Agrees : D.Bucket → D.Bucket → Type 0
  Agrees b c = (k : Bytes) → test k ≡ false → at_key D k c ≡ at_key D k b

module _ (D : Engine) (L : IsLawful D) (test : Bytes → Bool) where
  put-Agrees :
      (k v : Bytes) (b c : D.Bucket) → test k ≡ true → D.put k v b ≡ some c → Agrees D test b c
  put-Agrees k v b c marked e j unmarked = elim (Bool-cases (bytes_eq k j)) [
    | inl same ↦
        let q : test k ≡ test j = ap test (bytes_eq→eq k j same) in cc (q, marked, unmarked)
    | inr other ↦ L.get-put k v j b c e ∙ if_no (bytes_eq k j) _ _ other
  ]

  then-Agrees : (b c d : D.Bucket) → Agrees D test b c → Agrees D test c d → Agrees D test b d
  then-Agrees b c d first second j unmarked = second j unmarked ∙ first j unmarked

  pub put_rows-Agrees :
      (rows : Rows) (b c : D.Bucket)
      → All (λ r. test r.0 ≡ true) rows
      → put_rows D rows b ≡ some c
      → Agrees D test b c
  unfolding put_rows
  put_rows-Agrees [] b c a e = λ j unmarked. ap (at_key D j) (sym (cc e))
  put_rows-Agrees ((k, v) ∷ rows) b c a e =
      let (d, first, more) = >>=-eq-some (D.put k v b) _ e in
      then-Agrees b d c (put-Agrees k v b d a.0 first) (put_rows-Agrees rows d c a.1 more)

  pub put_snapshots-Agrees :
      (l : List (VarKey × List ScidVariable)) (b p : D.Bucket) (c : D.Bucket × D.Bucket)
      → All (λ r. test (sc_vars_key r.0.scid r.0.height) ≡ true) l
      → put_snapshots D l b p ≡ some c
      → Agrees D test b c.0
  unfolding put_snapshots
  put_snapshots-Agrees [] b p c a e = λ j unmarked.
      let q : (b, p) ≡ c = cc e in ap (λ (x : D.Bucket × D.Bucket). at_key D j x.0) (sym q)
  put_snapshots-Agrees ((k, vars) ∷ l) b p c a e =
      let (d, first, more) = >>=-eq-some _ _ e in
      let (q, pointed, rest) =
        >>=-eq-some
          (if ends_run D k.scid l then put_latest_sc_vars_height D p k.scid k.height else some p) _
          more in
      then-Agrees b d c.0 (put-Agrees _ _ b d a.0 first) (put_snapshots-Agrees l d q c a.1 rest)

  put_runs-Agrees :
      (scid : Bytes) (l : List (ℤ × ℕ)) (b c : D.Bucket)
      → All (λ r. test (append_height_key [] scid r.0) ≡ true) l
      → put_runs D scid l b ≡ some c
      → Agrees D test b c
  unfolding put_runs
  put_runs-Agrees scid [] b c a e = λ j unmarked. ap (at_key D j) (sym (cc e))
  put_runs-Agrees scid ((h, n) ∷ l) b c a e =
      let (d, first, more) = >>=-eq-some _ _ e in
      then-Agrees b d c (put-Agrees _ _ b d a.0 first) (put_runs-Agrees scid l d c a.1 more)

  pub put_heights-Agrees :
      (l : List (Bytes × List ℤ)) (b c : D.Bucket)
      → All (λ r. All (λ h. test (append_height_key [] r.0 h) ≡ true) r.1) l
      → put_heights D l b ≡ some c
      → Agrees D test b c
  unfolding put_heights
  put_heights-Agrees [] b c a e = λ j unmarked. ap (at_key D j) (sym (cc e))
  put_heights-Agrees ((scid, hs) ∷ l) b c a e =
      let (d, first, more) = >>=-eq-some _ _ e in
      let sorted = All-sort_by (λ h. test (append_height_key [] scid h) ≡ true) ltb_ℤ hs a.0 in
      then-Agrees b d c
        (put_runs-Agrees scid (runs (sort_by ltb_ℤ hs)) b d
          (All-runs (λ h. test (append_height_key [] scid h) ≡ true) (sort_by ltb_ℤ hs) sorted)
          first)
        (put_heights-Agrees l d c a.1 more)
