-- ===== src/Store/Truncate/Pointers.antt =====
-- The pointers to the latest snapshots after a truncation.
use hyper_gnomon.Base.{
  zero, suc, ◌≡◌, refl, sym, ap, subst, ◌∙◌, inl, inr, ◌⊎◌, arith, List, [], ◌∷◌, ◌++◌, Bool, true,
  false, ◌&&◌, not, Option, none, some, Bool-cases, length, drop, if◌then◌else◌, if_yes, if_no,
}
use hyper_gnomon.Base.Int.{ℤ, pos, negsuc, ltb_ℤ, ◌≤ℤ◌}
use hyper_gnomon.Base.Texts.{Bytes, bytes_eq, bytes_eq→eq, bytes_eq_refl}
use hyper_gnomon.Base.Dict.{has, keys}
use hyper_gnomon.Base.Strconv.{parse_int}
use hyper_gnomon.Codec.Install.{InstallRecord}
use hyper_gnomon.Codec.ClassMeta.{ClassMeta}
use hyper_gnomon.Store.Keys.{colon, enc_height}
use hyper_gnomon.Store.Bolt.{Engine, IsLawful, IsAscending, has_prefix, seek, at_key}
use hyper_gnomon.Store.Bolt.Order.{prefix_not_less, past_prefix, below_has}
use hyper_gnomon.Store.Bolt.Laws.{IsFrom, IsAscending-seek, has-seek}
use hyper_gnomon.Store.Truncate.{
  Rows, raise_to, max_loop, max_surviving_sc_vars_height, set_pointer, lower_pointers,
  trim_snapshots, Db, affected_scids, finished, truncate_to_height, not_below_zero,
}
use hyper_gnomon.Store.Truncate.Stages.{>>=-eq-some, Passes, truncate_to_height-Passes}

-- A snapshot of the walk whose height is not above `h`.
pub record Survives (prefix : Bytes) (h : ℤ) (m : Rows) (k : Bytes) (hh : ℤ) : Type 0 where
  pub found : has k (keys m) ≡ true
  pub named : has_prefix k prefix ≡ true
  pub height : parse_int (drop (length prefix) k) ≡ some hh
  pub kept : hh ≤ℤ h

raise_to-le : (h : ℤ) (o : Option ℤ) (max : ℤ) → max ≤ℤ raise_to h o max
raise_to-le h none max = omega arith
raise_to-le h (some hh) max = elim (Bool-cases (not (ltb_ℤ h hh) && ltb_ℤ max hh)) [
  | inl higher ↦ rw higher (ground (arith, higher))
  | inr lower ↦ rw lower (omega arith)
]

raise_to_bound : (h hh max : ℤ) → hh ≤ℤ h → hh ≤ℤ raise_to h (some hh) max
raise_to_bound h hh max le = elim (Bool-cases (not (ltb_ℤ h hh) && ltb_ℤ max hh)) [
  | inl higher ↦ rw higher (omega arith)
  | inr lower ↦ rw lower (ground (arith, lower))
]

raise_to_cases :
    (h : ℤ) (o : Option ℤ) (max : ℤ)
    → (raise_to h o max ≡ max) ⊎ ((o ≡ some (raise_to h o max)) × (raise_to h o max ≤ℤ h))
raise_to_cases h none max = inl refl
raise_to_cases h (some hh) max = elim (Bool-cases (not (ltb_ℤ h hh) && ltb_ℤ max hh)) [
  | inl higher ↦ inr (rw higher refl, rw higher (ground (arith, higher)))
  | inr lower ↦ inl (rw lower refl)
]

max_loop-le : (p : Bytes) (h : ℤ) (m : Rows) (max : ℤ) → max ≤ℤ max_loop p h m max
unfolding max_loop
max_loop-le p h [] max = omega arith
max_loop-le p h ((k, v) ∷ m) max = elim (Bool-cases (has_prefix k p)) [
  | inl within ↦ rw within (
      let o = parse_int (drop (length p) k) in
      omega (arith, raise_to-le h o max, max_loop-le p h m (raise_to h o max)))
  | inr past ↦ rw past (omega arith)
]

-- The walk meets every snapshot of the contract: none that survives is above the result.
max_loop_bound :
    (p : Bytes) (h : ℤ) (m : Rows) (max : ℤ) (k : Bytes) (hh : ℤ)
    → IsAscending m
    → IsFrom p m
    → Survives p h m k hh
    → hh ≤ℤ max_loop p h m max
unfolding max_loop
max_loop_bound p h [] max k hh a f s = cc (s.found)
max_loop_bound p h ((j, v) ∷ m) max k hh a f s = elim (Bool-cases (bytes_eq j k)) [
  | inl same ↦
      let e : j ≡ k = bytes_eq→eq j k same in
      let within : has_prefix j p ≡ true = rw e s.named in
      let read : parse_int (drop (length p) j) ≡ some hh = rw e s.height in
      rw (within, read)
        (omega
          (arith, raise_to_bound h hh max s.kept, max_loop-le p h m (raise_to h (some hh) max)))
  | inr other ↦
      let later : has k (keys m) ≡ true = sym (if_no (bytes_eq j k) _ _ other) ∙ s.found in
      elim (Bool-cases (has_prefix j p)) [
        | inl within ↦ rw within (
            max_loop_bound p h m (raise_to h (parse_int (drop (length p) j)) max) k hh a.1 f.1
              (record { found = later; named = s.named; height = s.height; kept = s.kept }))
        | inr past ↦ cc (past_prefix j k p f.0 past (below_has j k m a.0 later), s.named)
      ]
]

later-Survives :
    (p : Bytes) (h : ℤ) (j v : Bytes) (m : Rows) (k : Bytes) (hh : ℤ)
    → Survives p h m k hh
    → Survives p h ((j, v) ∷ m) k hh
later-Survives p h j v m k hh s = record {
  found = ground (arith, s.found);
  named = s.named;
  height = s.height;
  kept = s.kept;
}

max_loop_attained :
    (p : Bytes) (h : ℤ) (m : Rows) (max : ℤ)
    → (max_loop p h m max ≡ max) ⊎ ((k : Bytes) × Survives p h m k (max_loop p h m max))
unfolding max_loop
max_loop_attained p h [] max = inl refl
max_loop_attained p h ((k, v) ∷ m) max = elim (Bool-cases (has_prefix k p)) [
  | inr past ↦ inl (rw past refl)
  | inl within ↦ rw within (
      let o = parse_int (drop (length p) k) in
      elim (max_loop_attained p h m (raise_to h o max)) [
        | inr (j, s) ↦ inr (j, later-Survives p h k v m j _ s)
        | inl same ↦ elim (raise_to_cases h o max) [
          | inl kept ↦ inl (same ∙ kept)
          | inr (read, le) ↦ inr (
            k,
            record {
              found = rw (bytes_eq_refl k) refl;
              named = within;
              height = read ∙ ap some (sym same);
              kept = rw same le;
            },
          )
        ]
      ])
]

-- The bytes of a pointer; height 0 has none.
abbrev pub pointer : ℤ → Option Bytes
pointer (pos zero) = none
pointer (pos (suc n)) = some (enc_height (pos (suc n)))
pointer (negsuc n) = some (enc_height (negsuc n))

if_same : {A : Type 0} (b : Bool) (x : A) → (if b then x else x) ≡ x
if_same true x = refl
if_same false x = refl

module _ (D : Engine) where
  -- The height is that of the contract's highest snapshot up to `h`, or 0 where it has none above 0.
  pub record IsGreatest (scid : Bytes) (h : ℤ) (vars : D.Bucket) (max : ℤ) : Type 0 where
    pub bound :
        (k : Bytes) (hh : ℤ) → Survives (scid ++ (colon ∷ [])) h (D.entries vars) k hh → hh ≤ℤ max
    pub attained :
        (max ≡ pos 0) ⊎ ((k : Bytes) × Survives (scid ++ (colon ∷ [])) h (D.entries vars) k max)

module _ (D : Engine) (L : IsLawful D) where
  seek_found :
      (p k : Bytes) (b : D.Bucket)
      → has_prefix k p ≡ true
      → has k (keys (seek p (D.entries b))) ≡ has k (keys (D.entries b))
  seek_found p k b named =
      has-seek p k (D.entries b) (L.ascending b) ∙ ground (arith, prefix_not_less k p named)

  max_surviving-IsGreatest :
      (vars : D.Bucket) (scid : Bytes) (h : ℤ)
      → IsGreatest D scid h vars (max_surviving_sc_vars_height D vars scid h)
  unfolding max_surviving_sc_vars_height
  max_surviving-IsGreatest vars scid h = record {
    bound = λ k hh s.
        max_loop_bound p h (seek p (D.entries vars)) (pos 0) k hh walk.0 walk.1 (record {
          found = seek_found p k vars s.named ∙ s.found;
          named = s.named;
          height = s.height;
          kept = s.kept;
        });
    attained = elim (max_loop_attained p h (seek p (D.entries vars)) (pos 0)) [
      | inl zero_height ↦ inl zero_height
      | inr (k, s) ↦ inr (
        k,
        record {
          found = sym (seek_found p k vars s.named) ∙ s.found;
          named = s.named;
          height = s.height;
          kept = s.kept;
        },
      )
    ];
  }
    where
      p : Bytes
      p = scid ++ (colon ∷ [])

      walk : IsAscending (seek p (D.entries vars)) × IsFrom p (seek p (D.entries vars))
      walk = IsAscending-seek p (D.entries vars) (L.ascending vars)

  get-set_pointer :
      (scid x : Bytes) (max : ℤ) (b c : D.Bucket)
      → set_pointer D scid max b ≡ some c
      → at_key D x c ≡ (if bytes_eq scid x then pointer max else at_key D x b)
  unfolding set_pointer
  get-set_pointer scid x (pos zero) b c e =
      let q : D.delete scid b ≡ c = cc e in ap (at_key D x) (sym q) ∙ L.get-delete scid x b
  get-set_pointer scid x (pos (suc n)) b c e = L.get-put scid (enc_height (pos (suc n))) x b c e
  get-set_pointer scid x (negsuc n) b c e = L.get-put scid (enc_height (negsuc n)) x b c e

  get-lower_pointers :
      (h : ℤ) (vars : D.Bucket) (l : List Bytes) (x : Bytes) (b c : D.Bucket)
      → lower_pointers D h vars l b ≡ some c
      → at_key D x c
        ≡ (if has x l then pointer (max_surviving_sc_vars_height D vars x h) else at_key D x b)
  unfolding lower_pointers
  get-lower_pointers h vars [] x b c e = ap (at_key D x) (cc e)
  get-lower_pointers h vars (scid ∷ l) x b c e =
      let (d, first, more) =
        >>=-eq-some (set_pointer D scid (max_surviving_sc_vars_height D vars scid h) b) _ e in
      let q = get-set_pointer scid x (max_surviving_sc_vars_height D vars scid h) b d first in
      let target = pointer (max_surviving_sc_vars_height D vars x h) in
      get-lower_pointers h vars l x d c more ∙ elim (Bool-cases (bytes_eq scid x)) [
        | inl same ↦
            let r : at_key D x d ≡ target =
              q
              ∙ if_yes (bytes_eq scid x) _ _ same
              ∙ ap (λ (t : Bytes). pointer (max_surviving_sc_vars_height D vars t h))
                  (bytes_eq→eq scid x same) in
            ap (λ (o : Option Bytes). if has x l then target else o) r
            ∙ if_same (has x l) target
            ∙ sym (if_yes (has x (scid ∷ l)) _ _ (if_yes (bytes_eq scid x) _ _ same))
        | inr other ↦
            ap (λ (o : Option Bytes). if has x l then target else o)
              (q ∙ if_no (bytes_eq scid x) _ _ other)
            ∙ ap (λ (t : Bool). if t then target else at_key D x b)
                (sym (if_no (bytes_eq scid x) _ _ other))
      ]

module _ (D : Engine) (L : IsLawful D) (mi : Bytes → Option InstallRecord)
    (mc : Bytes → Option ClassMeta) where
  -- After a truncation, the pointer of an affected contract is the height of its highest snapshot
  -- up to the truncation's height that the bucket has, and no pointer where that is 0 or there is
  -- none; the pointer of any other contract is as before.
  pub truncate_to_height-pointers :
      (height : ℤ) (s t : Db D) (scid : Bytes)
      → truncate_to_height D mi mc height s ≡ some t
      → ((has scid (affected_scids D (not_below_zero height) s) ≡ true)
          × ((max : ℤ) × IsGreatest D scid (not_below_zero height) t.sc_vars max
              × (at_key D scid t.sc_vars_latest ≡ pointer max)))
        ⊎ ((has scid (affected_scids D (not_below_zero height) s) ≡ false)
            × (at_key D scid t.sc_vars_latest ≡ at_key D scid s.sc_vars_latest))
  unfolding finished
  truncate_to_height-pointers height s t scid e =
      let h = not_below_zero height in
      let p : Passes D mi mc height s t = truncate_to_height-Passes D mi mc height s t e in
      let vars : trim_snapshots D h s.sc_vars ≡ t.sc_vars = ap (λ (u : Db D). u.sc_vars) p.result in
      let latest : p.latest ≡ t.sc_vars_latest = ap (λ (u : Db D). u.sc_vars_latest) p.result in
      let found =
        get-lower_pointers D L h (trim_snapshots D h s.sc_vars) (affected_scids D h s) scid
          s.sc_vars_latest p.latest p.lowered in
      elim (Bool-cases (has scid (affected_scids D h s))) [
        | inl aff ↦ inl (
          aff,
          (
            max_surviving_sc_vars_height D (trim_snapshots D h s.sc_vars) scid h,
            subst
                (λ (v : D.Bucket).
                  IsGreatest D scid h v
                    (max_surviving_sc_vars_height D (trim_snapshots D h s.sc_vars) scid h))
                vars (max_surviving-IsGreatest D L (trim_snapshots D h s.sc_vars) scid h),
            ap (at_key D scid) (sym latest) ∙ found ∙ if_yes _ _ _ aff,
          ),
        )
        | inr un ↦ inr (un, ap (at_key D scid) (sym latest) ∙ found ∙ if_no _ _ _ un)
      ]
