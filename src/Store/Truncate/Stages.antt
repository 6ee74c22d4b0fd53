-- ===== src/Store/Truncate/Stages.antt =====
-- The passes one by one: what the sets of contracts hold, and what the prefix walks leave.
use hyper_gnomon.Base.{
  ℕ, suc, ◌≡◌, refl, sym, ap, ◌∙◌, inl, inr, arith, List, [], ◌∷◌, ◌++◌, Bool, true, false, ◌&&◌,
  ◌||◌, Option, none, some, Bool-cases, Option-cases, ◌==◌, ==_refl, take, if◌then◌else◌, if_yes,
  if_no,
}
use hyper_gnomon.Base.Int.{ℤ}
use hyper_gnomon.Base.Texts.{Bytes, bytes_eq, bytes_eq→eq}
use hyper_gnomon.Base.Dict.{has, keys, is_some, has-keys, has-include, has-include_same}
use hyper_gnomon.Codec.Install.{InstallRecord}
use hyper_gnomon.Codec.ClassMeta.{ClassMeta}
use hyper_gnomon.Store.Keys.{index_byte}
use hyper_gnomon.Store.Bolt.{Engine, IsLawful, has_prefix, at_key, delete_prefix_where}
use hyper_gnomon.Store.Bolt.Laws.{get-delete_prefix_where}
use hyper_gnomon.Store.Truncate.{
  Rows, ◌>>=◌, mark_key, mark, trim_prefixes, Db, affected_scids, installed_above, survivors,
  apply_addr_scid_rollback, lower_pointers, trim_snapshots, trim_stats, drop_entities, finished,
  truncate_to_height, not_below_zero,
}

pub >>=-eq-some :
    {A B : Type 0} (m : Option A) (next : A → Option B) {b : B}
    → (m >>= next) ≡ some b
    → (a : A) × (m ≡ some a) × (next a ≡ some b)
>>=-eq-some none next h = cc
>>=-eq-some (some a) next h = (a, refl, h)

mark_key_keeps :
    (o : Option Bytes) (x : Bytes) (set : List Bytes)
    → has x set ≡ true
    → has x (mark_key o set) ≡ true
mark_key_keeps none x set h = h
mark_key_keeps (some y) x set h = has-include y x set h

pub mark_keeps :
    (f : Bytes → Option Bytes) (m : Rows) (set : List Bytes) (x : Bytes)
    → has x set ≡ true
    → has x (mark f m set) ≡ true
unfolding mark
mark_keeps f [] set x h = h
mark_keeps f ((k, v) ∷ m) set x h =
    mark_keeps f m (mark_key (f k) set) x (mark_key_keeps (f k) x set h)

-- Every name that a key of the walk gives is in the set.
pub mark_finds :
    (f : Bytes → Option Bytes) (m : Rows) (set : List Bytes) (k x : Bytes)
    → has k (keys m) ≡ true
    → f k ≡ some x
    → has x (mark f m set) ≡ true
unfolding mark
mark_finds f [] set k x h e = cc
mark_finds f ((j, v) ∷ m) set k x h e = elim (Bool-cases (bytes_eq j k)) [
  | inl same ↦
      let q : f j ≡ some x = ap f (bytes_eq→eq j k same) ∙ e in
      mark_keeps f m (mark_key (f j) set) x (rw q (has-include_same x set))
  | inr other ↦ mark_finds f m (mark_key (f j) set) k x (sym (if_no (bytes_eq j k) _ _ other) ∙ h) e
]

-- A key has as a prefix its part up to the separator.
pub prefix_of_index :
    (k : Bytes) (c i : ℕ) → index_byte k c ≡ some i → has_prefix k (take i k ++ (c ∷ [])) ≡ true
prefix_of_index [] c i h = cc
prefix_of_index (x ∷ k) c i h = elim (Bool-cases (x == c)) [
  | inl here ↦
      let e : some 0 ≡ some i = sym (if_yes (x == c) _ _ here) ∙ h in
      let q : 0 ≡ i = cc e in rw (← q, here) refl
  | inr there ↦
      let e : after (index_byte k c) ≡ some i = sym (if_no (x == c) _ _ there) ∙ h in
      elim (Option-cases (index_byte k c)) [
        | inl missing ↦ cc (sym (ap after missing) ∙ e)
        | inr (j, found) ↦
            let e1 : some (suc j) ≡ some i = sym (ap after found) ∙ e in
            let q : suc j ≡ i = cc e1 in rw (← q, ==_refl x) (prefix_of_index k c j found)
      ]
]
  where
    after : Option ℕ → Option ℕ
    after none = none
    after (some j) = some (suc j)

abbrev pub any_prefix : ℕ → Bytes → List Bytes → Bool
any_prefix c k [] = false
any_prefix c k (scid ∷ l) = has_prefix k (scid ++ (c ∷ [])) || any_prefix c k l

pub any_prefix_found :
    (c : ℕ) (k scid : Bytes) (l : List Bytes)
    → has scid l ≡ true
    → has_prefix k (scid ++ (c ∷ [])) ≡ true
    → any_prefix c k l ≡ true
any_prefix_found c k scid [] h p = cc
any_prefix_found c k scid (y ∷ l) h p = elim (Bool-cases (bytes_eq y scid)) [
  | inl same ↦ rw (bytes_eq→eq y scid same, p) refl
  | inr other ↦
      rw (any_prefix_found c k scid l (sym (if_no (bytes_eq y scid) _ _ other) ∙ h) p)
        (ground arith)
]

module _ (D : Engine) (L : IsLawful D) where
  pub get-trim_prefixes :
      (c : ℕ) (pred : Bytes → Bool) (l : List Bytes) (k : Bytes) (b : D.Bucket)
      → at_key D k (trim_prefixes D c pred l b)
        ≡ (if any_prefix c k l && pred k then none else at_key D k b)
  unfolding trim_prefixes
  get-trim_prefixes c pred [] k b = refl
  get-trim_prefixes c pred (scid ∷ l) k b = ground (
    arith,
    get-trim_prefixes c pred l k (delete_prefix_where D b (scid ++ (c ∷ [])) pred),
    get-delete_prefix_where D L (scid ++ (c ∷ [])) pred k b,
  )

  -- A walk by the prefixes of a set of names does what a walk over all keys would do, if each key
  -- to delete that is there has its name in the set.
  pub trim_prefixes_complete :
      (c : ℕ) (pred : Bytes → Bool) (l : List Bytes) (k : Bytes) (b : D.Bucket)
      → (pred k ≡ true → has k (keys (D.entries b)) ≡ true → any_prefix c k l ≡ true)
      → at_key D k (trim_prefixes D c pred l b) ≡ (if pred k then none else at_key D k b)
  trim_prefixes_complete c pred l k b all =
      get-trim_prefixes c pred l k b ∙ elim (Bool-cases (pred k)) [
        | inr keep ↦ ground (arith, keep)
        | inl drop_it ↦ elim (Option-cases (at_key D k b)) [
          | inl absent ↦ rw absent (ground arith)
          | inr (v, found) ↦
              let e : any_prefix c k l ≡ true =
                all drop_it (has-keys k (D.entries b) ∙ ap is_some found) in
              rw (e, drop_it) refl
        ]
      ]

-- The three passes that can fail, and the store that a success leaves.
module _ (D : Engine) (mi : Bytes → Option InstallRecord) (mc : Bytes → Option ClassMeta) where
  pub record Passes (height : ℤ) (s t : Db D) : Type 0 where
    pub addrs : List (Bytes × D.Bucket)
    pub latest : D.Bucket
    pub stats : D.Bucket
    pub rolled :
        apply_addr_scid_rollback D
          (affected_scids D (not_below_zero height) s)
          (survivors D mi (not_below_zero height) (affected_scids D (not_below_zero height) s) s)
          s.addr_scids
        ≡ some addrs
    pub lowered :
        lower_pointers D
          (not_below_zero height)
          (trim_snapshots D (not_below_zero height) s.sc_vars)
          (affected_scids D (not_below_zero height) s)
          s.sc_vars_latest
        ≡ some latest
    pub counted :
        trim_stats D
          (not_below_zero height)
          (drop_entities D mc (installed_above D (not_below_zero height) s []) s 0).1
          s.stats
        ≡ some stats
    pub result : finished D mc (not_below_zero height) s addrs latest stats ≡ t

  pub truncate_to_height-Passes :
      (height : ℤ) (s t : Db D) → truncate_to_height D mi mc height s ≡ some t → Passes height s t
  unfolding truncate_to_height
  truncate_to_height-Passes height s t e =
      let (addrs, rolled, e1) = >>=-eq-some _ _ e in
      let (latest, lowered, e2) = >>=-eq-some _ _ e1 in
      let (stats, counted, e3) = >>=-eq-some _ _ e2 in
      record {
        addrs = addrs;
        latest = latest;
        stats = stats;
        rolled = rolled;
        lowered = lowered;
        counted = counted;
        result = cc e3;
      }
