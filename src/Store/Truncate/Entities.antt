-- ===== src/Store/Truncate/Entities.antt =====
-- What a truncation drops of the contracts installed above the height, and the two numbers of the
-- statistics.
use hyper_gnomon.Base.{
  ℕ, ◌+◌, ◌≡◌, refl, sym, ap, subst, ◌∙◌, inl, inr, ◌⊎◌, arith, List, [], ◌∷◌, Bool, true, false,
  Option, none, some, Bool-cases, Option-cases, if◌then◌else◌, if_yes, if_no,
}
use hyper_gnomon.Base.Int.{ℤ, ◌≤ℤ◌}
use hyper_gnomon.Base.Texts.{Bytes, bytes_eq, bytes_eq→eq, bytes_eq_refl, bytes_eq_comm}
use hyper_gnomon.Base.Dict.{has, is_some}
use hyper_gnomon.Base.Strconv.{parse_int, format_int}
use hyper_gnomon.Codec.Install.{InstallRecord}
use hyper_gnomon.Codec.ClassMeta.{ClassMeta}
use hyper_gnomon.Store.DecimalKeys.{class_key, decode_class_meta}
use hyper_gnomon.Store.Bolt.{Engine, IsLawful, at_key}
use hyper_gnomon.Store.Truncate.{
  ◌>>=◌, Db, installed_above, drop_found, drop_class, drop_entities, new_count, new_last,
  not_below_zero, sc_count, last_indexed_height, put_count, int_at, trim_stats, finished,
  truncate_to_height,
}
use hyper_gnomon.Store.Truncate.Stages.{>>=-eq-some, Passes, truncate_to_height-Passes}
use hyper_gnomon.Store.Truncate.Recount.{IsDistinct}

abbrev pub put_or_keep : Option Bytes → Option Bytes → Option Bytes
put_or_keep none old = old
put_or_keep (some v) old = some v

if_same : {A : Type 0} (b : Bool) (x : A) → (if b then x else x) ≡ x
if_same true x = refl
if_same false x = refl

module _ (D : Engine) where
  -- How many contracts of a list have an owner.
  abbrev pub owned_count : List Bytes → D.Bucket → ℕ
  owned_count [] b = 0
  owned_count (x ∷ l) b =
      let rest = owned_count l b in if is_some (at_key D x b) then rest + 1 else rest

module _ (D : Engine) (L : IsLawful D) (mc : Bytes → Option ClassMeta) where
  -- The four buckets that have a contract for the key.
  pub record Dropped (l : List Bytes) (s t : Db D) (x : Bytes) : Type 0 where
    pub owners : at_key D x t.owners ≡ (if has x l then none else at_key D x s.owners)
    pub class_idx : at_key D x t.class_idx ≡ (if has x l then none else at_key D x s.class_idx)
    pub sc_code : at_key D x t.sc_code ≡ (if has x l then none else at_key D x s.sc_code)
    pub invalid : at_key D x t.invalid ≡ (if has x l then none else at_key D x s.invalid)

  one_more :
      (y x : Bytes) (l : List Bytes) (b : D.Bucket) (o : Option Bytes)
      → o ≡ (if has x l then none else at_key D x (D.delete y b))
      → o ≡ (if has x (y ∷ l) then none else at_key D x b)
  one_more y x l b o e = e ∙ ground (arith, L.get-delete y x b)

  pub drop_entities-Dropped :
      (l : List Bytes) (s : Db D) (n : ℕ) (x : Bytes) → Dropped l s (drop_entities D mc l s n).0 x
  unfolding drop_entities
  drop_entities-Dropped [] s n x = record {
    owners = refl;
    class_idx = refl;
    sc_code = refl;
    invalid = refl;
  }
  drop_entities-Dropped (y ∷ l) s n x =
      let r = drop_entities-Dropped l _ _ x in
      record {
        owners = one_more y x l s.owners _ r.owners;
        class_idx = one_more y x l s.class_idx _ r.class_idx;
        sc_code = one_more y x l s.sc_code _ r.sc_code;
        invalid = one_more y x l s.invalid _ r.invalid;
      }

  owned_count-delete :
      (y : Bytes) (l : List Bytes) (b : D.Bucket)
      → has y l ≡ false
      → owned_count D l (D.delete y b) ≡ owned_count D l b
  owned_count-delete y [] b h = refl
  owned_count-delete y (x ∷ l) b h = elim (Bool-cases (bytes_eq x y)) [
    | inl same ↦ cc (sym (if_yes (bytes_eq x y) _ _ same) ∙ h)
    | inr other ↦ ground (
      arith,
      owned_count-delete y l b (sym (if_no (bytes_eq x y) _ _ other) ∙ h),
      L.get-delete y x b,
      bytes_eq_comm y x,
    )
  ]

  pub drop_entities-count :
      (l : List Bytes) (s : Db D) (n : ℕ)
      → IsDistinct l
      → (drop_entities D mc l s n).1 ≡ n + owned_count D l s.owners
  unfolding drop_entities
  drop_entities-count [] s n d = omega arith
  drop_entities-count (y ∷ l) s n d =
      drop_entities-count l _ _ d.1 ∙ ground (arith, owned_count-delete y l s.owners d.0)

  drop_class_gone :
      (y k : Bytes) (idx b : D.Bucket)
      → at_key D k b ≡ none
      → at_key D k (drop_class D mc y idx b) ≡ none
  unfolding drop_class
  drop_class_gone y k idx b h = elim (Option-cases (at_key D y idx)) [
    | inl e ↦ rw (e, drop_class) h
    | inr (v, e) ↦ rw (e, drop_class) (found (decode_class_meta mc v))
  ]
    where
      found : (o : Option (Option ClassMeta)) → at_key D k (drop_found D y o b) ≡ none
      found none = h
      found (some none) = h
      found (some (some meta)) =
          L.get-delete (class_key meta.class meta.install_height y) k b ∙ rw h (ground arith)

  class_stays_gone :
      (l : List Bytes) (s : Db D) (n : ℕ) (k : Bytes)
      → at_key D k s.class_prefix ≡ none
      → at_key D k (drop_entities D mc l s n).0.class_prefix ≡ none
  unfolding drop_entities
  class_stays_gone [] s n k h = h
  class_stays_gone (y ∷ l) s n k h =
      class_stays_gone l _ _ k (drop_class_gone y k s.class_idx s.class_prefix h)

  -- The class row that the index gives for a contract of the list is gone.
  pub class_row_gone :
      (l : List Bytes) (s : Db D) (n : ℕ) (x v : Bytes) (meta : ClassMeta)
      → has x l ≡ true
      → at_key D x s.class_idx ≡ some v
      → decode_class_meta mc v ≡ some (some meta)
      → at_key D
          (class_key meta.class meta.install_height x)
          (drop_entities D mc l s n).0.class_prefix
        ≡ none
  unfolding drop_entities drop_class
  class_row_gone [] s n x v meta h e d = cc h
  class_row_gone (y ∷ l) s n x v meta h e d = elim (Bool-cases (bytes_eq y x)) [
    | inl same ↦
        let p : y ≡ x = bytes_eq→eq y x same in
        class_stays_gone l _ _ (class_key meta.class meta.install_height x) (
          rw p (
            rw (e, drop_class)
              (rw (d, drop_found)
                (L.get-delete (class_key meta.class meta.install_height x)
                    (class_key meta.class meta.install_height x) s.class_prefix
                  ∙ if_yes _ _ _ (bytes_eq_refl (class_key meta.class meta.install_height x))))))
    | inr other ↦
        class_row_gone l _ _ x v meta (sym (if_no (bytes_eq y x) _ _ other) ∙ h)
          (L.get-delete y x s.class_idx ∙ if_no (bytes_eq y x) _ _ other ∙ e) d
  ]

  get-put_count :
      (o : Option Bytes) (b c : D.Bucket) (k : Bytes)
      → put_count D o b ≡ some c
      → at_key D k c ≡ (if bytes_eq sc_count k then put_or_keep o (at_key D k b) else at_key D k b)
  unfolding put_count
  get-put_count none b c k e =
      let q : b ≡ c = cc e in
      ap (at_key D k) (sym q) ∙ sym (if_same (bytes_eq sc_count k) (at_key D k b))
  get-put_count (some v) b c k e = L.get-put sc_count v k b c e

  pub get-trim_stats :
      (h : ℤ) (n : ℕ) (b c : D.Bucket)
      → trim_stats D h n b ≡ some c
      → (at_key D last_indexed_height c
          ≡ some (format_int (new_last h (int_at D last_indexed_height b))))
        × (at_key D sc_count c
            ≡ put_or_keep (new_count n (int_at D sc_count b)) (at_key D sc_count b))
  unfolding trim_stats int_at bytes_eq
  get-trim_stats h n b c e =
      let (d, first, last) = >>=-eq-some (put_count D (new_count n (int_at D sc_count b)) b) _ e in
      let kept : at_key D last_indexed_height d ≡ at_key D last_indexed_height b =
        get-put_count (new_count n (int_at D sc_count b)) b d last_indexed_height first in
      (
        L.get-put last_indexed_height (format_int (new_last h (int_at D last_indexed_height d)))
              last_indexed_height d c last
            ∙ ap (λ (o : Option Bytes). some (format_int (new_last h (o >>= λ v. parse_int v))))
                kept,
        L.get-put last_indexed_height (format_int (new_last h (int_at D last_indexed_height d)))
              sc_count d c last
            ∙ get-put_count (new_count n (int_at D sc_count b)) b d sc_count first,
      )

-- The smaller one of a height and the last indexed height, if there is one.
pub record Lowered (h : ℤ) (old : Option ℤ) (last : ℤ) : Type 0 where
  pub bound : last ≤ℤ h
  pub absent : old ≡ none → last ≡ h
  pub present : (cur : ℤ) → old ≡ some cur → (last ≤ℤ cur) × ((last ≡ h) ⊎ (last ≡ cur))

module _ (D : Engine) (L : IsLawful D) (mi : Bytes → Option InstallRecord)
    (mc : Bytes → Option ClassMeta) where
  pub truncate_to_height-Dropped :
      (height : ℤ) (s t : Db D) (scid : Bytes)
      → truncate_to_height D mi mc height s ≡ some t
      → Dropped D L mc (installed_above D (not_below_zero height) s []) s t scid
  unfolding finished
  truncate_to_height-Dropped height s t scid e =
      let p : Passes D mi mc height s t = truncate_to_height-Passes D mi mc height s t e in
      let r =
        drop_entities-Dropped D L mc (installed_above D (not_below_zero height) s []) s 0 scid in
      subst (λ (u : Db D). Dropped D L mc (installed_above D (not_below_zero height) s []) s u scid)
        p.result
        (record {
          owners = r.owners;
          class_idx = r.class_idx;
          sc_code = r.sc_code;
          invalid = r.invalid;
        })
