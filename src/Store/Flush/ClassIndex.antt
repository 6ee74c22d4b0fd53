-- ===== src/Store/Flush/ClassIndex.antt =====
-- FlushBatch of storage/bbolt.go: the bucket of the classes against the index by contract. A flush removes
-- the row of a contract's old class, so that a scan of the classes meets each contract once.
use hyper_gnomon.Base.{
  ◌≡◌, sym, ap, ◌∙◌, inl, inr, arith, Bool, true, false, not, ◌||◌, Option, none, some, Bool-cases,
  if◌then◌else◌, if_yes, if_no,
}
use hyper_gnomon.Base.Int.{ℤ, IsI64}
use hyper_gnomon.Base.Texts.{Bytes, bytes_eq, bytes_eq→eq, bytes_eq_refl}
use hyper_gnomon.Base.Dict.{is_some}
use hyper_gnomon.Codec.ClassMeta.{ClassMeta}
use hyper_gnomon.Codec.ClassMeta.RoundTrip.{InRange}
use hyper_gnomon.Store.DecimalKeys.{class_key, decode_class_meta}
use hyper_gnomon.Store.DecimalKeys.Classes.{IsUnbarred}
use hyper_gnomon.Store.Bolt.{Engine, IsLawful, at_key}
use hyper_gnomon.Store.Batch.{eq_ℤ}
use hyper_gnomon.Store.Flush.Stages.{drop_stale, clear_stale}

-- A class that can be told from the rest of its key, in a record that can be encoded.
pub record IsStorable (m : ClassMeta) : Type 0 where
  pub in_range : InRange m
  pub unbarred : IsUnbarred m.class

abbrev pub StorableClass : Bytes × Option ClassMeta → Type 0
StorableClass (scid, none) = Unit {0}
StorableClass (scid, some m) = IsStorable m

module _ (D : Engine) (msgpack : Bytes → Option ClassMeta) where
  -- The index has a record of the contract, of this class and height.
  pub record Indexed (idx : D.Bucket) (class : Bytes) (h : ℤ) (scid : Bytes) : Type 0 where
    pub value : Bytes
    pub meta : ClassMeta
    pub found : at_key D scid idx ≡ some value
    pub decoded : decode_class_meta msgpack value ≡ some (some meta)
    pub same_class : meta.class ≡ class
    pub same_height : meta.install_height ≡ h

  -- Every row of the class bucket is that of the record which the index has of its contract; so no
  -- contract has two rows.
  abbrev pub IsSynced : D.Bucket → D.Bucket → Type 0
  IsSynced idx prefix =
      (class : Bytes) (h : ℤ) (scid : Bytes)
      → IsUnbarred class
      → IsI64 h
      → is_some (at_key D (class_key class h scid) prefix) ≡ true
      → Indexed idx class h scid

eq_ℤ→eq : (a b : ℤ) → eq_ℤ a b ≡ true → a ≡ b
eq_ℤ→eq a b e = ground (arith, e)

abbrev is_stale : ClassMeta → ClassMeta → Bool
is_stale old m = not (bytes_eq old.class m.class) || not (eq_ℤ old.install_height m.install_height)

module _ (D : Engine) (L : IsLawful D) (msgpack : Bytes → Option ClassMeta) where
  pub deleted_row :
      (j k : Bytes) (b : D.Bucket)
      → is_some (at_key D k (D.delete j b)) ≡ true
      → (bytes_eq j k ≡ false) × (is_some (at_key D k b) ≡ true)
  deleted_row j k b row =
      let row' : is_some (if bytes_eq j k then none else at_key D k b) ≡ true =
        sym (ap is_some (L.get-delete j k b)) ∙ row in
      elim (Bool-cases (bytes_eq j k)) [
        | inl same ↦ cc (sym (ap is_some (if_yes (bytes_eq j k) none (at_key D k b) same)) ∙ row')
        | inr other ↦
            (other, sym (ap is_some (if_no (bytes_eq j k) none (at_key D k b) other)) ∙ row')
      ]

  -- The removal of a stale row adds none.
  stale_row :
      (scid : Bytes) (m : ClassMeta) (old : Option (Option ClassMeta)) (prefix : D.Bucket)
      (k : Bytes)
      → is_some (at_key D k (drop_stale D scid m old prefix)) ≡ true
      → is_some (at_key D k prefix) ≡ true
  unfolding drop_stale
  stale_row scid m none prefix k row = row
  stale_row scid m (some none) prefix k row = row
  stale_row scid m (some (some old)) prefix k row = elim (Bool-cases (is_stale old m)) [
    | inl stale ↦
        (deleted_row (class_key old.class old.install_height scid) k prefix (
          ap (λ (b : D.Bucket). is_some (at_key D k b)) (sym (if_yes (is_stale old m) _ _ stale))
          ∙ row)).1
    | inr fresh ↦
        ap (λ (b : D.Bucket). is_some (at_key D k b)) (sym (if_no (is_stale old m) _ _ fresh)) ∙ row
  ]

  -- The old row is still there only if it is that of the new record too.
  stale_gone :
      (scid : Bytes) (m old : ClassMeta) (prefix : D.Bucket)
      → is_some (
          at_key D
            (class_key old.class old.install_height scid)
            (drop_stale D scid m (some (some old)) prefix))
        ≡ true
      → (old.class ≡ m.class) × (old.install_height ≡ m.install_height)
  unfolding drop_stale
  stale_gone scid m old prefix row =
      let k = class_key old.class old.install_height scid in
      elim (Bool-cases (is_stale old m)) [
        | inl stale ↦ cc (
          bytes_eq_refl k,
          (deleted_row k k prefix (
              ap (λ (b : D.Bucket). is_some (at_key D k b))
                (sym (if_yes (is_stale old m) _ _ stale))
              ∙ row)).0,
        )
        | inr fresh ↦ (
          bytes_eq→eq old.class m.class (ground (arith, fresh)),
          eq_ℤ→eq old.install_height m.install_height (ground (arith, fresh)),
        )
      ]

  pub cleared_row :
      (scid : Bytes) (m : ClassMeta) (prev : Option Bytes) (prefix : D.Bucket) (k : Bytes)
      → is_some (at_key D k (clear_stale D msgpack scid m prev prefix)) ≡ true
      → is_some (at_key D k prefix) ≡ true
  unfolding clear_stale
  cleared_row scid m none prefix k row = row
  cleared_row scid m (some prev) prefix k row =
      stale_row scid m (decode_class_meta msgpack prev) prefix k row

  -- An indexed row that is not cleared is the row that is written.
  pub cleared_same :
      (scid class : Bytes) (h : ℤ) (m : ClassMeta) (idx prefix : D.Bucket)
      → Indexed D msgpack idx class h scid
      → is_some (
          at_key D
            (class_key class h scid)
            (clear_stale D msgpack scid m (at_key D scid idx) prefix))
        ≡ true
      → (class ≡ m.class) × (h ≡ m.install_height)
  unfolding clear_stale
  cleared_same scid class h m idx prefix ix row =
      let row' : is_some (
            at_key D (class_key ix.meta.class ix.meta.install_height scid)
              (drop_stale D scid m (some (some ix.meta)) prefix))
          ≡ true =
        (λ i. is_some (
          at_key D (class_key (ix.same_class i) (ix.same_height i) scid)
            (drop_stale D scid m (sym ix.decoded i) prefix)))
        ∙ (λ i. is_some (
            at_key D (class_key class h scid)
              (clear_stale D msgpack scid m (sym ix.found i) prefix)))
        ∙ row in
      let (p, q) = stale_gone scid m ix.meta prefix row' in
      (sym ix.same_class ∙ p, sym ix.same_height ∙ q)
