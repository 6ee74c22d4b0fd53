-- ===== src/Store/Flush/Synced.antt =====
-- FlushBatch of storage/bbolt.go and TruncateToHeight of storage/truncate.go keep the bucket of the classes
-- in step with the index by contract.
use hyper_gnomon.Base.{
  ℕ, ◌≡◌, sym, ap, subst, ◌∙◌, inl, inr, List, [], ◌∷◌, true, false, Option, none, some, All,
  Bool-cases, Option-cases, if_yes, if_no,
}
use hyper_gnomon.Base.Int.{ℤ, IsI64}
use hyper_gnomon.Base.Texts.{Bytes, bytes_eq, bytes_eq→eq, bytes_eq_refl}
use hyper_gnomon.Base.Dict.{is_some}
use hyper_gnomon.Codec.ClassMeta.{ClassMeta}
use hyper_gnomon.Store.DecimalKeys.{class_key, decode_class_meta}
use hyper_gnomon.Store.DecimalKeys.Classes.{IsUnbarred}
use hyper_gnomon.Store.Bolt.{Engine, IsLawful, at_key}
use hyper_gnomon.Store.Flush.Passes.{from_some}
use hyper_gnomon.Codec.AddrScid.{AddrScidEntry}
use hyper_gnomon.Codec.Install.{InstallRecord}
use hyper_gnomon.Codec.SctxTurbo.{SctxParse}
use hyper_gnomon.Base.Sort.{All-sort_by}
use hyper_gnomon.Store.Truncate.{
  drop_found, drop_class, drop_entities, installed_above, finished, truncate_to_height,
  not_below_zero, Db,
}
use hyper_gnomon.Store.Truncate.Stages.{Passes, truncate_to_height-Passes}
use hyper_gnomon.Store.Batch.{WriteBatch}
use hyper_gnomon.Store.Flush.{sorted_pairs}
use hyper_gnomon.Store.Flush.Passes.{flush_batch-Written}
use hyper_gnomon.Store.Flush.Run.{flush_batch}
use hyper_gnomon.Store.Flush.ClassIndex.{StorableClass, Indexed, IsSynced, deleted_row}
use hyper_gnomon.Store.Flush.ClassRows.{put_classes-IsSynced}

module _ (D : Engine) (L : IsLawful D) (msgpack : Bytes → Option ClassMeta) where
  -- The row of the contract's record is not left.
  dropped_row :
      (scid : Bytes) (o : Option (Option ClassMeta)) (prefix : D.Bucket) (k : Bytes)
      → is_some (at_key D k (drop_found D scid o prefix)) ≡ true
      → is_some (at_key D k prefix) ≡ true
  unfolding drop_found
  dropped_row scid none prefix k row = row
  dropped_row scid (some none) prefix k row = row
  dropped_row scid (some (some m)) prefix k row =
      (deleted_row D L msgpack (class_key m.class m.install_height scid) k prefix row).1

  of_value : Bytes → D.Bucket → Option Bytes → D.Bucket
  unfolding drop_found
  of_value scid prefix none = prefix
  of_value scid prefix (some v) = drop_found D scid (decode_class_meta msgpack v) prefix

  drop_class_row :
      (scid : Bytes) (idx prefix : D.Bucket) (k : Bytes)
      → is_some (at_key D k (drop_class D msgpack scid idx prefix)) ≡ true
      → is_some (at_key D k prefix) ≡ true
  unfolding drop_class of_value
  drop_class_row scid idx prefix k row = elim (Option-cases (at_key D scid idx)) [
    | inl e ↦ ap (λ (o : Option Bytes). is_some (at_key D k (of_value scid prefix o))) (sym e) ∙ row
    | inr (v, e) ↦
        dropped_row scid (decode_class_meta msgpack v) prefix k
          (ap (λ (o : Option Bytes). is_some (at_key D k (of_value scid prefix o))) (sym e) ∙ row)
  ]

  drop_class_gone :
      (scid class : Bytes) (h : ℤ) (idx prefix : D.Bucket)
      → Indexed D msgpack idx class h scid
      → is_some (at_key D (class_key class h scid) (drop_class D msgpack scid idx prefix)) ≡ false
  unfolding drop_class drop_found of_value
  drop_class_gone scid class h idx prefix ix =
      let k = class_key ix.meta.class ix.meta.install_height scid in
      (λ i. is_some (at_key D (class_key class h scid) (of_value scid prefix (ix.found i))))
      ∙ (λ i. is_some (
          at_key D (class_key (sym ix.same_class i) (sym ix.same_height i) scid)
            (drop_found D scid (ix.decoded i) prefix)))
      ∙ ap is_some (L.get-delete k k prefix ∙ if_yes (bytes_eq k k) _ _ (bytes_eq_refl k))

  drop_class-IsSynced :
      (scid : Bytes) (idx prefix : D.Bucket)
      → IsSynced D msgpack idx prefix
      → IsSynced D msgpack (D.delete scid idx) (drop_class D msgpack scid idx prefix)
  drop_class-IsSynced scid idx prefix synced class h name unbarred int64 row =
      let ix = synced class h name unbarred int64 (drop_class_row scid idx prefix _ row) in
      elim (Bool-cases (bytes_eq scid name)) [
        | inl same ↦
            let e : name ≡ scid = sym (bytes_eq→eq scid name same) in
            cc (
              drop_class_gone scid class h idx prefix
                  (subst (λ (j : Bytes). Indexed D msgpack idx class h j) e ix),
              subst
                  (λ (j : Bytes).
                    is_some (at_key D (class_key class h j) (drop_class D msgpack scid idx prefix))
                    ≡ true)
                  e row,
            )
        | inr apart ↦ record {
          value = ix.value;
          meta = ix.meta;
          found = L.get-delete scid name idx ∙ if_no (bytes_eq scid name) _ _ apart ∙ ix.found;
          decoded = ix.decoded;
          same_class = ix.same_class;
          same_height = ix.same_height;
        }
      ]

  drop_entities-IsSynced :
      (l : List Bytes) (s : Db D) (n : ℕ)
      → IsSynced D msgpack s.class_idx s.class_prefix
      → IsSynced D msgpack
          (drop_entities D msgpack l s n).0.class_idx
          (drop_entities D msgpack l s n).0.class_prefix
  unfolding drop_entities
  drop_entities-IsSynced [] s n synced = synced
  drop_entities-IsSynced (scid ∷ l) s n synced =
      drop_entities-IsSynced l _ _ (drop_class-IsSynced scid s.class_idx s.class_prefix synced)

  flush_batch-IsSynced :
      {Arg Payload : Type 0} (msgpack_details : SctxParse Arg Payload → Option Bytes)
      (ma : Bytes → Option AddrScidEntry) (batch : WriteBatch Arg Payload) (s t : Db D)
      → All StorableClass batch.classes
      → flush_batch Arg Payload msgpack_details D msgpack ma batch s ≡ some t
      → IsSynced D msgpack s.class_idx s.class_prefix
      → IsSynced D msgpack t.class_idx t.class_prefix
  flush_batch-IsSynced msgpack_details ma batch s t ok flushed synced =
      let w = flush_batch-Written D msgpack_details msgpack ma batch s t flushed in
      put_classes-IsSynced D L msgpack (sorted_pairs batch.classes) s.class_idx s.class_prefix
        (t.class_idx, t.class_prefix) (All-sort_by StorableClass _ batch.classes ok) w.classes
        synced

  -- A flush of classes whose names have no bar and whose records can be encoded, and a truncation,
  -- keep it true that each row of the class bucket, under a class without a bar and an int64
  -- height, is that of the record which the index has of its contract, if the database has the
  -- assumed laws and the flush and the truncation succeed.
  pub flush_truncate-IsSynced :
      {Arg Payload : Type 0} (msgpack_details : SctxParse Arg Payload → Option Bytes)
      (mi : Bytes → Option InstallRecord) (ma : Bytes → Option AddrScidEntry)
      (batch : WriteBatch Arg Payload) (height : ℤ) (s t u : Db D)
      → All StorableClass batch.classes
      → flush_batch Arg Payload msgpack_details D msgpack ma batch s ≡ some t
      → truncate_to_height D mi msgpack height t ≡ some u
      → IsSynced D msgpack s.class_idx s.class_prefix
      → IsSynced D msgpack t.class_idx t.class_prefix
        × IsSynced D msgpack u.class_idx u.class_prefix
  unfolding finished
  flush_truncate-IsSynced msgpack_details mi ma batch height s t u ok flushed cut synced = (
    behind_flush,
    subst (λ (v : Db D). IsSynced D msgpack v.class_idx v.class_prefix) p.result
        (drop_entities-IsSynced (installed_above D (not_below_zero height) t []) t 0 behind_flush),
  )
    where
      behind_flush : IsSynced D msgpack t.class_idx t.class_prefix
      behind_flush = flush_batch-IsSynced msgpack_details ma batch s t ok flushed synced

      p : Passes D mi msgpack height t u
      p = truncate_to_height-Passes D mi msgpack height t u cut

  -- Two rows that a contract has in the class bucket behind a flush, under classes without a bar
  -- and int64 heights, are the same, so a scan of the classes meets the contract once; if the
  -- classes of the batch have no bar and can be encoded, each row was that of the contract's record
  -- in the index before, the flush succeeds, and the database has the assumed laws.
  pub flush_batch-one_row :
      {Arg Payload : Type 0} (msgpack_details : SctxParse Arg Payload → Option Bytes)
      (ma : Bytes → Option AddrScidEntry) (batch : WriteBatch Arg Payload) (s t : Db D)
      (class class' : Bytes) (h h' : ℤ) (scid : Bytes)
      → All StorableClass batch.classes
      → flush_batch Arg Payload msgpack_details D msgpack ma batch s ≡ some t
      → IsSynced D msgpack s.class_idx s.class_prefix
      → IsUnbarred class × IsUnbarred class' × IsI64 h × IsI64 h'
      → is_some (at_key D (class_key class h scid) t.class_prefix) ≡ true
      → is_some (at_key D (class_key class' h' scid) t.class_prefix) ≡ true
      → (class ≡ class') × (h ≡ h')
  flush_batch-one_row msgpack_details ma batch s t class class' h h' scid ok e synced (u, u', i, i')
        row row' =
      let x = behind class h scid u i row in
      let y = behind class' h' scid u' i' row' in
      let same : some (some x.meta) ≡ some (some y.meta) =
        sym x.decoded
        ∙ ap
            (λ (o : Option Bytes). elim o [
              | none ↦ some none
              | some v ↦ decode_class_meta msgpack v
            ])
            (sym x.found ∙ y.found)
        ∙ y.decoded in
      let m : x.meta ≡ y.meta = from_some (from_some same) in
      (
        sym x.same_class ∙ ap (λ (z : ClassMeta). z.class) m ∙ y.same_class,
        sym x.same_height ∙ ap (λ (z : ClassMeta). z.install_height) m ∙ y.same_height,
      )
    where
      behind : IsSynced D msgpack t.class_idx t.class_prefix
      behind = flush_batch-IsSynced msgpack_details ma batch s t ok e synced
