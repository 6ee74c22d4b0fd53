-- ===== src/Store/Flush/ClassRows.antt =====
-- FlushBatch of storage/bbolt.go: the rows of the class bucket behind the loop over a batch's classes.
use hyper_gnomon.Base.{
  ◌≡◌, sym, ap, subst, ◌∙◌, inl, inr, List, [], ◌∷◌, true, false, Option, none, some, All,
  Bool-cases, if_yes, if_no,
}
use hyper_gnomon.Base.Int.{ℤ}
use hyper_gnomon.Base.Texts.{Bytes, bytes_eq, bytes_eq→eq, bytes_eq_refl, is_empty}
use hyper_gnomon.Base.Dict.{is_some}
use hyper_gnomon.Codec.ClassMeta
use hyper_gnomon.Codec.ClassMeta.{ClassMeta}
use hyper_gnomon.Store.DecimalKeys.{class_key}
use hyper_gnomon.Store.DecimalKeys.Classes.{class_key_injective, decode-marshal_class_meta}
use hyper_gnomon.Store.Bolt.{Engine, IsLawful, at_key}
use hyper_gnomon.Store.Flush.Stages.{clear_stale, put_class, put_classes}
use hyper_gnomon.Store.Flush.Passes.{>>=-then, from_some}
use hyper_gnomon.Store.Truncate.{}
use hyper_gnomon.Store.Flush.ClassIndex.{
  IsStorable, StorableClass, Indexed, IsSynced, cleared_row, cleared_same,
}

module _ (D : Engine) (L : IsLawful D) (msgpack : Bytes → Option ClassMeta) where
  get-put_same : (k v : Bytes) (b c : D.Bucket) → D.put k v b ≡ some c → at_key D k c ≡ some v
  get-put_same k v b c e = L.get-put k v k b c e ∙ if_yes (bytes_eq k k) _ _ (bytes_eq_refl k)

  module _ (scid : Bytes) (m : ClassMeta) (storable : IsStorable m)
      (idx prefix idx' prefix' : D.Bucket)
      (put_idx : D.put scid (ClassMeta.marshal_typed m) idx ≡ some idx')
      (put_row : D.put
          (class_key m.class m.install_height scid)
          (ClassMeta.marshal_typed m)
          (clear_stale D msgpack scid m (at_key D scid idx) prefix)
        ≡ some prefix')
      (synced : IsSynced D msgpack idx prefix) where
    written_row :
        (class : Bytes) (h : ℤ) (name : Bytes)
        → (m.class ≡ class) × (m.install_height ≡ h) × (scid ≡ name)
        → Indexed D msgpack idx' class h name
    written_row class h name (p, q, r) = record {
      value = ClassMeta.marshal_typed m;
      meta = m;
      found =
          ap (λ (j : Bytes). at_key D j idx') (sym r)
          ∙ get-put_same scid (ClassMeta.marshal_typed m) idx idx' put_idx;
      decoded = decode-marshal_class_meta msgpack m storable.in_range;
      same_class = p;
      same_height = q;
    }

    kept_row :
        (class : Bytes) (h : ℤ) (name : Bytes)
        → bytes_eq (class_key m.class m.install_height scid) (class_key class h name) ≡ false
        → is_some (
            at_key D
              (class_key class h name)
              (clear_stale D msgpack scid m (at_key D scid idx) prefix))
          ≡ true
        → Indexed D msgpack idx class h name
        → Indexed D msgpack idx' class h name
    kept_row class h name other row ix = elim (Bool-cases (bytes_eq scid name)) [
      | inl same ↦
          let e : name ≡ scid = sym (bytes_eq→eq scid name same) in
          let (p, q) =
            cleared_same D L msgpack scid class h m idx prefix
              (subst (λ (j : Bytes). Indexed D msgpack idx class h j) e ix)
              (subst
                (λ (j : Bytes).
                  is_some (
                    at_key D (class_key class h j)
                      (clear_stale D msgpack scid m (at_key D scid idx) prefix))
                  ≡ true)
                e row) in
          let keys_same : class_key m.class m.install_height scid ≡ class_key class h name =
            λ i. class_key (sym p i) (sym q i) (sym e i) in
          cc (
            ap (bytes_eq (class_key m.class m.install_height scid)) keys_same,
            bytes_eq_refl (class_key m.class m.install_height scid),
            other,
          )
      | inr apart ↦ record {
        value = ix.value;
        meta = ix.meta;
        found =
            L.get-put scid (ClassMeta.marshal_typed m) name idx idx' put_idx
            ∙ if_no (bytes_eq scid name) _ _ apart
            ∙ ix.found;
        decoded = ix.decoded;
        same_class = ix.same_class;
        same_height = ix.same_height;
      }
    ]

    written-IsSynced : IsSynced D msgpack idx' prefix'
    written-IsSynced class h name unbarred int64 row =
        let key = class_key m.class m.install_height scid in
        let k = class_key class h name in
        let cleared = clear_stale D msgpack scid m (at_key D scid idx) prefix in
        let at = L.get-put key (ClassMeta.marshal_typed m) k cleared prefix' put_row in
        elim (Bool-cases (bytes_eq key k)) [
          | inl same ↦ written_row class h name (
              class_key_injective m.class class m.install_height h scid name storable.unbarred
                unbarred storable.in_range.install_height int64 (bytes_eq→eq key k same))
          | inr other ↦
              let left : is_some (at_key D k cleared) ≡ true =
                sym (ap is_some (at ∙ if_no (bytes_eq key k) _ _ other)) ∙ row in
              kept_row class h name other left (
                synced class h name unbarred int64
                  (cleared_row D L msgpack scid m (at_key D scid idx) prefix k left))
        ]

  put_class-IsSynced :
      (scid : Bytes) (o : Option ClassMeta) (idx prefix : D.Bucket) (r : D.Bucket × D.Bucket)
      → StorableClass (scid, o)
      → put_class D msgpack scid o idx prefix ≡ some r
      → IsSynced D msgpack idx prefix
      → IsSynced D msgpack r.0 r.1
  unfolding put_class
  put_class-IsSynced scid none idx prefix r ok e synced =
      subst (λ (p : D.Bucket × D.Bucket). IsSynced D msgpack p.0 p.1) (from_some e) synced
  put_class-IsSynced scid (some m) idx prefix r ok e synced = elim (Bool-cases (is_empty m.class)) [
    | inl nameless ↦
        subst (λ (p : D.Bucket × D.Bucket). IsSynced D msgpack p.0 p.1)
          (from_some (sym (if_yes (is_empty m.class) _ _ nameless) ∙ e)) synced
    | inr named ↦
        >>=-then (D.put scid (ClassMeta.marshal_typed m) idx) _
          (sym (if_no (is_empty m.class) _ _ named) ∙ e)
          λ idx' p1 e1.
            >>=-then
              (D.put (class_key m.class m.install_height scid) (ClassMeta.marshal_typed m)
                (clear_stale D msgpack scid m (at_key D scid idx) prefix))
              _ e1
              λ prefix' p2 e2.
                subst (λ (p : D.Bucket × D.Bucket). IsSynced D msgpack p.0 p.1) (from_some e2)
                  (written-IsSynced scid m ok idx prefix idx' prefix' p1 p2 synced)
  ]

  pub put_classes-IsSynced :
      (l : List (Bytes × Option ClassMeta)) (idx prefix : D.Bucket) (r : D.Bucket × D.Bucket)
      → All StorableClass l
      → put_classes D msgpack l idx prefix ≡ some r
      → IsSynced D msgpack idx prefix
      → IsSynced D msgpack r.0 r.1
  unfolding put_classes
  put_classes-IsSynced [] idx prefix r ok e synced =
      subst (λ (p : D.Bucket × D.Bucket). IsSynced D msgpack p.0 p.1) (from_some e) synced
  put_classes-IsSynced ((scid, o) ∷ l) idx prefix r ok e synced =
      >>=-then (put_class D msgpack scid o idx prefix) _ e λ q p1 e1.
        put_classes-IsSynced l q.0 q.1 r ok.1 e1
          (put_class-IsSynced scid o idx prefix q ok.0 p1 synced)
