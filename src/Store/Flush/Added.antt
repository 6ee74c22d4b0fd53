-- ===== src/Store/Flush/Added.antt =====
-- FlushBatch of storage/bbolt.go: the owners behind a flush.
use hyper_gnomon.Base.{
  ℕ, ◌≡◌, refl, sym, ap, ◌∙◌, List, [], ◌∷◌, Bool, true, false, Option, none, some, if◌then◌else◌,
}
use hyper_gnomon.Base.Texts.{Bytes, bytes_eq, bytes_eq→eq}
use hyper_gnomon.Base.Dict.{get}
use hyper_gnomon.Base.DictSort.{IsMap, get-absent, get-sort_by, IsMap-sort_by}
use hyper_gnomon.Codec.AddrScid.{AddrScidEntry}
use hyper_gnomon.Codec.ClassMeta.{ClassMeta}
use hyper_gnomon.Codec.SctxTurbo.{SctxParse}
use hyper_gnomon.Store.Bolt.{Engine, IsLawful, at_key}
use hyper_gnomon.Store.Truncate.{Db}
use hyper_gnomon.Store.Batch.{WriteBatch}
use hyper_gnomon.Store.Flush.{sorted_pairs}
use hyper_gnomon.Store.Flush.Stages.{put_owners}
use hyper_gnomon.Store.Flush.Passes.{>>=-then, from_some, flush_batch-Written}
use hyper_gnomon.Store.Flush.Run.{flush_batch}

-- A value of the batch, or else that of the store.
abbrev pub or_stored : Option Bytes → Option Bytes → Option Bytes
or_stored none stored = stored
or_stored (some v) stored = some v

or_stored-if :
    (b : Bool) (v : Bytes) (o stored : Option Bytes)
    → (b ≡ true → o ≡ none)
    → or_stored o (if b then some v else stored) ≡ or_stored (if b then some v else o) stored
or_stored-if true v o stored h = ap (λ (u : Option Bytes). or_stored u (some v)) (h refl)
or_stored-if false v o stored h = refl

module _ (D : Engine) (L : IsLawful D) where
  get-put_owners :
      (l : List (Bytes × Bytes)) (b : D.Bucket) (n : ℕ) (r : D.Bucket × ℕ) (k : Bytes)
      → IsMap l
      → put_owners D l b n ≡ some r
      → at_key D k r.0 ≡ or_stored (get k l) (at_key D k b)
  unfolding put_owners
  get-put_owners [] b n r k a e = ap (λ (p : D.Bucket × ℕ). at_key D k p.0) (sym (from_some e))
  get-put_owners ((scid, owner) ∷ l) b n r k a e = >>=-then (D.put scid owner b) _ e λ c p e1.
      get-put_owners l c _ r k a.1 e1
      ∙ ap (or_stored (get k l)) (L.get-put scid owner k b c p)
      ∙ or_stored-if (bytes_eq scid k) owner (get k l) (at_key D k b) (λ same.
        ap (λ (j : Bytes). get j l) (sym (bytes_eq→eq scid k same)) ∙ get-absent scid l a.0)

  -- Behind a flush, a contract has the owner that the batch gives it, and where it gives none the
  -- one that it had; if each contract stands once among the owners of the batch, which is a map,
  -- the flush succeeds, and the database has the assumed laws.
  pub flush_batch-owners :
      {Arg Payload : Type 0} (msgpack_details : SctxParse Arg Payload → Option Bytes)
      (mc : Bytes → Option ClassMeta) (ma : Bytes → Option AddrScidEntry)
      (batch : WriteBatch Arg Payload) (s t : Db D) (scid : Bytes)
      → IsMap batch.owner_maps.owners
      → flush_batch Arg Payload msgpack_details D mc ma batch s ≡ some t
      → at_key D scid t.owners
        ≡ or_stored (get scid batch.owner_maps.owners) (at_key D scid s.owners)
  flush_batch-owners msgpack_details mc ma batch s t scid once e =
      let w = flush_batch-Written D msgpack_details mc ma batch s t e in
      get-put_owners (sorted_pairs batch.owner_maps.owners) s.owners 0 (t.owners, w.fresh) scid
        (IsMap-sort_by _ batch.owner_maps.owners once) w.owners
      ∙ ap (λ (o : Option Bytes). or_stored o (at_key D scid s.owners))
          (get-sort_by _ scid batch.owner_maps.owners once)
