-- ===== src/Store/Flush/Undo.antt =====
-- FlushBatch of storage/bbolt.go followed by TruncateToHeight of storage/truncate.go: the reorg handler
-- rolls back what was flushed above a height.
use hyper_gnomon.Base.{
  ℕ, ◌+◌, ◌^◌, ◌<◌, ◌≡◌, sym, ◌∙◌, inl, inr, Bool, Option, none, some, Bool-cases, All,
  if◌then◌else◌, if_yes, if_no,
}
use hyper_gnomon.Base.Int.{pos}
use hyper_gnomon.Base.Texts.{Bytes}
use hyper_gnomon.Base.Sort.{sort_by, All-sort_by}
use hyper_gnomon.Codec.AddrScid.{AddrScidEntry}
use hyper_gnomon.Codec.Install.{InstallRecord}
use hyper_gnomon.Codec.ClassMeta.{ClassMeta}
use hyper_gnomon.Codec.SctxTurbo.{SctxParse}
use hyper_gnomon.Store.Keys.Laws.{IsPlain}
use hyper_gnomon.Store.Keys.Order.{less_bytes}
use hyper_gnomon.Store.Bolt.{Engine, IsLawful, at_key}
use hyper_gnomon.Store.Truncate.{norm_tx_above, Db, truncate_to_height}
use hyper_gnomon.Store.Truncate.Detail.{Kept, truncate_to_height-Kept}
use hyper_gnomon.Store.Batch.{WriteBatch}
use hyper_gnomon.Store.Flush.{sorted_pairs, less_var_key, install_refs, less_install}
use hyper_gnomon.Store.Flush.Stages.{}
use hyper_gnomon.Store.Flush.Frame.{
  Agrees, put_rows-Agrees, put_snapshots-Agrees, put_heights-Agrees,
}
use hyper_gnomon.Store.Flush.Gone.{
  IsAbove, IsLater, gone_height, gone_snapshot, gone_big_endian, height_keys_gone,
  snapshot_key_gone, norm_tx_rows_gone, hash_rows_gone, install_rows_gone, All-map,
}
use hyper_gnomon.Store.Flush.Run.{flush_batch}
use hyper_gnomon.Store.Flush.Passes.{Written, flush_batch-Written}

module _ (D : Engine) (test : Bytes → Bool) where
  -- What a truncation leaves of two buckets that agree on the keys which it keeps.
  same_kept :
      (b c b' c' : D.Bucket) (k : Bytes)
      → Agrees D test b c
      → at_key D k b' ≡ (if test k then none else at_key D k b)
      → at_key D k c' ≡ (if test k then none else at_key D k c)
      → at_key D k c' ≡ at_key D k b'
  same_kept b c b' c' k agree eb ec = elim (Bool-cases (test k)) [
    | inl gone ↦ ec ∙ if_yes (test k) _ _ gone ∙ sym (eb ∙ if_yes (test k) _ _ gone)
    | inr kept ↦ ec ∙ if_no (test k) _ _ kept ∙ agree k kept ∙ sym (eb ∙ if_no (test k) _ _ kept)
  ]

module _ (D : Engine) (L : IsLawful D) {Arg Payload : Type 0}
    (msgpack_details : SctxParse Arg Payload → Option Bytes) (mi : Bytes → Option InstallRecord)
    (mc : Bytes → Option ClassMeta) (ma : Bytes → Option AddrScidEntry) where
  module _ (height : ℕ) (batch : WriteBatch Arg Payload) (later : IsLater height batch) (s t : Db D)
      (w : Written D msgpack_details mc ma batch s t) where
    heights-Agrees : Agrees D (gone_height height) s.heights t.heights
    heights-Agrees =
        put_heights-Agrees D L (gone_height height) (sorted_pairs batch.heights) s.heights t.heights
          (All-map (sorted_pairs batch.heights) (λ r p. height_keys_gone height r.0 r.1 p.0 p.1)
            (All-sort_by (λ r. IsPlain r.0 × All (IsAbove height) r.1) _ batch.heights
              later.heights))
          w.heights

    snapshots-Agrees : Agrees D (gone_snapshot height) s.sc_vars t.sc_vars
    snapshots-Agrees =
        put_snapshots-Agrees D L (gone_snapshot height)
          (sort_by (λ a b. less_var_key a.0 b.0) batch.variables) s.sc_vars s.sc_vars_latest
          (t.sc_vars, w.points)
          (All-map (sort_by (λ a b. less_var_key a.0 b.0) batch.variables)
            (λ r p. snapshot_key_gone height r.0.scid r.0.height p.0 p.1)
            (All-sort_by (λ r. IsPlain r.0.scid × IsAbove height r.0.height) _ batch.variables
              later.variables))
          w.sc_vars

    norm_txs-Agrees : Agrees D (norm_tx_above (pos height)) s.norm_txs t.norm_txs
    norm_txs-Agrees =
        put_rows-Agrees D L (norm_tx_above (pos height)) _ s.norm_txs t.norm_txs
          (norm_tx_rows_gone height (sort_by (λ a b. less_bytes a.addr b.addr) batch.normal_txs) (
            All-sort_by (λ r. IsPlain r.addr × IsAbove height r.tx.height) _ batch.normal_txs
              later.normal_txs))
          w.norm_txs

  -- A flush of a batch whose records by height are all above a height, and a truncation to that
  -- height behind it, leave of the interactions, snapshots, normal transactions, installs and block
  -- hashes, under every key, what the truncation alone would leave; if the height is below 2^63 -
  -- 1, no colon stands in the contracts and addresses of the batch, the flush and both truncations
  -- succeed, and the database has the assumed laws.
  pub flush_batch-truncate_to_height :
      (height : ℕ) (batch : WriteBatch Arg Payload) (s t t' s' : Db D) (k : Bytes)
      → height + 1 < 2 ^ 63
      → IsLater height batch
      → flush_batch Arg Payload msgpack_details D mc ma batch s ≡ some t
      → truncate_to_height D mi mc (pos height) t ≡ some t'
      → truncate_to_height D mi mc (pos height) s ≡ some s'
      → (at_key D k t'.heights ≡ at_key D k s'.heights)
        × (at_key D k t'.sc_vars ≡ at_key D k s'.sc_vars)
        × (at_key D k t'.norm_txs ≡ at_key D k s'.norm_txs)
        × (at_key D k t'.installs ≡ at_key D k s'.installs)
        × (at_key D k t'.block_hashes ≡ at_key D k s'.block_hashes)
  flush_batch-truncate_to_height height batch s t t' s' k bound later e cut_t cut_s = (
    same_kept D (gone_height height) s.heights t.heights s'.heights t'.heights k
        (heights-Agrees height batch later s t w) ks.heights kt.heights,
    same_kept D (gone_snapshot height) s.sc_vars t.sc_vars s'.sc_vars t'.sc_vars k
        (snapshots-Agrees height batch later s t w) ks.sc_vars kt.sc_vars,
    same_kept D (norm_tx_above (pos height)) s.norm_txs t.norm_txs s'.norm_txs t'.norm_txs k
        (norm_txs-Agrees height batch later s t w) ks.norm_txs kt.norm_txs,
    same_kept D (gone_big_endian height) s.installs t.installs s'.installs t'.installs k
        (put_rows-Agrees D L (gone_big_endian height) _ s.installs t.installs
          (install_rows_gone height (sort_by less_install (install_refs batch.installs)) bound (
            All-sort_by (λ r. IsAbove height r.0.0) less_install (install_refs batch.installs)
              later.installs))
          w.installs)
        ks.installs kt.installs,
    same_kept D (gone_big_endian height) s.block_hashes t.block_hashes s'.block_hashes
        t'.block_hashes k
        (put_rows-Agrees D L (gone_big_endian height) _ s.block_hashes t.block_hashes
          (hash_rows_gone height batch.block_hashes bound later.block_hashes) w.block_hashes)
        ks.block_hashes kt.block_hashes,
  )
    where
      w : Written D msgpack_details mc ma batch s t
      w = flush_batch-Written D msgpack_details mc ma batch s t e

      ks : Kept D L mi mc (pos height) s s' k
      ks = truncate_to_height-Kept D L mi mc (pos height) s s' k cut_s

      kt : Kept D L mi mc (pos height) t t' k
      kt = truncate_to_height-Kept D L mi mc (pos height) t t' k cut_t
