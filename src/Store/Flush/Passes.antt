-- ===== src/Store/Flush/Passes.antt =====
-- FlushBatch of storage/bbolt.go: a flush that succeeds, stage by stage.
use hyper_gnomon.Base.{ℕ, ◌≡◌, refl, ap, ◌∙◌, Option, none, some}
use hyper_gnomon.Base.Texts.{Bytes}
use hyper_gnomon.Base.Sort.{sort_by}
use hyper_gnomon.Codec.AddrScid.{AddrScidEntry}
use hyper_gnomon.Codec.ClassMeta.{ClassMeta}
use hyper_gnomon.Codec.SctxTurbo.{SctxParse}
use hyper_gnomon.Store.Keys.Order.{less_bytes}
use hyper_gnomon.Store.Bolt.{Engine}
use hyper_gnomon.Store.Truncate.{◌>>=◌, Db}
use hyper_gnomon.Store.Batch.{WriteBatch}
use hyper_gnomon.Store.Flush.{
  sorted_pairs, less_var_key, norm_tx_rows, hash_rows, install_refs, less_install, install_rows,
  less_addr_key, invalid_rows, code_rows, owner_scid_rows,
}
use hyper_gnomon.Store.Flush.Stages.{
  put_rows, put_owners, put_snapshots, put_heights, put_classes, put_addr_entries, put_last_height,
}
use hyper_gnomon.Store.Flush.Frame.{}
use hyper_gnomon.Store.Flush.Gone.{}
use hyper_gnomon.Store.Flush.Run.{put_invocations, put_stats, flush_batch}

-- The value of a step that did not fail, as a variable of what follows.
pub >>=-then :
    {A B C : Type 0} (m : Option A) (next : A → Option B) {b : B}
    → (m >>= next) ≡ some b
    → ((a : A) → m ≡ some a → next a ≡ some b → C)
    → C
>>=-then none next h k = cc h
>>=-then (some a) next h k = k a refl h

pub from_some : {A : Type 0} {x y : A} → some x ≡ some y → x ≡ y
from_some h = cc h

module _ (D : Engine) {Arg Payload : Type 0}
    (msgpack_details : SctxParse Arg Payload → Option Bytes) (mc : Bytes → Option ClassMeta)
    (ma : Bytes → Option AddrScidEntry) where
  -- The loops of a flush over the buckets that are kept by height.
  pub record Written (batch : WriteBatch Arg Payload) (s t : Db D) : Type 0 where
    pub points : D.Bucket
    pub fresh : ℕ
    pub owners :
        put_owners D (sorted_pairs batch.owner_maps.owners) s.owners 0 ≡ some (t.owners, fresh)
    pub stats_before : D.Bucket
    pub last : put_last_height D batch.last_height stats_before ≡ some t.stats
    pub classes :
        put_classes D mc (sorted_pairs batch.classes) s.class_idx s.class_prefix
        ≡ some (t.class_idx, t.class_prefix)
    pub heights : put_heights D (sorted_pairs batch.heights) s.heights ≡ some t.heights
    pub sc_vars :
        put_snapshots D
          (sort_by (λ a b. less_var_key a.0 b.0) batch.variables)
          s.sc_vars
          s.sc_vars_latest
        ≡ some (t.sc_vars, points)
    pub norm_txs :
        put_rows D
          (norm_tx_rows (sort_by (λ a b. less_bytes a.addr b.addr) batch.normal_txs))
          s.norm_txs
        ≡ some t.norm_txs
    pub block_hashes :
        put_rows D (hash_rows batch.block_hashes) s.block_hashes ≡ some t.block_hashes
    pub installs :
        put_rows D (install_rows (sort_by less_install (install_refs batch.installs))) s.installs
        ≡ some t.installs

  pub flush_batch-Written :
      (batch : WriteBatch Arg Payload) (s t : Db D)
      → flush_batch Arg Payload msgpack_details D mc ma batch s ≡ some t
      → Written batch s t
  unfolding flush_batch
  flush_batch-Written batch s t e =
      >>=-then (put_owners D (sorted_pairs batch.owner_maps.owners) s.owners 0) _ e λ owners p1 e1.
        >>=-then (put_invocations Arg Payload msgpack_details D batch.invocations s.invocations) _
          e1
          λ invocations p2 e2.
            >>=-then
              (put_snapshots D (sort_by (λ a b. less_var_key a.0 b.0) batch.variables) s.sc_vars
                s.sc_vars_latest)
              _ e2
              λ vars p3 e3.
                >>=-then (put_heights D (sorted_pairs batch.heights) s.heights) _ e3
                  λ heights p4 e4.
                    >>=-then
                      (put_rows D
                        (norm_tx_rows (sort_by (λ a b. less_bytes a.addr b.addr) batch.normal_txs))
                        s.norm_txs)
                      _ e4
                      λ norm_txs p5 e5.
                        >>=-then (put_rows D (invalid_rows batch.invalid_scids) s.invalid) _ e5
                          λ invalid p6 e6.
                            >>=-then
                              (put_stats Arg Payload msgpack_details D batch owners.1 owners.0
                                s.stats)
                              _ e6
                              λ stats p7 e7.
                                >>=-then (put_rows D (hash_rows batch.block_hashes) s.block_hashes)
                                  _ e7
                                  λ block_hashes p8 e8.
                                    >>=-then
                                      (put_rows D
                                        (install_rows
                                          (sort_by less_install (install_refs batch.installs)))
                                        s.installs)
                                      _ e8
                                      λ installs p9 e9.
                                        >>=-then
                                          (put_classes D mc (sorted_pairs batch.classes) s.class_idx
                                            s.class_prefix)
                                          _ e9
                                          λ classes p10 e10.
                                            >>=-then
                                              (put_rows D (code_rows (sorted_pairs batch.sc_codes))
                                                s.sc_code)
                                              _ e10
                                              λ sc_code p11 e11.
                                                >>=-then
                                                  (put_rows D
                                                    (owner_scid_rows
                                                      (sorted_pairs batch.owner_maps.owner_scids))
                                                    s.owner_scids)
                                                  _ e11
                                                  λ owner_scids p12 e12.
                                                    >>=-then
                                                      (put_addr_entries D ma
                                                        (sort_by (λ a b. less_addr_key a.0 b.0)
                                                          batch.addr_scids)
                                                        s.addr_scids)
                                                      _ e12
                                                      λ addr_scids p13 e13.
                                                        >>=-then
                                                          (put_last_height D batch.last_height
                                                            stats)
                                                          _ e13
                                                          λ stats' p14 e14.
                                                            let r = from_some e14 in
                                                            record {
                                                            fresh = owners.1;
                                                            owners =
                                                            p1
                                                            ∙ ap
                                                            (λ (u : Db D).
                                                            some (u.owners, owners.1))
                                                            r;
                                                            points = vars.1;
                                                            stats_before = stats;
                                                            last =
                                                            p14
                                                            ∙ ap some
                                                            (ap (λ (u : Db D). u.stats) r);
                                                            classes =
                                                            p10
                                                            ∙ ap
                                                            (λ (u : Db D).
                                                            some (u.class_idx, u.class_prefix))
                                                            r;
                                                            heights =
                                                            p4
                                                            ∙ ap some
                                                            (ap (λ (u : Db D). u.heights) r);
                                                            sc_vars =
                                                            p3
                                                            ∙ ap
                                                            (λ (b : D.Bucket). some (b, vars.1))
                                                            (ap (λ (u : Db D). u.sc_vars) r);
                                                            norm_txs =
                                                            p5
                                                            ∙ ap some
                                                            (ap (λ (u : Db D). u.norm_txs) r);
                                                            block_hashes =
                                                            p8
                                                            ∙ ap some
                                                            (ap (λ (u : Db D). u.block_hashes) r);
                                                            installs =
                                                            p9
                                                            ∙ ap some
                                                            (ap (λ (u : Db D). u.installs) r);
                                                            }
