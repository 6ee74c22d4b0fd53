-- ===== src/Store/Flush/Run.antt =====
-- FlushBatch of storage/bbolt.go, in the order of its stages.
use hyper_gnomon.Base.{ℕ, List, [], ◌∷◌, Option, none, some, if◌then◌else◌}
use hyper_gnomon.Base.Texts.{Bytes, bytes_eq, is_empty, text}
use hyper_gnomon.Base.Sort.{sort_by}
use hyper_gnomon.Codec.AddrScid.{AddrScidEntry}
use hyper_gnomon.Codec.ClassMeta.{ClassMeta}
use hyper_gnomon.Codec.SctxTurbo.{SctxParse, can_marshal_turbo_typed, marshal_turbo_typed}
use hyper_gnomon.Publish.{InvokeRecord}
use hyper_gnomon.Store.Keys.Order.{less_bytes}
use hyper_gnomon.Store.DecimalKeys.{invocation_key}
use hyper_gnomon.Store.Bolt.{Engine}
use hyper_gnomon.Store.Truncate.{◌>>=◌, Db}
use hyper_gnomon.Store.Batch.{WriteBatch}
use hyper_gnomon.Store.Flush.{
  sorted_pairs, less_var_key, less_addr_key, norm_tx_rows, invalid_rows, hash_rows, install_refs,
  less_install, install_rows, code_rows, owner_scid_rows,
}
use hyper_gnomon.Store.Flush.Stages.{
  or_new, put_rows, put_owners, put_snapshots, put_heights, add_count, add_scid_count_stat,
  put_classes, put_addr_entries, put_last_height,
}

module _ (Arg Payload : Type 0) (msgpack_details : SctxParse Arg Payload → Option Bytes) where
  unfoldable pub details_value : SctxParse Arg Payload → Option Bytes
  details_value d =
      if can_marshal_turbo_typed d then some (marshal_turbo_typed d) else msgpack_details d

  module _ (D : Engine) where
    put_invocation :
        InvokeRecord (SctxParse Arg Payload)
        → (Bytes → Option D.Bucket)
        → Option (Bytes → Option D.Bucket)
    unfolding details_value
    put_invocation inv at =
        (if D.takes_name inv.scid then some (or_new D (at inv.scid)) else none) >>= λ b.
        details_value inv.details >>= λ v.
        D.put (invocation_key inv.sender inv.details.txid inv.height inv.entrypoint) v b >>= λ c.
        some (λ name. if bytes_eq inv.scid name then some c else at name)

    -- A record without a contract is left out.
    unfoldable pub put_invocations :
        List (InvokeRecord (SctxParse Arg Payload))
        → (Bytes → Option D.Bucket)
        → Option (Bytes → Option D.Bucket)
    unfolding put_invocation
    put_invocations [] at = some at
    put_invocations (inv ∷ l) at =
        (if is_empty inv.scid then some at else put_invocation inv at) >>= λ at'.
        put_invocations l at'

    unfoldable pub put_stats : WriteBatch Arg Payload → ℕ → D.Bucket → D.Bucket → Option D.Bucket
    unfolding add_count add_scid_count_stat
    put_stats batch new_owners owners stats =
        add_count D (text "regtxcount") batch.reg_tx_count stats >>= λ s1.
        add_count D (text "burntxcount") batch.burn_tx_count s1 >>= λ s2.
        add_count D (text "normtxcount") batch.norm_tx_count s2 >>= λ s3.
        add_scid_count_stat D new_owners owners s3

    unfoldable pub flush_batch :
        (Bytes → Option ClassMeta)
        → (Bytes → Option AddrScidEntry)
        → WriteBatch Arg Payload
        → Db D
        → Option (Db D)
    unfolding put_rows put_owners put_invocations put_snapshots put_heights put_stats put_classes
        put_addr_entries put_last_height
    flush_batch msgpack_class msgpack_addr batch s =
        put_owners D (sorted_pairs batch.owner_maps.owners) s.owners 0 >>= λ owners.
        put_invocations batch.invocations s.invocations >>= λ invocations.
        put_snapshots D (sort_by (λ a b. less_var_key a.0 b.0) batch.variables) s.sc_vars
          s.sc_vars_latest
        >>= λ vars. put_heights D (sorted_pairs batch.heights) s.heights >>= λ heights.
            put_rows D (norm_tx_rows (sort_by (λ a b. less_bytes a.addr b.addr) batch.normal_txs))
              s.norm_txs
            >>= λ norm_txs. put_rows D (invalid_rows batch.invalid_scids) s.invalid >>= λ invalid.
                put_stats batch owners.1 owners.0 s.stats >>= λ stats.
                put_rows D (hash_rows batch.block_hashes) s.block_hashes >>= λ block_hashes.
                put_rows D (install_rows (sort_by less_install (install_refs batch.installs)))
                  s.installs
                >>= λ installs.
                    put_classes D msgpack_class (sorted_pairs batch.classes) s.class_idx
                      s.class_prefix
                    >>= λ classes.
                        put_rows D (code_rows (sorted_pairs batch.sc_codes)) s.sc_code
                        >>= λ sc_code.
                            put_rows D (owner_scid_rows (sorted_pairs batch.owner_maps.owner_scids))
                              s.owner_scids
                            >>= λ owner_scids.
                                put_addr_entries D msgpack_addr
                                  (sort_by (λ a b. less_addr_key a.0 b.0) batch.addr_scids)
                                  s.addr_scids
                                >>= λ addr_scids.
                                    put_last_height D batch.last_height stats >>= λ stats'.
                                    some (record s {
                                      owners = owners.0;
                                      invocations = invocations;
                                      sc_vars = vars.0;
                                      sc_vars_latest = vars.1;
                                      heights = heights;
                                      norm_txs = norm_txs;
                                      invalid = invalid;
                                      stats = stats';
                                      block_hashes = block_hashes;
                                      installs = installs;
                                      class_idx = classes.0;
                                      class_prefix = classes.1;
                                      sc_code = sc_code;
                                      owner_scids = owner_scids;
                                      addr_scids = addr_scids;
                                    })
