-- ===== src/Store/Flush/Stages.antt =====
-- FlushBatch of storage/bbolt.go: its loops, over the buckets that they write.
use hyper_gnomon.Base.{
  ℕ, ◌+◌, ◌%◌, ◌^◌, List, [], ◌∷◌, Bool, true, false, not, ◌||◌, ◌&&◌, Option, none, some, length,
  leb, ◌==◌, if◌then◌else◌,
}
use hyper_gnomon.Base.Int.{ℤ, pos, ltb_ℤ}
use hyper_gnomon.Base.Texts.{Bytes, bytes_eq, is_empty}
use hyper_gnomon.Base.Dict.{get, put, is_some}
use hyper_gnomon.Base.Sort.{sort_by}
use hyper_gnomon.Base.Strconv.{parse_int_value, format_int}
use hyper_gnomon.Codec.Varint.{append_uvarint}
use hyper_gnomon.Codec.AddrScid
use hyper_gnomon.Codec.AddrScid.{AddrScidEntry}
use hyper_gnomon.Codec.ClassMeta
use hyper_gnomon.Codec.ClassMeta.{ClassMeta}
use hyper_gnomon.Codec.Variables.{ScidVariable, marshal_scid_variables_typed}
use hyper_gnomon.Publish.{VarKey}
use hyper_gnomon.Store.Keys.{enc_height, dec_height, append_height_key}
use hyper_gnomon.Store.DecimalKeys.{class_key, sc_vars_key, decode_class_meta}
use hyper_gnomon.Store.Touch.{AddrScidKey}
use hyper_gnomon.Store.Bolt.{Engine, at_key}
use hyper_gnomon.Store.Truncate.{Rows, ◌>>=◌, sc_count, last_indexed_height}
use hyper_gnomon.Store.Batch.{eq_ℤ}
use hyper_gnomon.Store.Flush.{int64_add, merged, decode_addr_entry, previous_count, runs}

module _ (D : Engine) where
  unfoldable pub put_rows : Rows → D.Bucket → Option D.Bucket
  put_rows [] b = some b
  put_rows ((k, v) ∷ rows) b = D.put k v b >>= λ c. put_rows rows c

  -- The owners' bucket and `newOwners`.
  unfoldable pub put_owners : List (Bytes × Bytes) → D.Bucket → ℕ → Option (D.Bucket × ℕ)
  put_owners [] b n = some (b, n)
  put_owners ((scid, owner) ∷ l) b n =
      let n' = if is_some (at_key D scid b) then n else n + 1 in
      D.put scid owner b >>= λ c. put_owners l c n'

  abbrev pub or_new : Option D.Bucket → D.Bucket
  or_new none = D.empty
  or_new (some b) = b

  unfoldable pub put_latest_sc_vars_height : D.Bucket → Bytes → ℤ → Option D.Bucket
  put_latest_sc_vars_height b scid height =
      let known : Bool = elim (at_key D scid b) [
        | none ↦ false
        | some v ↦ leb 8 (length v) && not (ltb_ℤ (dec_height v) height)
      ] in
      if is_empty scid || not (ltb_ℤ (pos 0) height)
      then some b
      else if known
      then some b
      else D.put scid (enc_height height) b

  -- Whether the next snapshot is of another contract.
  abbrev pub ends_run : Bytes → List (VarKey × List ScidVariable) → Bool
  ends_run scid [] = true
  ends_run scid ((k, v) ∷ l) = not (bytes_eq k.scid scid)

  -- The snapshots' bucket and that of the pointers.
  unfoldable pub put_snapshots :
      List (VarKey × List ScidVariable) → D.Bucket → D.Bucket → Option (D.Bucket × D.Bucket)
  unfolding put_latest_sc_vars_height
  put_snapshots [] b latest = some (b, latest)
  put_snapshots ((k, vars) ∷ l) b latest =
      D.put (sc_vars_key k.scid k.height) (marshal_scid_variables_typed vars) b >>= λ c.
      (if ends_run k.scid l then put_latest_sc_vars_height latest k.scid k.height else some latest)
      >>= λ latest'. put_snapshots l c latest'

  unfoldable pub put_runs : Bytes → List (ℤ × ℕ) → D.Bucket → Option D.Bucket
  put_runs scid [] b = some b
  put_runs scid ((h, n) ∷ r) b =
      let k = append_height_key [] scid h in
      D.put k (append_uvarint [] ((n + previous_count (at_key D k b)) % 2 ^ 64)) b >>= λ c.
      put_runs scid r c

  unfoldable pub put_heights : List (Bytes × List ℤ) → D.Bucket → Option D.Bucket
  unfolding put_runs
  put_heights [] b = some b
  put_heights ((scid, hs) ∷ l) b =
      put_runs scid (runs (sort_by ltb_ℤ hs)) b >>= λ c. put_heights l c

  -- `addCount`; a count that is not there is 0.
  unfoldable pub add_count : Bytes → ℤ → D.Bucket → Option D.Bucket
  add_count key delta b =
      let current : ℤ = elim (at_key D key b) [ none ↦ pos 0 | some v ↦ parse_int_value v ] in
      if eq_ℤ delta (pos 0) then some b else D.put key (format_int (int64_add current delta)) b

  unfoldable pub add_scid_count_stat : ℕ → D.Bucket → D.Bucket → Option D.Bucket
  add_scid_count_stat delta owners b =
      let total : ℤ = elim (at_key D sc_count b) [
        | none ↦ pos (length (D.entries owners))
        | some v ↦ int64_add (parse_int_value v) (pos delta)
      ] in
      if delta == 0 then some b else D.put sc_count (format_int total) b

  -- The row of a class that the contract had under another key, before it is overwritten.
  unfoldable pub drop_stale : Bytes → ClassMeta → Option (Option ClassMeta) → D.Bucket → D.Bucket
  drop_stale scid meta none prefix = prefix
  drop_stale scid meta (some none) prefix = prefix
  drop_stale scid meta (some (some old)) prefix =
      if not (bytes_eq old.class meta.class) || not (eq_ℤ old.install_height meta.install_height)
      then D.delete (class_key old.class old.install_height scid) prefix
      else prefix

  unfoldable pub clear_stale :
      (Bytes → Option ClassMeta) → Bytes → ClassMeta → Option Bytes → D.Bucket → D.Bucket
  unfolding drop_stale
  clear_stale msgpack scid meta none prefix = prefix
  clear_stale msgpack scid meta (some prev) prefix =
      drop_stale scid meta (decode_class_meta msgpack prev) prefix

  unfoldable pub put_class :
      (Bytes → Option ClassMeta)
      → Bytes
      → Option ClassMeta
      → D.Bucket
      → D.Bucket
      → Option (D.Bucket × D.Bucket)
  unfolding clear_stale
  put_class msgpack scid none idx prefix = some (idx, prefix)
  put_class msgpack scid (some meta) idx prefix =
      if is_empty meta.class
      then some (idx, prefix)
      else D.put scid (ClassMeta.marshal_typed meta) idx >>= λ idx'.
          D.put (class_key meta.class meta.install_height scid) (ClassMeta.marshal_typed meta)
            (clear_stale msgpack scid meta (at_key D scid idx) prefix)
          >>= λ prefix''. some (idx', prefix'')

  unfoldable pub put_classes :
      (Bytes → Option ClassMeta)
      → List (Bytes × Option ClassMeta)
      → D.Bucket
      → D.Bucket
      → Option (D.Bucket × D.Bucket)
  unfolding put_class
  put_classes msgpack [] idx prefix = some (idx, prefix)
  put_classes msgpack ((scid, meta) ∷ l) idx prefix =
      put_class msgpack scid meta idx prefix >>= λ r. put_classes msgpack l r.0 r.1

  -- Each entry is merged with the one that is there, in the bucket of its address.
  unfoldable pub put_addr_entries :
      (Bytes → Option AddrScidEntry)
      → List (AddrScidKey × AddrScidEntry)
      → List (Bytes × D.Bucket)
      → Option (List (Bytes × D.Bucket))
  put_addr_entries msgpack [] parent = some parent
  put_addr_entries msgpack ((k, delta) ∷ l) parent =
      let sub = or_new (get k.addr parent) in
      let cur = at_key D k.scid sub >>= λ v. decode_addr_entry msgpack v in
      (if D.takes_name k.addr then some sub else none) >>= λ made.
      D.put k.scid (AddrScid.marshal_typed_append (merged cur delta) []) made >>= λ sub'.
      put_addr_entries msgpack l (put k.addr sub' parent)

  unfoldable pub put_last_height : ℤ → D.Bucket → Option D.Bucket
  put_last_height h b =
      if ltb_ℤ (pos 0) h then D.put last_indexed_height (format_int h) b else some b
