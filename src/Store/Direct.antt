-- ===== src/Store/Direct.antt =====
-- storage/bbolt.go: the writes of single records, outside a batch, and the reads of single keys, each in
-- a transaction of its own. `none` is an error of a write, after which nothing is changed.
pub mod Single
pub mod Latest
mod Examples
use hyper_gnomon.Base.{
  ℕ, ◌+◌, ◌%◌, ◌^◌, List, [], ◌∷◌, ◌++◌, Bool, true, false, not, ◌||◌, Option, none, some, leb,
  length, drop, if◌then◌else◌,
}
use hyper_gnomon.Base.Int.{ℤ, pos, ltb_ℤ}
use hyper_gnomon.Base.Texts.{Bytes, bytes_eq, is_empty, text}
use hyper_gnomon.Base.Dict.{is_some}
use hyper_gnomon.Base.Strconv.{parse_int, parse_int_value, format_int, format_uint}
use hyper_gnomon.Codec.Varint.{append_uvarint}
use hyper_gnomon.Codec.Variables.{ScidVariable}
use hyper_gnomon.Codec.NormalTx.{NormalTx}
use hyper_gnomon.Codec.SctxTurbo.{SctxParse}
use hyper_gnomon.Store.Keys.{colon, enc_height, dec_height, append_height_key, append_norm_tx_key}
use hyper_gnomon.Store.DecimalKeys.{sc_vars_key, invocation_key}
use hyper_gnomon.Store.Bolt.{Engine, has_prefix, seek, at_key}
use hyper_gnomon.Store.Truncate.{Rows, ◌>>=◌, last_indexed_height, Db}
use hyper_gnomon.Store.Flush.{int64_add, owner_scid_key, previous_count}
use hyper_gnomon.Store.Flush.Stages.{or_new, add_scid_count_stat, put_latest_sc_vars_height}

abbrev pub max_height : Option ℤ → ℤ → ℤ
max_height none max = max
max_height (some h) max = if ltb_ℤ max h then h else max

abbrev pub or_empty : Option Bytes → Bytes
or_empty none = []
or_empty (some v) = v

-- The walk over the snapshots of a contract.
unfoldable pub latest_loop : Bytes → Rows → ℤ → ℤ
latest_loop prefix [] max = max
latest_loop prefix ((k, v) ∷ m) max =
    let rest = latest_loop prefix m (max_height (parse_int (drop (length prefix) k)) max) in
    if has_prefix k prefix then rest else max

module _ (D : Engine) where
  unfoldable pub store_last_index_height : ℤ → Db D → Option (Db D)
  store_last_index_height height s =
      D.put last_indexed_height (format_int height) s.stats >>= λ b. some (record s { stats = b })

  -- `none` where the height cannot be parsed; a height that is not there is 0.
  unfoldable pub get_last_index_height : Db D → Option ℤ
  get_last_index_height s = elim (at_key D last_indexed_height s.stats) [
    | none ↦ some (pos 0)
    | some v ↦ parse_int v
  ]

  unfoldable pub store_owner : Bytes → Bytes → Db D → Option (Db D)
  unfolding add_scid_count_stat
  store_owner scid owner s = D.put scid owner s.owners >>= λ owners.
      (if is_empty owner
        then some s.owner_scids
        else D.put (owner_scid_key owner scid) [] s.owner_scids)
      >>= λ owner_scids.
          (if is_some (at_key D scid s.owners)
            then some s.stats
            else add_scid_count_stat D 1 owners s.stats)
          >>= λ stats. some (record s { owners = owners; owner_scids = owner_scids; stats = stats })

  unfoldable pub get_owner : Bytes → Db D → Bytes
  get_owner scid s = or_empty (at_key D scid s.owners)

  -- The msgpack encoder is a parameter, here and below.
  unfoldable pub store_invoke_details :
      {Arg Payload : Type 0}
      → (SctxParse Arg Payload → Option Bytes)
      → Bytes
      → Bytes
      → Bytes
      → ℤ
      → SctxParse Arg Payload
      → Db D
      → Option (Db D)
  store_invoke_details msgpack scid sender entrypoint height details s =
      (if D.takes_name scid then some (or_new D (s.invocations scid)) else none) >>= λ b.
      msgpack details >>= λ v.
      D.put (invocation_key sender details.txid height entrypoint) v b >>= λ c.
      some (record s {
        invocations = λ name. if bytes_eq scid name then some c else s.invocations name;
      })

  unfoldable pub store_scid_variable_details :
      (List ScidVariable → Option Bytes) → Bytes → List ScidVariable → ℤ → Db D → Option (Db D)
  unfolding put_latest_sc_vars_height
  store_scid_variable_details msgpack scid vars height s = msgpack vars >>= λ v.
      D.put (sc_vars_key scid height) v s.sc_vars >>= λ b.
      put_latest_sc_vars_height D s.sc_vars_latest scid height >>= λ latest.
      some (record s { sc_vars = b; sc_vars_latest = latest })

  unfoldable pub latest_sc_vars_height_tx : Db D → Bytes → ℤ
  unfolding latest_loop
  latest_sc_vars_height_tx s scid =
      let prefix = scid ++ (colon ∷ []) in
      let walked = latest_loop prefix (seek prefix (D.entries s.sc_vars)) (pos 0) in
      let pointed : ℤ = elim (at_key D scid s.sc_vars_latest) [
        | none ↦ walked
        | some v ↦ if leb 8 (length v) then dec_height v else walked
      ] in
      if is_empty scid then pos 0 else pointed

  unfoldable pub store_scid_interaction_height : Bytes → ℤ → Db D → Option (Db D)
  store_scid_interaction_height scid height s =
      let key = append_height_key [] scid height in
      D.put key (append_uvarint [] ((1 + previous_count (at_key D key s.heights)) % 2 ^ 64))
        s.heights
      >>= λ b. some (record s { heights = b })

  unfoldable pub store_normal_tx :
      (NormalTx → Option Bytes) → Bytes → NormalTx → Db D → Option (Db D)
  store_normal_tx msgpack addr ntx s = msgpack ntx >>= λ v.
      D.put (append_norm_tx_key [] addr ntx.height ntx.txid ntx.scid) v s.norm_txs >>= λ b.
      some (record s { norm_txs = b })

  unfoldable pub store_invalid_scid_deploys : Bytes → ℕ → Db D → Option (Db D)
  store_invalid_scid_deploys scid fees s =
      D.put scid (format_uint fees) s.invalid >>= λ b. some (record s { invalid = b })

  -- Unlike the flush of a batch, this writes a count to which 0 is added.
  unfoldable pub count_tx : Bytes → ℤ → D.Bucket → Option D.Bucket
  count_tx key delta b =
      let current : ℤ = elim (at_key D key b) [ none ↦ pos 0 | some v ↦ parse_int_value v ] in
      D.put key (format_int (int64_add current delta)) b

  unfoldable pub store_tx_counts : ℤ → ℤ → ℤ → Db D → Option (Db D)
  unfolding count_tx
  store_tx_counts reg burn norm s = count_tx (text "regtxcount") reg s.stats >>= λ s1.
      count_tx (text "burntxcount") burn s1 >>= λ s2.
      count_tx (text "normtxcount") norm s2 >>= λ s3. some (record s { stats = s3 })

  unfoldable pub store_block_hash : ℤ → Bytes → Db D → Option (Db D)
  store_block_hash height hash s =
      D.put (enc_height height) hash s.block_hashes >>= λ b. some (record s { block_hashes = b })

  unfoldable pub get_block_hash : ℤ → Db D → Bytes
  get_block_hash height s = or_empty (at_key D (enc_height height) s.block_hashes)
