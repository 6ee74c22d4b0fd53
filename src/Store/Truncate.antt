-- ===== src/Store/Truncate.antt =====
-- TruncateToHeight of storage/truncate.go, inside its write transaction: `none` stands for an error,
-- after which the transaction is rolled back. The buckets are those that NewBboltStore makes, which
-- are always there; a contract's bucket of invocations is none of them, and may be missing. A Go map
-- or set is a list in the order of its iteration.
pub mod Survivors
pub mod Recount
pub mod Stages
pub mod Detail
pub mod Pointers
pub mod Rollback
pub mod Entities
pub mod Total
mod Examples
use hyper_gnomon.Base.{
  ℕ, zero, suc, ◌+◌, ◌-◌, ◌%◌, ◌^◌, List, [], ◌∷◌, ◌++◌, Bool, true, false, not, ◌||◌, ◌&&◌, Option,
  none, some, length, take, drop, get_or, ltb, ◌==◌, if◌then◌else◌,
}
use mathlib.Core.Option
use hyper_gnomon.Base.Int.{ℤ, pos, negsuc, ltb_ℤ}
use hyper_gnomon.Base.Texts.{Bytes, bytes_eq, is_empty, text}
use hyper_gnomon.Base.Dict.{get, has, include, is_some}
use hyper_gnomon.Base.Strconv.{parse_int, format_int}
use hyper_gnomon.Codec.Words.{int64_bits, int64_from_bits}
use hyper_gnomon.Codec.AddrScid
use hyper_gnomon.Codec.Install.{InstallRecord}
use hyper_gnomon.Codec.ClassMeta.{ClassMeta}
use hyper_gnomon.Store.Keys.{
  colon, bar, enc_height, dec_height, last_index_byte, install_key_scid, split_height_key,
  norm_tx_height, split_norm_tx_key,
}
use hyper_gnomon.Store.Keys.Order.{less_bytes}
use hyper_gnomon.Store.DecimalKeys.{
  class_key, split_sc_vars_key, parse_invocation_key, decode_install_record, decode_class_meta,
}
use hyper_gnomon.Store.Touch.{AddrScidKey, Entries, lookup, increment, merge_addr_touch}
use hyper_gnomon.Store.Bolt.{
  Engine, has_prefix, seek, keys_where, at_key, delete_all, delete_from_seek, delete_prefix_where,
  delete_where,
}

abbrev pub Rows : Type 0
Rows = List (Bytes × Bytes)

infixl 5 ◌>>=◌
abbrev pub ◌>>=◌ : {A B : Type 0} → Option A → (A → Option B) → Option B
none >>= next = none
some a >>= next = next a

-- `ok && hh > h`, with the name that the key gives.
abbrev pub above : ℤ → Option (Bytes × ℤ) → Option Bytes
above h none = none
above h (some (name, hh)) = if ltb_ℤ h hh then some name else none

abbrev pub height_above : ℤ → Bytes → Option Bytes
height_above h k = above h (split_height_key k)

abbrev pub snapshot_above : ℤ → Bytes → Option Bytes
snapshot_above h k = above h (split_sc_vars_key k)

abbrev pub invocation_above : ℤ → Bytes → Bool
invocation_above h k = is_some (above h (parse_invocation_key k))

abbrev pub norm_tx_above : ℤ → Bytes → Bool
norm_tx_above h k = ltb_ℤ h (norm_tx_height k)

abbrev pub mark_key : Option Bytes → List Bytes → List Bytes
mark_key none set = set
mark_key (some scid) set = include scid set

-- The loops of step 0: the contracts that the keys of a walk give are put into a set.
unfoldable pub mark : (Bytes → Option Bytes) → Rows → List Bytes → List Bytes
mark found_in [] set = set
mark found_in ((k, v) ∷ m) set = mark found_in m (mark_key (found_in k) set)

abbrev pub touch_at : ℤ → Bytes → Option (Bytes × ℤ) → Entries → Entries
touch_at h scid none acc = acc
touch_at h scid (some (sender, hh)) acc =
    if ltb_ℤ h hh then acc else merge_addr_touch acc (record { addr = sender; scid = scid }) hh

-- One contract's invocations.
unfoldable pub touch_invocations : ℤ → Bytes → Rows → Entries → Entries
touch_invocations h scid [] acc = acc
touch_invocations h scid ((k, v) ∷ m) acc =
    touch_invocations h scid m (touch_at h scid (parse_invocation_key k) acc)

abbrev pub touch_norm_tx : ℤ → List Bytes → Option (Bytes × Bytes × ℤ) → Entries → Entries
touch_norm_tx h affected none acc = acc
touch_norm_tx h affected (some (addr, scid, hh)) acc =
    if not (ltb_ℤ h hh) && has scid affected
    then merge_addr_touch acc (record { addr = addr; scid = scid }) hh
    else acc

unfoldable pub touch_norm_txs : ℤ → List Bytes → Rows → Entries → Entries
touch_norm_txs h affected [] acc = acc
touch_norm_txs h affected ((k, v) ∷ m) acc =
    touch_norm_txs h affected m
      (if norm_tx_above h k then acc else touch_norm_tx h affected (split_norm_tx_key k) acc)

abbrev pub touch_owner : Bytes → ℤ → Option (Option InstallRecord) → Entries → Entries
touch_owner scid hh none acc = acc
touch_owner scid hh (some none) acc = acc
touch_owner scid hh (some (some r)) acc =
    let key : AddrScidKey = record { addr = r.owner; scid = scid } in
    if is_empty r.owner || is_some (lookup key acc) then acc else merge_addr_touch acc key hh

-- The installs up to the height; the loop breaks at the first key from `stop` on.
unfoldable pub touch_installs :
    (Bytes → Option InstallRecord) → Bytes → List Bytes → Rows → Entries → Entries
touch_installs msgpack stop affected [] acc = acc
touch_installs msgpack stop affected ((k, v) ∷ m) acc =
    let skip = touch_installs msgpack stop affected m acc in
    let next =
      touch_installs msgpack stop affected m
        (touch_owner (drop 9 k) (dec_height (take 8 k)) (decode_install_record msgpack v) acc) in
    if ltb (length k) 9 || not (get_or k 8 0 == bar)
    then skip
    else if not (less_bytes (take 8 k) stop)
    then acc
    else if not (has (drop 9 k) affected)
    then skip
    else next

-- The value to put, or `none` to delete the contract's entry.
abbrev pub addr_op : Option AddrScid.AddrScidEntry → Option Bytes
addr_op none = none
addr_op (some e) = some (AddrScid.marshal_typed_append e [])

abbrev pub addr_ops : List Bytes → Entries → Bytes → Rows → List (Bytes × Option Bytes)
addr_ops affected survivors addr [] = []
addr_ops affected survivors addr ((scid, v) ∷ m) =
    let rest = addr_ops affected survivors addr m in
    if has scid affected
    then (scid, addr_op (lookup (record { addr = addr; scid = scid }) survivors)) ∷ rest
    else rest

-- `hh <= h && hh > maxH`
abbrev pub raise_to : ℤ → Option ℤ → ℤ → ℤ
raise_to h none max = max
raise_to h (some hh) max = if not (ltb_ℤ h hh) && ltb_ℤ max hh then hh else max

unfoldable pub max_loop : Bytes → ℤ → Rows → ℤ → ℤ
max_loop prefix h [] max = max
max_loop prefix h ((k, v) ∷ m) max =
    let rest = max_loop prefix h m (raise_to h (parse_int (drop (length prefix) k)) max) in
    if has_prefix k prefix then rest else max

-- `cur - n` on an int64.
abbrev pub int64_sub : ℤ → ℕ → ℤ
int64_sub cur n = int64_from_bits ((int64_bits cur + 2 ^ 64 - n % 2 ^ 64) % 2 ^ 64)

abbrev pub sc_count : Bytes
sc_count = text "sc_count"

abbrev pub last_indexed_height : Bytes
last_indexed_height = text "lastindexedheight"

abbrev pub not_below_zero : ℤ → ℤ
not_below_zero (pos n) = pos n
not_below_zero (negsuc n) = pos 0

-- The text to put for `sc_count`; `none` where it is left alone.
abbrev pub new_count : ℕ → Option ℤ → Option Bytes
new_count n none = none
new_count n (some cur) =
    if n == 0 then none else some (format_int (not_below_zero (int64_sub cur n)))

abbrev pub new_last : ℤ → Option ℤ → ℤ
new_last h none = h
new_last h (some cur) = if ltb_ℤ cur h then cur else h

module _ (D : Engine) where
  pub record Db : Type 0 where
    pub block_hashes : D.Bucket
    pub installs : D.Bucket
    pub heights : D.Bucket
    pub sc_vars : D.Bucket
    pub sc_vars_latest : D.Bucket
    pub norm_txs : D.Bucket
    pub class_prefix : D.Bucket
    pub class_idx : D.Bucket
    pub owners : D.Bucket
    pub sc_code : D.Bucket
    pub invalid : D.Bucket
    pub owner_scids : D.Bucket
    pub tela_content : D.Bucket
    pub stats : D.Bucket
    pub invocations : Bytes → Option D.Bucket
    pub addr_scids : List (Bytes × D.Bucket)

  unfoldable pub installed_above : ℤ → Db → List Bytes → List Bytes
  unfolding mark
  installed_above h s set =
      mark install_key_scid (seek (enc_height (increment h)) (D.entries s.installs)) set

  -- Step 0.
  unfoldable pub affected_scids : ℤ → Db → List Bytes
  unfolding mark installed_above
  affected_scids h s =
      let a = mark (height_above h) (D.entries s.heights) [] in
      let b = mark (snapshot_above h) (D.entries s.sc_vars) a in installed_above h s b

  touch_bucket : ℤ → Bytes → Option D.Bucket → Entries → Entries
  unfolding touch_invocations
  touch_bucket h scid none acc = acc
  touch_bucket h scid (some b) acc = touch_invocations h scid (D.entries b) acc

  touch_affected : ℤ → List Bytes → Db → Entries → Entries
  unfolding touch_bucket
  touch_affected h [] s acc = acc
  touch_affected h (scid ∷ more) s acc =
      touch_affected h more s (touch_bucket h scid (s.invocations scid) acc)

  -- Step 1.
  unfoldable pub survivors : (Bytes → Option InstallRecord) → ℤ → List Bytes → Db → Entries
  unfolding touch_affected touch_norm_txs touch_installs
  survivors msgpack h affected s =
      let a = touch_affected h affected s [] in
      let b = touch_norm_txs h affected (D.entries s.norm_txs) a in
      touch_installs msgpack (enc_height (increment h)) affected (D.entries s.installs) b

  unfoldable pub apply_ops : List (Bytes × Option Bytes) → D.Bucket → Option D.Bucket
  apply_ops [] b = some b
  apply_ops ((scid, none) ∷ ops) b = apply_ops ops (D.delete scid b)
  apply_ops ((scid, some v) ∷ ops) b = D.put scid v b >>= λ c. apply_ops ops c

  unfoldable pub apply_addr_scid_rollback :
      List Bytes → Entries → List (Bytes × D.Bucket) → Option (List (Bytes × D.Bucket))
  unfolding apply_ops
  apply_addr_scid_rollback affected survivors [] = some []
  apply_addr_scid_rollback affected survivors ((addr, sub) ∷ more) =
      apply_ops (addr_ops affected survivors addr (D.entries sub)) sub >>= λ sub'.
      apply_addr_scid_rollback affected survivors more >>= λ more'. some ((addr, sub') ∷ more')

  -- Step 2: a contract after the other, the keys with its name as a prefix.
  unfoldable pub trim_prefixes : ℕ → (Bytes → Bool) → List Bytes → D.Bucket → D.Bucket
  trim_prefixes mark_byte pred [] b = b
  trim_prefixes mark_byte pred (scid ∷ more) b =
      trim_prefixes mark_byte pred more (delete_prefix_where D b (scid ++ (mark_byte ∷ [])) pred)

  unfoldable pub trim_invocations :
      ℤ → List Bytes → (Bytes → Option D.Bucket) → Bytes → Option D.Bucket
  trim_invocations h [] at scid = at scid
  trim_invocations h (a ∷ more) at scid =
      trim_invocations h more
        (λ name.
          if bytes_eq a name
          then Option.map (λ b. delete_where D b (invocation_above h)) (at name)
          else at name)
        scid

  unfoldable pub drop_found : Bytes → Option (Option ClassMeta) → D.Bucket → D.Bucket
  drop_found scid none prefix = prefix
  drop_found scid (some none) prefix = prefix
  drop_found scid (some (some meta)) prefix =
      D.delete (class_key meta.class meta.install_height scid) prefix

  -- Step 3: the class row is found by the record of the class index.
  unfoldable pub drop_class : (Bytes → Option ClassMeta) → Bytes → D.Bucket → D.Bucket → D.Bucket
  unfolding drop_found
  drop_class msgpack scid idx prefix = elim (at_key D scid idx) [
    | none ↦ prefix
    | some v ↦ drop_found scid (decode_class_meta msgpack v) prefix
  ]

  -- What the first loop of step 3 has removed, and the owners that it counted.
  unfoldable pub drop_entities : (Bytes → Option ClassMeta) → List Bytes → Db → ℕ → Db × ℕ
  unfolding drop_class
  drop_entities msgpack [] s deleted = (s, deleted)
  drop_entities msgpack (scid ∷ more) s deleted =
      drop_entities msgpack more
        (record s {
          class_prefix = drop_class msgpack scid s.class_idx s.class_prefix;
          owners = D.delete scid s.owners;
          class_idx = D.delete scid s.class_idx;
          sc_code = D.delete scid s.sc_code;
          invalid = D.delete scid s.invalid;
        })
        (if is_some (at_key D scid s.owners) then deleted + 1 else deleted)

  abbrev pub owned_by : List Bytes → Bytes → Bool
  owned_by installed k = elim (last_index_byte k bar) [
    | none ↦ false
    | some i ↦ has (drop (i + 1) k) installed
  ]

  unfoldable pub max_surviving_sc_vars_height : D.Bucket → Bytes → ℤ → ℤ
  unfolding max_loop
  max_surviving_sc_vars_height b scid h =
      let prefix = scid ++ (colon ∷ []) in max_loop prefix h (seek prefix (D.entries b)) (pos 0)

  unfoldable pub set_pointer : Bytes → ℤ → D.Bucket → Option D.Bucket
  set_pointer scid (pos zero) b = some (D.delete scid b)
  set_pointer scid (pos (suc n)) b = D.put scid (enc_height (pos (suc n))) b
  set_pointer scid (negsuc n) b = D.put scid (enc_height (negsuc n)) b

  -- `vars` has lost the snapshots above the height by now.
  unfoldable pub lower_pointers : ℤ → D.Bucket → List Bytes → D.Bucket → Option D.Bucket
  unfolding set_pointer
  lower_pointers h vars [] b = some b
  lower_pointers h vars (scid ∷ more) b =
      set_pointer scid (max_surviving_sc_vars_height vars scid h) b >>= λ c.
      lower_pointers h vars more c

  put_count : Option Bytes → D.Bucket → Option D.Bucket
  put_count none b = some b
  put_count (some v) b = D.put sc_count v b

  pub int_at : Bytes → D.Bucket → Option ℤ
  int_at k b = at_key D k b >>= λ v. parse_int v

  unfoldable pub trim_stats : ℤ → ℕ → D.Bucket → Option D.Bucket
  unfolding put_count int_at
  trim_stats h deleted b = put_count (new_count deleted (int_at sc_count b)) b >>= λ c.
      D.put last_indexed_height (format_int (new_last h (int_at last_indexed_height c))) c

  -- The snapshots that are left after step 2.
  unfoldable pub trim_snapshots : ℤ → D.Bucket → D.Bucket
  trim_snapshots h b = delete_all D (keys_where (λ k. is_some (snapshot_above h k)) (D.entries b)) b

  -- The store as the passes leave it: the buckets of steps 2 and 3 from the store before, and the
  -- three that a pass may fail on.
  unfoldable pub finished :
      (Bytes → Option ClassMeta) → ℤ → Db → List (Bytes × D.Bucket) → D.Bucket → D.Bucket → Db
  unfolding trim_prefixes trim_invocations drop_entities trim_snapshots
  finished msgpack h s addrs latest stats =
      let affected = affected_scids h s in
      let installed = installed_above h s [] in
      record (drop_entities msgpack installed s 0).0 {
        block_hashes = delete_from_seek D s.block_hashes (enc_height (increment h));
        installs = delete_from_seek D s.installs (enc_height (increment h));
        heights = trim_prefixes colon (λ k. is_some (height_above h k)) affected s.heights;
        invocations = trim_invocations h affected s.invocations;
        sc_vars = trim_snapshots h s.sc_vars;
        norm_txs = delete_all D (keys_where (norm_tx_above h) (D.entries s.norm_txs)) s.norm_txs;
        owner_scids = delete_where D s.owner_scids (owned_by installed);
        tela_content = trim_prefixes bar (λ k. true) affected s.tela_content;
        addr_scids = addrs;
        sc_vars_latest = latest;
        stats = stats;
      }

  unfoldable pub truncate_to_height :
      (Bytes → Option InstallRecord) → (Bytes → Option ClassMeta) → ℤ → Db → Option Db
  truncate_to_height msgpack_install msgpack_class height s =
      let h = not_below_zero height in
      let affected = affected_scids h s in
      let deleted = (drop_entities msgpack_class (installed_above h s []) s 0).1 in
      apply_addr_scid_rollback affected (survivors msgpack_install h affected s) s.addr_scids
      >>= λ addrs.
          lower_pointers h (trim_snapshots h s.sc_vars) affected s.sc_vars_latest >>= λ latest.
          trim_stats h deleted s.stats >>= λ stats.
          some (finished msgpack_class h s addrs latest stats)
