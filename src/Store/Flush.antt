-- ===== src/Store/Flush.antt =====
-- FlushBatch of storage/bbolt.go, inside its write transaction: `none` stands for an error, after which
-- the transaction is rolled back. The buckets' handles, the reused key buffers and the value arenas of
-- the source hold what is written here as values.
pub mod Stages
pub mod Run
pub mod Passes
pub mod ClassIndex
pub mod ClassRows
pub mod Synced
pub mod Frame
pub mod Gone
pub mod Added
pub mod Undo
mod Examples
use hyper_gnomon.Base.{
  ℕ, zero, suc, ◌+◌, ◌-◌, ◌%◌, ◌^◌, List, [], ◌∷◌, ◌++◌, Bool, true, false, not, ◌||◌, ◌&&◌, Option,
  none, some, length, drop, take, ltb, leb, ◌==◌, if◌then◌else◌,
}
use hyper_gnomon.Base.Int.{ℤ, pos, negsuc, ltb_ℤ}
use hyper_gnomon.Base.Texts.{Bytes, bytes_eq, is_empty, text}
use hyper_gnomon.Base.Dict.{get, put, is_some}
use hyper_gnomon.Base.Sort.{sort_by}
use hyper_gnomon.Base.Strconv.{parse_int, parse_int_value, format_int, format_uint}
use hyper_gnomon.Codec.Words.{int64_bits, int64_from_bits}
use hyper_gnomon.Codec.Varint.{append_uvarint, uvarint}
use hyper_gnomon.Codec.AddrScid
use hyper_gnomon.Codec.AddrScid.{AddrScidEntry}
use hyper_gnomon.Codec.Install
use hyper_gnomon.Codec.Install.{InstallRecord}
use hyper_gnomon.Codec.ClassMeta
use hyper_gnomon.Codec.ClassMeta.{ClassMeta}
use hyper_gnomon.Codec.Variables.{ScidVariable, marshal_scid_variables_typed}
use hyper_gnomon.Codec.NormalTx
use hyper_gnomon.Codec.ScCode
use hyper_gnomon.Codec.ScCode.{ScCodeEntry}
use hyper_gnomon.Codec.SctxTurbo
use hyper_gnomon.Codec.SctxTurbo.{SctxParse}
use hyper_gnomon.Publish.{InvokeRecord, VarKey}
use hyper_gnomon.Store.Keys.{
  bar, enc_height, dec_height, last_index_byte, install_key, append_height_key, append_norm_tx_key,
}
use hyper_gnomon.Store.Keys.Order.{less_bytes}
use hyper_gnomon.Store.DecimalKeys.{
  class_key, sc_vars_key, invocation_key, decode_class_meta, success,
}
use hyper_gnomon.Store.Touch.{AddrScidKey, Entries}
use hyper_gnomon.Store.Bolt.{Engine, at_key}
use hyper_gnomon.Store.Truncate.{Rows, ◌>>=◌, sc_count, last_indexed_height, Db}
use hyper_gnomon.Store.Batch.{WriteBatch, NormalTxRef, eq_ℤ}

-- `current + delta` on an int64.
abbrev pub int64_add : ℤ → ℤ → ℤ
int64_add a b = int64_from_bits ((int64_bits a + int64_bits b) % 2 ^ 64)

-- `sortedBatchKeys`, with the values.
abbrev pub sorted_pairs : {V : Type 0} → List (Bytes × V) → List (Bytes × V)
sorted_pairs = sort_by (λ a b. less_bytes a.0 b.0)

-- `strings.Compare` of the first parts, and where these are equal of the second.
abbrev pub less_var_key : VarKey → VarKey → Bool
less_var_key a b =
    if less_bytes a.scid b.scid
    then true
    else if less_bytes b.scid a.scid
    then false
    else ltb_ℤ a.height b.height

abbrev pub less_addr_key : AddrScidKey → AddrScidKey → Bool
less_addr_key a b =
    if less_bytes a.addr b.addr
    then true
    else if less_bytes b.addr a.addr
    then false
    else less_bytes a.scid b.scid

-- The runs of equal heights of a sorted list, with their lengths.
abbrev pub add_run : ℤ → List (ℤ × ℕ) → List (ℤ × ℕ)
add_run h [] = (h, 1) ∷ []
add_run h ((g, n) ∷ r) = if eq_ℤ g h then (g, n + 1) ∷ r else (h, 1) ∷ (g, n) ∷ r

abbrev pub runs : List ℤ → List (ℤ × ℕ)
runs [] = []
runs (h ∷ hs) = add_run h (runs hs)

abbrev pub at_sign : ℕ
at_sign = 64

abbrev pub with_scid : Bytes → Option ℤ → Option (Bytes × ℤ)
with_scid scid none = none
with_scid scid (some h) = some (scid, h)

unfoldable pub parse_scid_height_key : Bytes → Option (Bytes × ℤ)
parse_scid_height_key k = elim (last_index_byte k at_sign) [
  | none ↦ none
  | some at ↦ with_scid (take at k) (parse_int (drop (at + 1) k))
]

abbrev pub owner_scid_key : Bytes → Bytes → Bytes
owner_scid_key owner scid = (owner ++ (bar ∷ [])) ++ scid

-- The rows of the buckets whose values do not depend on what is there.
abbrev pub norm_tx_rows : List NormalTxRef → Rows
norm_tx_rows [] = []
norm_tx_rows (e ∷ l) =
    (
      append_norm_tx_key [] e.addr e.tx.height e.tx.txid e.tx.scid,
      NormalTx.marshal_typed_append e.tx [],
    )
    ∷ norm_tx_rows l

abbrev pub invalid_rows : List (Bytes × ℕ) → Rows
invalid_rows [] = []
invalid_rows ((scid, fees) ∷ l) = (scid, format_uint fees) ∷ invalid_rows l

abbrev pub hash_rows : List (ℤ × Bytes) → Rows
hash_rows [] = []
hash_rows ((h, hash) ∷ l) = (enc_height h, hash) ∷ hash_rows l

-- The installs whose map key is read, by height and contract.
abbrev pub install_refs : List (Bytes × InstallRecord) → List ((ℤ × Bytes) × InstallRecord)
install_refs [] = []
install_refs ((k, r) ∷ l) =
    let rest = install_refs l in
    elim (parse_scid_height_key k) [ none ↦ rest | some (scid, h) ↦ ((h, scid), r) ∷ rest ]

abbrev pub less_install : (ℤ × Bytes) × InstallRecord → (ℤ × Bytes) × InstallRecord → Bool
less_install a b =
    if ltb_ℤ a.0.0 b.0.0 then true else if ltb_ℤ b.0.0 a.0.0 then false else less_bytes a.0.1 b.0.1

abbrev pub install_rows : List ((ℤ × Bytes) × InstallRecord) → Rows
install_rows [] = []
install_rows (((h, scid), r) ∷ l) = (install_key h scid, Install.marshal_typed r) ∷ install_rows l

abbrev pub code_row : Bytes → Option ScCodeEntry → Rows → Rows
code_row scid none rest = rest
code_row scid (some e) rest =
    if is_empty e.code then rest else (scid, ScCode.marshal_typed e) ∷ rest

abbrev pub code_rows : List (Bytes × Option ScCodeEntry) → Rows
code_rows [] = []
code_rows ((scid, e) ∷ l) = code_row scid e (code_rows l)

abbrev pub owned_rows : Bytes → List Bytes → Rows
owned_rows owner [] = []
owned_rows owner (scid ∷ l) = (owner_scid_key owner scid, []) ∷ owned_rows owner l

abbrev pub owner_scid_rows : List (Bytes × List Bytes) → Rows
owner_scid_rows [] = []
owner_scid_rows ((owner, scids) ∷ l) =
    let rest = owner_scid_rows l in
    if is_empty owner then rest else owned_rows owner (sort_by less_bytes scids) ++ rest

abbrev pub min_int64 : ℤ → ℤ → ℤ
min_int64 a b = if ltb_ℤ a b then a else b

abbrev pub max_int64 : ℤ → ℤ → ℤ
max_int64 a b = if ltb_ℤ b a then a else b

-- An entry that cannot be decoded is overwritten.
abbrev pub merged : Option AddrScidEntry → AddrScidEntry → AddrScidEntry
merged none delta = delta
merged (some cur) delta = record {
  first_height = min_int64 cur.first_height delta.first_height;
  last_height = max_int64 cur.last_height delta.last_height;
  count = int64_add cur.count delta.count;
}

unfoldable pub decode_addr_entry : (Bytes → Option AddrScidEntry) → Bytes → Option AddrScidEntry
decode_addr_entry msgpack v =
    if AddrScid.is_addr_scid_entry_typed v
    then success (
        AddrScid.unmarshal_typed
          (record { first_height = pos 0; last_height = pos 0; count = pos 0 }) v)
    else msgpack v

-- `prev` where the count that is there can be read.
abbrev pub previous_count : Option Bytes → ℕ
previous_count none = 0
previous_count (some v) =
    if is_empty v then 0 else elim (uvarint v) [ none ↦ 0 | some (prev, read) ↦ prev ]
