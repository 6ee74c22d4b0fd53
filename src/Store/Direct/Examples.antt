-- ===== src/Store/Direct/Examples.antt =====
-- A store with one pointer, before and behind single writes.
use hyper_gnomon.Base.{ℕ, ◌≡◌, refl, arith, List, [], ◌∷◌, true, Option, none, some}
use hyper_gnomon.Base.Int.{pos}
use hyper_gnomon.Base.Texts.{Bytes, bytes_eq, text}
use hyper_gnomon.Base.Dict.{is_some, value_of}
use hyper_gnomon.Base.Strconv.{format_int}
use hyper_gnomon.Codec.Words.{be_bytes, be_fold, int64_bits, int64_from_bits}
use hyper_gnomon.Codec.Variables.{ScidVariable}
use hyper_gnomon.Codec.AddrScid.{AddrScidEntry}
use hyper_gnomon.Codec.ClassMeta.{ClassMeta}
use hyper_gnomon.Codec.SctxTurbo.{SctxParse}
use hyper_gnomon.Store.Keys.{enc_height, dec_height}
use hyper_gnomon.Store.Keys.Order.{less_bytes}
use hyper_gnomon.Store.DecimalKeys.{sc_vars_key}
use hyper_gnomon.Store.Bolt.{at_key}
use hyper_gnomon.Store.Bolt.Memory.{memory, memory-IsLawful, fill}
use hyper_gnomon.Store.Truncate.{Db}
use hyper_gnomon.Store.Batch.{WriteBatch, reset, add_owner, add_block_hash, add_interaction_height}
use hyper_gnomon.Store.Flush.Run.{flush_batch}
use hyper_gnomon.Base.Dict.{get}
use hyper_gnomon.Base.DictSort.{IsMap}
use hyper_gnomon.Store.Flush.Added.{or_stored, flush_batch-owners}
use hyper_gnomon.Store.Direct.{
  store_last_index_height, get_last_index_height, store_owner, get_owner, store_block_hash,
  get_block_hash, store_scid_variable_details, latest_sc_vars_height_tx,
  store_scid_interaction_height,
}
use hyper_gnomon.Store.Direct.Single.{flush, single-flush}
use hyper_gnomon.Store.Direct.Latest.{greater, pointed, stored-read, latest-store, get_last-flush}

abbrev start : Db memory
start = record {
  block_hashes = fill [];
  installs = fill [];
  heights = fill [];
  sc_vars = fill [];
  sc_vars_latest = fill ((text "a", enc_height (pos 3)) ∷ []);
  norm_txs = fill [];
  class_prefix = fill [];
  class_idx = fill [];
  owners = fill [];
  sc_code = fill [];
  invalid = fill [];
  owner_scids = fill [];
  tela_content = fill [];
  stats = fill [];
  invocations = λ scid. none;
  addr_scids = [];
}

abbrev batch : WriteBatch ℕ ℕ
batch = record {
  owner_maps = record { owners = []; owner_scids = [] };
  invocations = [];
  variables = [];
  heights = [];
  normal_txs = [];
  invalid_scids = [];
  reg_tx_count = pos 0;
  burn_tx_count = pos 0;
  norm_tx_count = pos 0;
  last_height = pos 9;
  block_hashes = [];
  installs = [];
  classes = [];
  addr_scids = [];
  sc_codes = [];
}

abbrev no_details : SctxParse ℕ ℕ → Option Bytes
no_details d = none

abbrev no_class : Bytes → Option ClassMeta
no_class v = none

abbrev no_entry : Bytes → Option AddrScidEntry
no_entry v = none

abbrev one_byte : List ScidVariable → Option Bytes
one_byte vars = some (144 ∷ [])

single-flush_example :
    (store_block_hash memory (pos 7) (text "h") start
      ≡ flush memory no_details no_class no_entry
          (add_block_hash ℕ ℕ (pos 7) (text "h") (reset ℕ ℕ batch))
          start)
    × (store_scid_interaction_height memory (text "a") (pos 7) start
        ≡ flush memory no_details no_class no_entry
            (add_interaction_height ℕ ℕ (text "a") (pos 7) (reset ℕ ℕ batch))
            start)
    × (store_owner memory (text "a") (text "x") start
        ≡ flush memory no_details no_class no_entry
            (add_owner ℕ ℕ (text "a") (text "x") (reset ℕ ℕ batch))
            start)
single-flush_example =
    single-flush memory no_details no_class no_entry batch start (pos 7) (text "h") (text "a")
      (text "x") refl

height_stores : is_some (store_last_index_height memory (pos 7) start) ≡ true
unfolding store_last_index_height
height_stores = refl

owner_stores : is_some (store_owner memory (text "a") (text "x") start) ≡ true
unfolding store_owner bytes_eq less_bytes
owner_stores = refl

hash_stores : is_some (store_block_hash memory (pos 7) (text "h") start) ≡ true
unfolding store_block_hash be_bytes int64_bits enc_height
hash_stores = refl

vars_store :
    is_some (store_scid_variable_details memory one_byte (text "a") [] (pos 5) start) ≡ true
unfolding store_scid_variable_details bytes_eq less_bytes be_bytes int64_bits sc_vars_key format_int
    dec_height be_fold int64_from_bits enc_height
vars_store = refl

flushes : is_some (flush memory no_details no_class no_entry batch start) ≡ true
unfolding flush_batch format_int
flushes = refl

with_height : (t : Db memory) × (store_last_index_height memory (pos 7) start ≡ some t)
with_height = value_of (store_last_index_height memory (pos 7) start) height_stores

with_owner : (t : Db memory) × (store_owner memory (text "a") (text "x") start ≡ some t)
with_owner = value_of (store_owner memory (text "a") (text "x") start) owner_stores

with_hash : (t : Db memory) × (store_block_hash memory (pos 7) (text "h") start ≡ some t)
with_hash = value_of (store_block_hash memory (pos 7) (text "h") start) hash_stores

with_vars :
    (t : Db memory) × (store_scid_variable_details memory one_byte (text "a") [] (pos 5) start
      ≡ some t)
with_vars =
    value_of (store_scid_variable_details memory one_byte (text "a") [] (pos 5) start) vars_store

flushed : (t : Db memory) × (flush memory no_details no_class no_entry batch start ≡ some t)
flushed = value_of (flush memory no_details no_class no_entry batch start) flushes

stored-read_example :
    (get_last_index_height memory with_height.0 ≡ some (pos 7))
    × (get_owner memory (text "a") with_owner.0 ≡ text "x")
    × (get_block_hash memory (pos 7) with_hash.0 ≡ text "h")
stored-read_example =
    stored-read memory memory-IsLawful start with_height.0 with_owner.0 with_hash.0 (pos 7)
      (text "a") (text "x") (text "h") (omega arith) with_height.1 with_owner.1 with_hash.1

latest-store_example :
    latest_sc_vars_height_tx memory with_vars.0 (text "a")
    ≡ greater (pointed (at_key memory (text "a") start.sc_vars_latest)) (pos 5)
latest-store_example =
    latest-store memory memory-IsLawful one_byte (text "a") [] 4 start with_vars.0 refl
      (omega arith) with_vars.1

get_last-flush_example : get_last_index_height memory flushed.0 ≡ some (pos 9)
get_last-flush_example =
    get_last-flush memory memory-IsLawful no_details no_class no_entry batch start flushed.0
      (omega arith) refl flushed.1

abbrev owned : WriteBatch ℕ ℕ
owned = record batch {
  owner_maps = record {
    owners = (text "b", text "y") ∷ (text "a", text "x") ∷ [];
    owner_scids = [];
  };
}

owned_flushes : is_some (flush memory no_details no_class no_entry owned start) ≡ true
unfolding flush_batch format_int bytes_eq less_bytes
owned_flushes = refl

with_owners : (t : Db memory) × (flush memory no_details no_class no_entry owned start ≡ some t)
with_owners = value_of (flush memory no_details no_class no_entry owned start) owned_flushes

owners-IsMap : IsMap owned.owner_maps.owners
unfolding bytes_eq
owners-IsMap = (refl, (refl, tt))

flush_batch-owners_example :
    at_key memory (text "a") with_owners.0.owners
    ≡ or_stored (get (text "a") owned.owner_maps.owners) (at_key memory (text "a") start.owners)
flush_batch-owners_example =
    flush_batch-owners memory memory-IsLawful no_details no_class no_entry owned start with_owners.0
      (text "a") owners-IsMap with_owners.1
