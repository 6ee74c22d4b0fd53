-- ===== src/Store/Flush/Examples.antt =====
-- A batch of one block above height 10, flushed into a store that has an interaction at height 5.
use hyper_gnomon.Base.{ℕ, ◌≡◌, refl, sym, subst, arith, [], ◌∷◌, true, Option, none, some, All}
use hyper_gnomon.Base.Int.{pos}
use hyper_gnomon.Base.Texts.{Bytes, bytes_eq, text}
use hyper_gnomon.Base.Dict.{is_some, value_of}
use hyper_gnomon.Base.Strconv.{parse_int, format_int}
use hyper_gnomon.Codec.AddrScid.{AddrScidEntry}
use hyper_gnomon.Codec.SctxTurbo.{SctxParse}
use hyper_gnomon.Codec.Decimal.{write_digits}
use hyper_gnomon.Codec.Words.{be_bytes, be_fold, int64_bits, int64_from_bits}
use hyper_gnomon.Publish.{scid_height_key}
use hyper_gnomon.Store.Keys.{
  install_key, append_height_key, append_norm_tx_key, enc_height, split_height_key,
  install_key_scid,
}
use hyper_gnomon.Store.Keys.Order.{less_bytes}
use hyper_gnomon.Store.DecimalKeys.{sc_vars_key, split_sc_vars_key}
use hyper_gnomon.Store.Bolt.{at_key, IsKey}
use hyper_gnomon.Store.Bolt.Memory.{memory, memory-IsLawful, fill}
use hyper_gnomon.Store.Truncate.{Db, affected_scids, truncate_to_height}
use hyper_gnomon.Codec.Install.{InstallRecord}
use hyper_gnomon.Codec.ClassMeta.{ClassMeta}
use hyper_gnomon.Store.Truncate.Total.{HasKeys, truncate_to_height_total}
use hyper_gnomon.Store.Batch.{
  WriteBatch, add_interaction_height, add_block_hash, add_class, add_install, add_normal_tx,
  add_variables,
}
use hyper_gnomon.Store.Flush.{parse_scid_height_key}
use hyper_gnomon.Store.Flush.Gone.{IsAbove, IsLater}
use hyper_gnomon.Store.Flush.Run.{flush_batch}
use hyper_gnomon.Codec.ClassMeta.RoundTrip.{InRange}
use hyper_gnomon.Store.DecimalKeys.{class_key}
use hyper_gnomon.Store.DecimalKeys.Classes.{IsUnbarred}
use hyper_gnomon.Store.Flush.ClassIndex.{StorableClass, IsSynced}
use hyper_gnomon.Store.Flush.Synced.{flush_truncate-IsSynced, flush_batch-one_row}
use hyper_gnomon.Store.Flush.Undo.{flush_batch-truncate_to_height}

abbrev no_install : Bytes → Option InstallRecord
no_install v = none

abbrev no_class : Bytes → Option ClassMeta
no_class v = none

abbrev start : Db memory
start = record {
  block_hashes = fill ((enc_height (pos 5), text "h5") ∷ []);
  installs = fill [];
  heights = fill ((append_height_key [] (text "a") (pos 5), 1 ∷ []) ∷ []);
  sc_vars = fill [];
  sc_vars_latest = fill [];
  norm_txs = fill [];
  class_prefix = fill [];
  class_idx = fill [];
  owners = fill ((text "a", text "x") ∷ []);
  sc_code = fill [];
  invalid = fill [];
  owner_scids = fill [];
  tela_content = fill [];
  stats = fill ((text "lastindexedheight", text "10") ∷ []);
  invocations = λ scid. none;
  addr_scids = [];
}

abbrev no_details : SctxParse ℕ ℕ → Option Bytes
no_details d = none

abbrev no_entry : Bytes → Option AddrScidEntry
no_entry v = none

abbrev new_batch : WriteBatch ℕ ℕ
new_batch = record {
  owner_maps = record { owners = []; owner_scids = [] };
  invocations = [];
  variables = [];
  heights = [];
  normal_txs = [];
  invalid_scids = [];
  reg_tx_count = pos 0;
  burn_tx_count = pos 0;
  norm_tx_count = pos 0;
  last_height = pos 11;
  block_hashes = [];
  installs = [];
  classes = [];
  addr_scids = [];
  sc_codes = [];
}

abbrev meta : ClassMeta
meta = record {
  class = text "G45-NFT";
  tags = [];
  name = text "n";
  desc = [];
  icon_url = [];
  durl = [];
  version = [];
  install_height = pos 11;
  last_height = pos 11;
  image = [];
  alt_image = [];
  audio = [];
  video = [];
  images_json = [];
}

abbrev batch : WriteBatch ℕ ℕ
batch = add_interaction_height ℕ ℕ (text "a") (pos 11) (
    add_block_hash ℕ ℕ (pos 11) (text "h11") (
      add_normal_tx ℕ ℕ (text "x") (text "t3") (text "a") 5 (pos 11) (
        add_install ℕ ℕ (text "c") (pos 11)
          (record { owner = text "y"; entrypoint = text "Initialize"; fees = 7 })
          (add_class ℕ ℕ (text "a") (some meta)
            (add_variables ℕ ℕ (text "a") (pos 11) [] new_batch)))))

eleven : IsAbove 10 (pos 11)
eleven = record { n = 11; is_n = refl; above = omega arith; int64 = omega arith }

batch-IsLater : IsLater 10 batch
unfolding add_interaction_height add_block_hash add_normal_tx add_install add_class add_variables
    scid_height_key write_digits format_int parse_scid_height_key parse_int bytes_eq
batch-IsLater = record {
  heights = ((((λ e. omega (arith, e)), tt), (eleven, tt)), tt);
  variables = ((((λ e. omega (arith, e)), tt), eleven), tt);
  normal_txs = ((((λ e. omega (arith, e)), tt), eleven), tt);
  block_hashes = (eleven, tt);
  installs = (eleven, tt);
}

flushes : is_some (flush_batch ℕ ℕ no_details memory no_class no_entry batch start) ≡ true
unfolding flush_batch add_interaction_height add_block_hash add_normal_tx add_install add_class
    add_variables scid_height_key write_digits format_int parse_scid_height_key parse_int bytes_eq
    less_bytes be_bytes int64_bits install_key append_height_key append_norm_tx_key sc_vars_key
    class_key
flushes = refl

flushed :
    (t : Db memory) × (flush_batch ℕ ℕ no_details memory no_class no_entry batch start ≡ some t)
flushed = value_of (flush_batch ℕ ℕ no_details memory no_class no_entry batch start) flushes

affected_before : affected_scids memory (pos 10) start ≡ []
unfolding affected_scids less_bytes bytes_eq be_bytes int64_bits int64_from_bits append_height_key
    split_height_key be_fold
affected_before = refl

before : (t : Db memory) × (truncate_to_height memory no_install no_class (pos 10) start ≡ some t)
before =
    truncate_to_height_total memory memory-IsLawful no_install no_class (pos 10) start tt
      (subst (All IsKey) (sym affected_before) tt)

affected_behind : affected_scids memory (pos 10) flushed.0 ≡ text "c" ∷ text "a" ∷ []
unfolding flush_batch add_interaction_height add_block_hash add_normal_tx add_install add_class
    add_variables scid_height_key write_digits format_int parse_scid_height_key parse_int bytes_eq
    less_bytes be_bytes int64_bits install_key append_height_key append_norm_tx_key sc_vars_key
    class_key affected_scids int64_from_bits split_height_key be_fold install_key_scid
    split_sc_vars_key flushed
affected_behind = refl

no_addresses : HasKeys memory memory-IsLawful flushed.0.addr_scids
unfolding flush_batch add_interaction_height add_block_hash add_normal_tx add_install add_class
    add_variables scid_height_key write_digits format_int parse_scid_height_key parse_int bytes_eq
    less_bytes be_bytes int64_bits install_key append_height_key append_norm_tx_key sc_vars_key
    class_key flushed
no_addresses = tt

behind :
    (t : Db memory) × (truncate_to_height memory no_install no_class (pos 10) flushed.0 ≡ some t)
behind =
    truncate_to_height_total memory memory-IsLawful no_install no_class (pos 10) flushed.0
      no_addresses (subst (All IsKey) (sym affected_behind) ((refl, refl), ((refl, refl), tt)))

abbrev key_5 : Bytes
key_5 = append_height_key [] (text "a") (pos 5)

flush_batch-truncate_to_height_example :
    (at_key memory key_5 behind.0.heights ≡ at_key memory key_5 before.0.heights)
    × (at_key memory key_5 behind.0.sc_vars ≡ at_key memory key_5 before.0.sc_vars)
    × (at_key memory key_5 behind.0.norm_txs ≡ at_key memory key_5 before.0.norm_txs)
    × (at_key memory key_5 behind.0.installs ≡ at_key memory key_5 before.0.installs)
    × (at_key memory key_5 behind.0.block_hashes ≡ at_key memory key_5 before.0.block_hashes)
flush_batch-truncate_to_height_example =
    flush_batch-truncate_to_height memory memory-IsLawful no_details no_install no_class no_entry 10
      batch start flushed.0 behind.0 before.0 key_5 (omega arith) batch-IsLater flushed.1 behind.1
      before.1

meta-InRange : InRange meta
meta-InRange = record {
  install_height = omega arith;
  last_height = omega arith;
  tag_count = omega arith;
  tags = tt;
  fields =
      (omega arith, (omega arith, (omega arith, (omega arith, (omega arith, (omega arith, tt))))));
  media = (omega arith, (omega arith, (omega arith, (omega arith, (omega arith, tt)))));
}

g45-IsUnbarred : IsUnbarred (text "G45-NFT")
g45-IsUnbarred = (
  (λ e. omega (arith, e)),
  (
    (λ e. omega (arith, e)),
    (
      (λ e. omega (arith, e)),
      (
        (λ e. omega (arith, e)),
        ((λ e. omega (arith, e)), ((λ e. omega (arith, e)), ((λ e. omega (arith, e)), tt))),
      ),
    ),
  ),
)

classes-IsStorable : All StorableClass batch.classes
unfolding add_interaction_height add_block_hash add_normal_tx add_install add_class add_variables
classes-IsStorable = (record { in_range = meta-InRange; unbarred = g45-IsUnbarred }, tt)

start-IsSynced : IsSynced memory no_class start.class_idx start.class_prefix
start-IsSynced class h scid unbarred int64 row = cc row

flush_truncate-IsSynced_example :
    IsSynced memory no_class flushed.0.class_idx flushed.0.class_prefix
    × IsSynced memory no_class behind.0.class_idx behind.0.class_prefix
flush_truncate-IsSynced_example =
    flush_truncate-IsSynced memory memory-IsLawful no_class no_details no_install no_entry batch
      (pos 10) start flushed.0 behind.0 classes-IsStorable flushed.1 behind.1 start-IsSynced

g45_row :
    is_some (at_key memory (class_key (text "G45-NFT") (pos 11) (text "a")) flushed.0.class_prefix)
    ≡ true
unfolding flush_batch add_interaction_height add_block_hash add_normal_tx add_install add_class
    add_variables scid_height_key write_digits format_int parse_scid_height_key parse_int bytes_eq
    less_bytes be_bytes int64_bits install_key append_height_key append_norm_tx_key sc_vars_key
    class_key flushed enc_height
g45_row = refl

flush_batch-one_row_example : (text "G45-NFT" ≡ text "G45-NFT") × (pos 11 ≡ pos 11)
flush_batch-one_row_example =
    flush_batch-one_row memory memory-IsLawful no_class no_details no_entry batch start flushed.0
      (text "G45-NFT") (text "G45-NFT") (pos 11) (pos 11) (text "a") classes-IsStorable flushed.1
      start-IsSynced (g45-IsUnbarred, g45-IsUnbarred, omega arith, omega arith) g45_row g45_row
