-- ===== src/Store/Batch.antt =====
-- WriteBatch of storage/storage.go: what the indexer collects between two flushes. A Go map is a list
-- in which each key stands once, in the order of its iteration; a nil map is empty. The arguments and
-- payloads of a scan record are parameters, since they are only passed on.
use hyper_gnomon.Base.{
  ℕ, List, [], ◌∷◌, ◌++◌, Bool, true, false, ◌&&◌, ◌||◌, Option, none, some, if◌then◌else◌,
}
use hyper_gnomon.Base.Int.{ℤ, pos, ltb_ℤ}
use hyper_gnomon.Base.Texts.{Bytes, bytes_eq, is_empty}
use hyper_gnomon.Base.Dict.{get, put}
use hyper_gnomon.Codec.Install.{InstallRecord}
use hyper_gnomon.Codec.ClassMeta.{ClassMeta}
use hyper_gnomon.Codec.Variables.{ScidVariable}
use hyper_gnomon.Codec.NormalTx.{NormalTx}
use hyper_gnomon.Codec.ScCode.{ScCodeEntry}
use hyper_gnomon.Codec.SctxTurbo.{SctxParse}
use hyper_gnomon.Publish.{InvokeRecord, VarKey, scid_height_key}
use hyper_gnomon.Store.Owners.{OwnerMaps}
use hyper_gnomon.Store.Owners
use hyper_gnomon.Store.Touch
use hyper_gnomon.Store.Touch.{Entries}

pub record NormalTxRef : Type 0 where
  pub addr : Bytes
  pub tx : NormalTx

abbrev pub eq_ℤ : ℤ → ℤ → Bool
eq_ℤ a b = if ltb_ℤ a b then false else if ltb_ℤ b a then false else true

abbrev pub var_key_eq : VarKey → VarKey → Bool
var_key_eq k j = bytes_eq k.scid j.scid && eq_ℤ k.height j.height

abbrev pub put_variables :
    VarKey
    → List ScidVariable
    → List (VarKey × List ScidVariable)
    → List (VarKey × List ScidVariable)
put_variables k v [] = (k, v) ∷ []
put_variables k v ((j, w) ∷ m) =
    let rest = put_variables k v m in if var_key_eq j k then (j, v) ∷ m else (j, w) ∷ rest

abbrev pub put_hash : ℤ → Bytes → List (ℤ × Bytes) → List (ℤ × Bytes)
put_hash k v [] = (k, v) ∷ []
put_hash k v ((j, w) ∷ m) =
    let rest = put_hash k v m in if eq_ℤ j k then (j, v) ∷ m else (j, w) ∷ rest

abbrev pub or_nil : {A : Type 0} → Option (List A) → List A
or_nil none = []
or_nil (some l) = l

module _ (Arg Payload : Type 0) where
  pub record WriteBatch : Type 0 where
    pub owner_maps : OwnerMaps
    pub invocations : List (InvokeRecord (SctxParse Arg Payload))
    pub variables : List (VarKey × List ScidVariable)
    pub heights : List (Bytes × List ℤ)
    pub normal_txs : List NormalTxRef
    pub invalid_scids : List (Bytes × ℕ)
    pub reg_tx_count : ℤ
    pub burn_tx_count : ℤ
    pub norm_tx_count : ℤ
    pub last_height : ℤ
    pub block_hashes : List (ℤ × Bytes)
    pub installs : List (Bytes × InstallRecord)
    pub classes : List (Bytes × Option ClassMeta)
    pub addr_scids : Entries
    pub sc_codes : List (Bytes × Option ScCodeEntry)

  -- What `Reset` leaves of any batch, and a new batch.
  unfoldable pub reset : WriteBatch → WriteBatch
  reset b = record b {
    owner_maps = record { owners = []; owner_scids = [] };
    invocations = [];
    variables = [];
    heights = [];
    normal_txs = [];
    invalid_scids = [];
    block_hashes = [];
    installs = [];
    classes = [];
    addr_scids = [];
    sc_codes = [];
    reg_tx_count = pos 0;
    burn_tx_count = pos 0;
    norm_tx_count = pos 0;
    last_height = pos 0;
  }

  unfoldable pub add_owner : Bytes → Bytes → WriteBatch → WriteBatch
  unfolding Owners.add_owner
  add_owner scid owner b = record b { owner_maps = Owners.add_owner scid owner b.owner_maps }

  unfoldable pub add_invocation : InvokeRecord (SctxParse Arg Payload) → WriteBatch → WriteBatch
  add_invocation r b = record b { invocations = b.invocations ++ (r ∷ []) }

  unfoldable pub add_variables : Bytes → ℤ → List ScidVariable → WriteBatch → WriteBatch
  add_variables scid height vars b = record b {
    variables = put_variables (record { scid = scid; height = height }) vars b.variables;
  }

  unfoldable pub add_interaction_height : Bytes → ℤ → WriteBatch → WriteBatch
  add_interaction_height scid height b = record b {
    heights = put scid (or_nil (get scid b.heights) ++ (height ∷ [])) b.heights;
  }

  unfoldable pub add_normal_tx : Bytes → Bytes → Bytes → ℕ → ℤ → WriteBatch → WriteBatch
  add_normal_tx addr txid scid fees height b = record b {
    normal_txs =
        b.normal_txs
        ++ (record {
          addr = addr;
          tx = record { txid = txid; scid = scid; fees = fees; height = height };
        }
            ∷ []);
  }

  unfoldable pub add_block_hash : ℤ → Bytes → WriteBatch → WriteBatch
  add_block_hash height hash b = record b { block_hashes = put_hash height hash b.block_hashes }

  unfoldable pub add_install : Bytes → ℤ → InstallRecord → WriteBatch → WriteBatch
  unfolding scid_height_key
  add_install scid height r b = record b {
    installs = put (scid_height_key scid height) r b.installs;
  }

  unfoldable pub add_class : Bytes → Option ClassMeta → WriteBatch → WriteBatch
  add_class scid meta b = record b { classes = put scid meta b.classes }

  unfoldable pub add_sc_code : Bytes → ℤ → Bytes → WriteBatch → WriteBatch
  add_sc_code scid height code b = if is_empty scid || is_empty code then b else record b {
    sc_codes = put scid (some (record { code = code; install_height = height })) b.sc_codes;
  }

  unfoldable pub add_addr_scid : Bytes → Bytes → ℤ → WriteBatch → WriteBatch
  unfolding Touch.add_addr_scid
  add_addr_scid addr scid height b = record b {
    addr_scids = Touch.add_addr_scid b.addr_scids addr scid height;
  }
