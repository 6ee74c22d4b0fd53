-- ===== src/Publish.antt =====
-- indexer/publish.go: the events of a batch that was flushed, and the map keys of its installs, which
-- scidHeightKey of storage/storage.go writes. A Go map is a list in the order of its iteration.
pub mod Laws
pub mod Announced
pub mod Parts
pub mod Classes
pub mod Batch
mod Examples
use hyper_gnomon.Base.{
  ℕ, zero, suc, ◌+◌, ◌-◌, ◌*◌, ◌%◌, ◌^◌, List, [], ◌∷◌, ◌++◌, Bool, true, false, ◌||◌, Option, none,
  some,
}
use hyper_gnomon.Base.{ltb, take, drop, if◌then◌else◌}
use hyper_gnomon.Base.Int.{ℤ, pos, negsuc, ltb_ℤ}
use hyper_gnomon.Base.Texts.{Bytes, bytes_eq, is_empty, text}
use hyper_gnomon.Codec.Words.{int64_from_bits}
use hyper_gnomon.Codec.Decimal.{digits, write_digits, negate64}
use hyper_gnomon.Codec.Install.{InstallRecord}
use hyper_gnomon.Codec.ClassMeta.{ClassMeta}
use hyper_gnomon.Codec.Variables.{ScidVariable}
use hyper_gnomon.Store.Keys.{last_index_byte}
use hyper_gnomon.Bus.{Bus, publish}
use hyper_gnomon.Bus.Events.{
  Event, event_install, event_invoke, event_var_change, event_class_match, event_safe,
}

abbrev pub at_sign : ℕ
at_sign = 64

-- The digits of a number that is not 0, and "0"; the minus sign before the digits of `-n`.
unfoldable pub int_to_str : ℤ → Bytes
int_to_str (pos zero) = 48 ∷ []
int_to_str (pos (suc n)) = write_digits (pos (suc n))
int_to_str (negsuc n) = 45 ∷ write_digits (negate64 (negsuc n))

unfoldable pub scid_height_key : Bytes → ℤ → Bytes
unfolding int_to_str
scid_height_key scid height = (scid ++ (at_sign ∷ [])) ++ int_to_str height

-- `n = n*10 + int64(c-'0')` over the digits, on the bit pattern of the int64.
unfoldable pub parse_height : Bytes → ℕ → Option ℕ
parse_height [] n = some n
parse_height (c ∷ cs) n =
    let rest = parse_height cs ((n * 10 + (c - 48)) % 2 ^ 64) in
    if ltb c 48 || ltb 57 c then none else rest

unfoldable pub split_scid_height_key : Bytes → Option (Bytes × ℤ)
split_scid_height_key k = elim (last_index_byte k at_sign) [
  | none ↦ none
  | some at ↦ elim (parse_height (drop (at + 1) k) 0) [
    | none ↦ none
    | some n ↦ some (take at k, int64_from_bits n)
  ]
]

-- The details of an invocation are a parameter: they are only passed on.
pub record InvokeRecord (D : Type 0) : Type 0 where
  pub scid : Bytes
  pub sender : Bytes
  pub entrypoint : Bytes
  pub height : ℤ
  pub details : D

pub record VarKey : Type 0 where
  pub scid : Bytes
  pub height : ℤ

-- The parts of a batch that are published; a class may be nil.
pub record WriteBatch (D : Type 0) : Type 0 where
  pub installs : List (Bytes × InstallRecord)
  pub invocations : List (InvokeRecord D)
  pub variables : List (VarKey × List ScidVariable)
  pub classes : List (Bytes × Option ClassMeta)

pub record SafeAdvance : Type 0 where
  pub prev_safe_height : ℤ
  pub safe_height : ℤ
  pub tip : ℤ

pub data Payload (D : Type 0) : Type 0 where
  of_install : InstallRecord → Payload D
  of_invocation : D → Payload D
  of_variables : List ScidVariable → Payload D
  of_class : ClassMeta → Payload D
  of_safe : SafeAdvance → Payload D

module _ {D : Type 0} (safe : ℤ) where
  -- An install whose key cannot be split is skipped.
  unfoldable pub install_events : List (Bytes × InstallRecord) → List (Event (Payload D))
  install_events [] = []
  install_events ((key, rec) ∷ more) =
      let rest = install_events more in
      elim (split_scid_height_key key) [
        | none ↦ rest
        | some (scid, h) ↦
            record {
              type = event_install;
              height = h;
              safe_height = safe;
              scid = scid;
              class = [];
              tags = [];
              owner = rec.owner;
              sender = [];
              entrypoint = rec.entrypoint;
              speculative = false;
              payload = of_install rec;
            }
            ∷ rest
      ]

  unfoldable pub invoke_events : List (InvokeRecord D) → List (Event (Payload D))
  invoke_events [] = []
  invoke_events (inv ∷ more) =
      record {
        type = event_invoke;
        height = inv.height;
        safe_height = safe;
        scid = inv.scid;
        class = [];
        tags = [];
        owner = [];
        sender = inv.sender;
        entrypoint = inv.entrypoint;
        speculative = false;
        payload = of_invocation inv.details;
      }
      ∷ invoke_events more

  unfoldable pub variable_events : List (VarKey × List ScidVariable) → List (Event (Payload D))
  variable_events [] = []
  variable_events ((k, vars) ∷ more) =
      record {
        type = event_var_change;
        height = k.height;
        safe_height = safe;
        scid = k.scid;
        class = [];
        tags = [];
        owner = [];
        sender = [];
        entrypoint = [];
        speculative = false;
        payload = of_variables vars;
      }
      ∷ variable_events more

  -- nil, an empty class and UNKNOWN are skipped.
  unfoldable pub class_events : List (Bytes × Option ClassMeta) → List (Event (Payload D))
  class_events [] = []
  class_events ((scid, none) ∷ more) = class_events more
  class_events ((scid, some meta) ∷ more) =
      let rest = class_events more in
      if is_empty meta.class || bytes_eq meta.class (text "UNKNOWN")
      then rest
      else record {
        type = event_class_match;
        height = meta.last_height;
        safe_height = safe;
        scid = scid;
        class = meta.class;
        tags = meta.tags;
        owner = [];
        sender = [];
        entrypoint = [];
        speculative = false;
        payload = of_class meta;
      }
        ∷ rest

  unfoldable pub safe_events : ℤ → ℤ → List (Event (Payload D))
  safe_events new_height prev_safe =
      if ltb_ℤ prev_safe safe
      then record {
        type = event_safe;
        height = new_height;
        safe_height = safe;
        scid = [];
        class = [];
        tags = [];
        owner = [];
        sender = [];
        entrypoint = [];
        speculative = false;
        payload =
            of_safe (record { prev_safe_height = prev_safe; safe_height = safe; tip = new_height });
      }
        ∷ []
      else []

  unfoldable pub batch_events : WriteBatch D → ℤ → ℤ → List (Event (Payload D))
  batch_events b new_height prev_safe =
      install_events b.installs
      ++ (invoke_events b.invocations
          ++ (variable_events b.variables
              ++ (class_events b.classes ++ safe_events new_height prev_safe)))

module _ {D : Type 0} where
  unfoldable pub publish_all : List (Event (Payload D)) → Bus (Payload D) → Option (Bus (Payload D))
  publish_all [] bus = some bus
  publish_all (e ∷ es) bus = elim (publish e bus) [ none ↦ none | some next ↦ publish_all es next ]

  -- A nil bus and a nil batch do nothing.
  unfoldable pub publish_batch_events :
      Option (Bus (Payload D))
      → Option (WriteBatch D)
      → ℤ
      → ℤ
      → ℤ
      → Option (Option (Bus (Payload D)))
  publish_batch_events none batch new_height safe prev_safe = some none
  publish_batch_events (some bus) none new_height safe prev_safe = some (some bus)
  publish_batch_events (some bus) (some batch) new_height safe prev_safe =
      elim (publish_all (batch_events safe batch new_height prev_safe) bus) [
        | none ↦ none
        | some next ↦ some (some next)
      ]
