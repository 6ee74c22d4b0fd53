-- ===== src/Publish/Announced.antt =====
-- indexer/publish.go: which events a flushed batch is announced with.
use mathlib.Core.List.{Memᴰ}
use hyper_gnomon.Base.{ℕ, ◌^◌, ◌<◌, ◌≡◌, ◌≢◌, List, [], ◌∷◌, false, Option, some}
use hyper_gnomon.Base.Int.{ℤ, pos, ◌<ℤ◌}
use hyper_gnomon.Base.Texts.{Bytes, text}
use hyper_gnomon.Codec.Install.{InstallRecord}
use hyper_gnomon.Codec.ClassMeta.{ClassMeta}
use hyper_gnomon.Codec.Variables.{ScidVariable}
use hyper_gnomon.Bus.Events.{Event}
use hyper_gnomon.Publish.{
  InvokeRecord, VarKey, WriteBatch, Payload, of_install, of_invocation, of_variables, of_class,
  of_safe, scid_height_key,
}

-- The keys of the installs are those that AddInstall writes, of heights of an int64 from 0 on.
abbrev pub IsWritten : List (Bytes × InstallRecord) → Type 0
IsWritten [] = Unit {0}
IsWritten ((key, rec) ∷ more) =
    ((scid : Bytes) × (n : ℕ) × (key ≡ scid_height_key scid (pos n)) × (n < 2 ^ 63))
    × IsWritten more

module _ {D : Type 0} (safe : ℤ) where
  abbrev pub install_at : Bytes → ℕ → InstallRecord → Event (Payload D)
  install_at s n rec = record {
    type = 1;
    height = pos n;
    safe_height = safe;
    scid = s;
    class = [];
    tags = [];
    owner = rec.owner;
    sender = [];
    entrypoint = rec.entrypoint;
    speculative = false;
    payload = of_install rec;
  }

  abbrev pub invocation_at : InvokeRecord D → Event (Payload D)
  invocation_at inv = record {
    type = 2;
    height = inv.height;
    safe_height = safe;
    scid = inv.scid;
    class = [];
    tags = [];
    owner = [];
    sender = inv.sender;
    entrypoint = inv.entrypoint;
    speculative = false;
    payload = of_invocation inv.details;
  }

  abbrev pub snapshot_at : VarKey → List ScidVariable → Event (Payload D)
  snapshot_at k vars = record {
    type = 3;
    height = k.height;
    safe_height = safe;
    scid = k.scid;
    class = [];
    tags = [];
    owner = [];
    sender = [];
    entrypoint = [];
    speculative = false;
    payload = of_variables vars;
  }

  abbrev pub class_at : Bytes → ClassMeta → Event (Payload D)
  class_at s meta = record {
    type = 6;
    height = meta.last_height;
    safe_height = safe;
    scid = s;
    class = meta.class;
    tags = meta.tags;
    owner = [];
    sender = [];
    entrypoint = [];
    speculative = false;
    payload = of_class meta;
  }

  abbrev pub safe_at : ℤ → ℤ → Event (Payload D)
  safe_at new_height prev = record {
    type = 5;
    height = new_height;
    safe_height = safe;
    scid = [];
    class = [];
    tags = [];
    owner = [];
    sender = [];
    entrypoint = [];
    speculative = false;
    payload = of_safe (record { prev_safe_height = prev; safe_height = safe; tip = new_height });
  }

module _ {D : Type 0} (safe : ℤ) (e : Event (Payload D)) where
  abbrev pub OfInstall : List (Bytes × InstallRecord) → Type 0
  OfInstall l =
      (s : Bytes) × (n : ℕ) × (rec : InstallRecord) × (n < 2 ^ 63)
      × Memᴰ (scid_height_key s (pos n), rec) l
      × (e ≡ install_at safe s n rec)

  abbrev pub OfInvocation : List (InvokeRecord D) → Type 0
  OfInvocation l = (inv : InvokeRecord D) × Memᴰ inv l × (e ≡ invocation_at safe inv)

  abbrev pub OfSnapshot : List (VarKey × List ScidVariable) → Type 0
  OfSnapshot l =
      (k : VarKey) × (vars : List ScidVariable) × Memᴰ (k, vars) l × (e ≡ snapshot_at safe k vars)

  abbrev pub OfClass : List (Bytes × Option ClassMeta) → Type 0
  OfClass l =
      (s : Bytes) × (meta : ClassMeta) × Memᴰ (s, some meta) l
      × (meta.class ≢ [])
      × (meta.class ≢ text "UNKNOWN")
      × (e ≡ class_at safe s meta)

  abbrev pub OfSafe : ℤ → ℤ → Type 0
  OfSafe new_height prev = (prev <ℤ safe) × (e ≡ safe_at safe new_height prev)

  -- What an event may announce: an install, an invocation, a snapshot, a class that is known and not
  -- UNKNOWN, or that the safe height has risen.
  pub data Announces (b : WriteBatch D) (new_height prev : ℤ) : Type 0 where
    an_install : OfInstall b.installs → Announces b new_height prev
    an_invocation : OfInvocation b.invocations → Announces b new_height prev
    a_snapshot : OfSnapshot b.variables → Announces b new_height prev
    a_class : OfClass b.classes → Announces b new_height prev
    a_safe_height : OfSafe new_height prev → Announces b new_height prev
