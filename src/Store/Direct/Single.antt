-- ===== src/Store/Direct/Single.antt =====
-- storage/bbolt.go: the writes of single records against the flush of a batch with that one record.
use hyper_gnomon.Base.{
  ℕ, ◌+◌, ◌%◌, ◌^◌, [], ◌∷◌, ◌≡◌, refl, ◌∙◌, Bool, true, false, Option, none, some, if◌then◌else◌,
}
use hyper_gnomon.Base.Int.{ℤ}
use hyper_gnomon.Base.Texts.{Bytes, is_empty}
use hyper_gnomon.Base.Dict.{is_some}
use hyper_gnomon.Codec.AddrScid.{AddrScidEntry}
use hyper_gnomon.Codec.ClassMeta.{ClassMeta}
use hyper_gnomon.Codec.SctxTurbo.{SctxParse}
use hyper_gnomon.Codec.Varint.{append_uvarint}
use hyper_gnomon.Store.Keys.{enc_height, append_height_key}
use hyper_gnomon.Store.Bolt.{Engine, at_key}
use hyper_gnomon.Store.Truncate.{◌>>=◌, Db}
use hyper_gnomon.Store.Batch.{WriteBatch, reset, add_owner, add_block_hash, add_interaction_height}
use hyper_gnomon.Store.Owners
use hyper_gnomon.Store.Flush.Run.{flush_batch}
use hyper_gnomon.Store.Flush.{previous_count, owner_scid_key}
use hyper_gnomon.Store.Flush.Stages.{add_scid_count_stat}
use hyper_gnomon.Store.Direct.{store_owner, store_block_hash, store_scid_interaction_height}

collapse :
    {A B : Type 0} (m : Option A) (next : A → Option B)
    → (m >>= next) ≡ ((m >>= λ a. some a) >>= next)
collapse none next = refl
collapse (some a) next = refl

ends_none : {A B : Type 0} (o : Option A) → ◌≡◌ {A = Option B} none (o >>= λ c. none)
ends_none none = refl
ends_none (some c) = refl

abbrev with_count : {A : Type 0} → A → ℕ → Option (A × ℕ)
with_count a n = some (a, n)

-- Two writes that do not read each other may be swapped, errors included.
swap_writes :
    {A B C R : Type 0} (m : Option A) (n : ℕ) (rows : Option B) (stat : A → ℕ → Option C)
    (done : A → B → C → R)
    → (m >>= λ a. rows >>= λ b. stat a n >>= λ c. some (done a b c)) ≡ (
        (m >>= λ a. with_count a n) >>= λ o.
        stat o.0 o.1 >>= λ c. rows >>= λ b. some (done o.0 b c))
swap_writes none n rows stat done = refl
swap_writes (some a) n none stat done = ends_none (stat a n)
swap_writes (some a) n (some b) stat done = refl

module _ (D : Engine) where
  counted_once :
      (known : Bool) (owners stats : D.Bucket)
      → (if known then some stats else add_scid_count_stat D 1 owners stats)
        ≡ add_scid_count_stat D (if known then 0 else 0 + 1) owners stats
  unfolding add_scid_count_stat
  counted_once true owners stats = refl
  counted_once false owners stats = refl

module _ (D : Engine) {Arg Payload : Type 0}
    (msgpack_details : SctxParse Arg Payload → Option Bytes) (mc : Bytes → Option ClassMeta)
    (ma : Bytes → Option AddrScidEntry) where
  -- The flush, with the parameters of the section.
  abbrev pub flush : WriteBatch Arg Payload → Db D → Option (Db D)
  flush = flush_batch Arg Payload msgpack_details D mc ma

  flush-reset : (b : WriteBatch Arg Payload) (s : Db D) → flush (reset Arg Payload b) s ≡ some s
  unfolding flush_batch reset
  flush-reset b s = refl

  -- A block hash, an interaction or an owner of a contract with a name is stored alone as by the
  -- flush of an emptied batch to which just this is added, with the same store behind it or an
  -- error of both.
  pub single-flush :
      (b : WriteBatch Arg Payload) (s : Db D) (height : ℤ) (hash scid owner : Bytes)
      → is_empty scid ≡ false
      → (store_block_hash D height hash s
          ≡ flush (add_block_hash Arg Payload height hash (reset Arg Payload b)) s)
        × (store_scid_interaction_height D scid height s
            ≡ flush (add_interaction_height Arg Payload scid height (reset Arg Payload b)) s)
        × (store_owner D scid owner s
            ≡ flush (add_owner Arg Payload scid owner (reset Arg Payload b)) s)
  unfolding flush_batch reset add_block_hash store_block_hash add_interaction_height
      store_scid_interaction_height add_owner store_owner Owners.add_owner Owners.add_reverse
  single-flush b s height hash [] owner named = cc named
  single-flush b s height hash (x ∷ scid) owner named = (
    collapse (D.put (enc_height height) hash s.block_hashes) _,
    (let key = append_height_key [] (x ∷ scid) height in
        let m =
          D.put key (append_uvarint [] ((1 + previous_count (at_key D key s.heights)) % 2 ^ 64))
            s.heights in
        let kept : Option D.Bucket = m >>= λ c. some c in collapse m _ ∙ collapse kept _),
    owner_flush owner,
  )
    where
      known : Bool
      known = is_some (at_key D (x ∷ scid) s.owners)

      fresh : ℕ
      fresh = if known then 0 else 0 + 1

      stat : D.Bucket → ℕ → Option D.Bucket
      stat owners n = add_scid_count_stat D n owners s.stats

      done : D.Bucket → D.Bucket → D.Bucket → Db D
      done owners owner_scids stats = record s {
        owners = owners;
        owner_scids = owner_scids;
        stats = stats;
      }

      owner_flush :
          (owner : Bytes)
          → store_owner D (x ∷ scid) owner s
            ≡ flush (add_owner Arg Payload (x ∷ scid) owner (reset Arg Payload b)) s
      owner_flush [] =
          (λ i. D.put (x ∷ scid) [] s.owners >>= λ a.
          counted_once D known a s.stats i >>= λ c. some (done a s.owner_scids c))
          ∙ swap_writes (D.put (x ∷ scid) [] s.owners) fresh (some s.owner_scids) stat done
      owner_flush (y ∷ owner) =
          let rows = D.put (owner_scid_key (y ∷ owner) (x ∷ scid)) [] s.owner_scids in
          (λ i. D.put (x ∷ scid) (y ∷ owner) s.owners >>= λ a.
          collapse rows (λ b. counted_once D known a s.stats i >>= λ c. some (done a b c)) i)
          ∙ swap_writes (D.put (x ∷ scid) (y ∷ owner) s.owners) fresh (rows >>= λ b. some b) stat
              done
