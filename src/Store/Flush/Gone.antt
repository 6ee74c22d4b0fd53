-- ===== src/Store/Flush/Gone.antt =====
-- FlushBatch of storage/bbolt.go: the keys that a batch above a height writes are among those that
-- TruncateToHeight of storage/truncate.go to that height removes.
use hyper_gnomon.Base.{
  ℕ, ◌+◌, ◌^◌, ◌<◌, ◌≡◌, subst, arith, List, [], ◌∷◌, ◌++◌, append-nil, append_assoc, Bool, true,
  not, All,
}
use hyper_gnomon.Base.Int.{ℤ, pos}
use hyper_gnomon.Base.Texts.{Bytes}
use hyper_gnomon.Base.Dict.{is_some}
use hyper_gnomon.Codec.Install.{InstallRecord}
use hyper_gnomon.Store.Keys.{bar, enc_height, install_key, append_height_key, append_norm_tx_key}
use hyper_gnomon.Store.Keys.Order.{less_bytes, less_enc_height}
use hyper_gnomon.Store.Keys.Laws.{
  IsPlain, split_height_key-append_height_key, norm_tx_height-append_norm_tx_key,
}
use hyper_gnomon.Store.DecimalKeys.{sc_vars_key}
use hyper_gnomon.Store.DecimalKeys.Laws.{split_sc_vars_key-sc_vars_key}
use hyper_gnomon.Store.Touch.{increment}
use hyper_gnomon.Store.Truncate.{height_above, snapshot_above, norm_tx_above}
use hyper_gnomon.Store.Truncate.Detail.{increment_pos}
use hyper_gnomon.Store.Batch.{WriteBatch, NormalTxRef}
use hyper_gnomon.Store.Flush.{norm_tx_rows, hash_rows, install_rows, install_refs}
use hyper_gnomon.Store.Flush.Frame.{}

-- A height that a 64-bit chain can have, above another.
pub record IsAbove (height : ℕ) (z : ℤ) : Type 0 where
  pub n : ℕ
  pub is_n : z ≡ pos n
  pub above : height < n
  pub int64 : n < 2 ^ 63

-- The keys that a truncation to the height removes.
abbrev pub gone_height : ℕ → Bytes → Bool
gone_height height k = is_some (height_above (pos height) k)

abbrev pub gone_snapshot : ℕ → Bytes → Bool
gone_snapshot height k = is_some (snapshot_above (pos height) k)

abbrev pub gone_big_endian : ℕ → Bytes → Bool
gone_big_endian height k = not (less_bytes k (enc_height (increment (pos height))))

height_key_gone :
    (height : ℕ) (scid : Bytes) (z : ℤ)
    → IsPlain scid
    → IsAbove height z
    → gone_height height (append_height_key [] scid z) ≡ true
height_key_gone height scid z clean a =
    rw (a.is_n) (
      rw (split_height_key-append_height_key scid (pos a.n) clean a.int64)
        (ground (arith, a.above)))

pub snapshot_key_gone :
    (height : ℕ) (scid : Bytes) (z : ℤ)
    → IsPlain scid
    → IsAbove height z
    → gone_snapshot height (sc_vars_key scid z) ≡ true
snapshot_key_gone height scid z clean a =
    rw (a.is_n)
      (rw (split_sc_vars_key-sc_vars_key scid (pos a.n) clean a.int64) (ground (arith, a.above)))

norm_tx_key_gone :
    (height : ℕ) (addr : Bytes) (z : ℤ) (txid scid : Bytes)
    → IsPlain addr
    → IsAbove height z
    → norm_tx_above (pos height) (append_norm_tx_key [] addr z txid scid) ≡ true
norm_tx_key_gone height addr z txid scid clean a = rw (a.is_n) (
    rw (norm_tx_height-append_norm_tx_key addr (pos a.n) txid scid clean a.int64)
      (ground (arith, a.above)))

big_endian_gone :
    (height : ℕ) (z : ℤ) (rest : Bytes)
    → height + 1 < 2 ^ 63
    → IsAbove height z
    → gone_big_endian height (enc_height z ++ rest) ≡ true
big_endian_gone height z rest h a =
    rw (a.is_n, increment_pos height h)
      (rw (less_enc_height a.n (height + 1) rest a.int64 h) (ground (arith, a.above)))

module _ {Arg Payload : Type 0} where
  -- All the records of a batch that are kept by height are above the height, and no colon stands in
  -- their contracts and addresses. The installs are those whose map key is read.
  pub record IsLater (height : ℕ) (batch : WriteBatch Arg Payload) : Type 0 where
    pub heights : All (λ r. IsPlain r.0 × All (IsAbove height) r.1) batch.heights
    pub variables : All (λ r. IsPlain r.0.scid × IsAbove height r.0.height) batch.variables
    pub normal_txs : All (λ r. IsPlain r.addr × IsAbove height r.tx.height) batch.normal_txs
    pub block_hashes : All (λ r. IsAbove height r.0) batch.block_hashes
    pub installs : All (λ r. IsAbove height r.0.0) (install_refs batch.installs)

pub height_keys_gone :
    (height : ℕ) (scid : Bytes) (l : List ℤ)
    → IsPlain scid
    → All (IsAbove height) l
    → All (λ h. gone_height height (append_height_key [] scid h) ≡ true) l
height_keys_gone height scid [] clean a = tt
height_keys_gone height scid (h ∷ l) clean a =
    (height_key_gone height scid h clean a.0, height_keys_gone height scid l clean a.1)

pub norm_tx_rows_gone :
    (height : ℕ) (l : List NormalTxRef)
    → All (λ r. IsPlain r.addr × IsAbove height r.tx.height) l
    → All (λ r. norm_tx_above (pos height) r.0 ≡ true) (norm_tx_rows l)
norm_tx_rows_gone height [] a = tt
norm_tx_rows_gone height (e ∷ l) a = (
  norm_tx_key_gone height e.addr e.tx.height e.tx.txid e.tx.scid a.0.0 a.0.1,
  norm_tx_rows_gone height l a.1,
)

pub hash_rows_gone :
    (height : ℕ) (l : List (ℤ × Bytes))
    → height + 1 < 2 ^ 63
    → All (λ r. IsAbove height r.0) l
    → All (λ r. gone_big_endian height r.0 ≡ true) (hash_rows l)
hash_rows_gone height [] h a = tt
hash_rows_gone height ((z, hash) ∷ l) h a = (
  subst (λ (k : Bytes). gone_big_endian height k ≡ true) (append-nil (enc_height z))
      (big_endian_gone height z [] h a.0),
  hash_rows_gone height l h a.1,
)

pub install_rows_gone :
    (height : ℕ) (l : List ((ℤ × Bytes) × InstallRecord))
    → height + 1 < 2 ^ 63
    → All (λ r. IsAbove height r.0.0) l
    → All (λ r. gone_big_endian height r.0 ≡ true) (install_rows l)
unfolding install_key
install_rows_gone height [] h a = tt
install_rows_gone height (((z, scid), r) ∷ l) h a = (
  rw (append_assoc (enc_height z) (bar ∷ []) scid) (big_endian_gone height z (bar ∷ scid) h a.0),
  install_rows_gone height l h a.1,
)

pub All-map :
    {A : Type 0} {P Q : A → Type 0} (l : List A) → ((x : A) → P x → Q x) → All P l → All Q l
All-map [] f a = tt
All-map (x ∷ l) f a = (f x a.0, All-map l f a.1)
