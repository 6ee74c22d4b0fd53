-- ===== src/Store/Truncate/Detail.antt =====
-- The height-keyed records after a truncation.
use hyper_gnomon.Base.{
  append_assoc, append-nil, ℕ, ◌+◌, ◌^◌, ◌<◌, ◌≡◌, sym, ap, subst, ◌∙◌, inl, inr, arith, List, [],
  ◌∷◌, ◌++◌, true, not, Option, none, some, Option-cases, ltb, length, ◌==◌, take, drop,
  if◌then◌else◌,
}
use hyper_gnomon.Base.Int.{ℤ, pos}
use hyper_gnomon.Base.Texts.{Bytes}
use hyper_gnomon.Base.Dict.{has, keys, is_some}
use hyper_gnomon.Codec.Install.{InstallRecord}
use hyper_gnomon.Codec.ClassMeta.{ClassMeta}
use hyper_gnomon.Codec.Words.{int64_bits, int64_from_bits}
use hyper_gnomon.Store.Keys.{
  colon, bar, enc_height, dec_height, index_byte, install_key, install_key_scid, append_height_key,
  append_norm_tx_key, split_height_key,
}
use hyper_gnomon.Store.Keys.Order.{less_bytes, less_enc_height}
use hyper_gnomon.Store.Keys.Laws.{
  IsPlain, split_height_key-append_height_key, norm_tx_height-append_norm_tx_key,
}
use hyper_gnomon.Store.DecimalKeys.{sc_vars_key}
use hyper_gnomon.Store.DecimalKeys.Laws.{split_sc_vars_key-sc_vars_key}
use hyper_gnomon.Store.Touch.{increment}
use hyper_gnomon.Store.Bolt.{Engine, IsLawful, has_prefix, seek, at_key, delete_where}
use hyper_gnomon.Store.Bolt.Laws.{get-delete_where, get-delete_from_seek}
use hyper_gnomon.Store.Truncate.{
  above, height_above, snapshot_above, norm_tx_above, mark, trim_prefixes, trim_snapshots, Db,
  affected_scids, installed_above, finished, truncate_to_height, not_below_zero,
}
use hyper_gnomon.Store.Truncate.Stages.{
  mark_keeps, mark_finds, prefix_of_index, any_prefix_found, trim_prefixes_complete, Passes,
  truncate_to_height-Passes,
}

after_sep : Bytes → Option ℕ → Option (Bytes × ℤ)
after_sep k none = none
after_sep k (some sep) =
    if not (length k == sep + 1 + 8) then none else some (take sep k, dec_height (drop (sep + 1) k))

-- The key of an interaction above the height starts with its contract and a colon.
height_above_prefix :
    (h : ℤ) (k x : Bytes) → height_above h k ≡ some x → has_prefix k (x ++ (colon ∷ [])) ≡ true
unfolding split_height_key after_sep
height_above_prefix h k x e = elim (Option-cases (index_byte k colon)) [
  | inl missing ↦
      let q : ◌≡◌ {A = Option Bytes} none (some x) =
        sym (ap (λ (o : Option ℕ). above h (after_sep k o)) missing) ∙ e in
      cc q
  | inr (sep, found) ↦
      let q : above h (after_sep k (some sep)) ≡ some x =
        sym (ap (λ (o : Option ℕ). above h (after_sep k o)) found) ∙ e in
      let n : take sep k ≡ x = ground (arith, q) in rw (← n) (prefix_of_index k colon sep found)
]

pub increment_pos : (n : ℕ) → n + 1 < 2 ^ 63 → increment (pos n) ≡ pos (n + 1)
unfolding int64_bits int64_from_bits
increment_pos n h = ground arith

module _ (D : Engine) where
  pub affected-height :
      (h : ℤ) (s : Db D) (k x : Bytes)
      → has k (keys (D.entries s.heights)) ≡ true
      → height_above h k ≡ some x
      → has x (affected_scids D h s) ≡ true
  unfolding affected_scids installed_above
  affected-height h s k x found e =
      mark_keeps install_key_scid (seek (enc_height (increment h)) (D.entries s.installs)) _ x (
        mark_keeps (snapshot_above h) (D.entries s.sc_vars) _ x
          (mark_finds (height_above h) (D.entries s.heights) [] k x found e))

  pub affected-snapshot :
      (h : ℤ) (s : Db D) (k x : Bytes)
      → has k (keys (D.entries s.sc_vars)) ≡ true
      → snapshot_above h k ≡ some x
      → has x (affected_scids D h s) ≡ true
  unfolding affected_scids installed_above
  affected-snapshot h s k x found e =
      mark_keeps install_key_scid (seek (enc_height (increment h)) (D.entries s.installs)) _ x (
        mark_finds (snapshot_above h) (D.entries s.sc_vars)
          (mark (height_above h) (D.entries s.heights) []) k x found e)

  pub affected-install :
      (h : ℤ) (s : Db D) (k x : Bytes)
      → has k (keys (seek (enc_height (increment h)) (D.entries s.installs))) ≡ true
      → install_key_scid k ≡ some x
      → has x (affected_scids D h s) ≡ true
  unfolding affected_scids installed_above
  affected-install h s k x found e = mark_finds install_key_scid _ _ k x found e

module _ (D : Engine) (L : IsLawful D) (mi : Bytes → Option InstallRecord)
    (mc : Bytes → Option ClassMeta) where
  trimmed_heights :
      (h : ℤ) (s : Db D) (k : Bytes)
      → at_key D k
          (trim_prefixes D colon (λ j. is_some (height_above h j)) (affected_scids D h s) s.heights)
        ≡ (if is_some (height_above h k) then none else at_key D k s.heights)
  trimmed_heights h s k =
      trim_prefixes_complete D L colon (λ j. is_some (height_above h j)) (affected_scids D h s) k
        s.heights
        (λ doomed found. elim (Option-cases (height_above h k)) [
          | inl e ↦ cc (ap is_some e, doomed)
          | inr (x, e) ↦
              any_prefix_found colon k x (affected_scids D h s) (affected-height D h s k x found e)
                (height_above_prefix h k x e)
        ])

  -- What a truncation leaves of every key in the five buckets, whatever it is the key of.
  pub record Kept (h : ℤ) (s t : Db D) (k : Bytes) : Type 0 where
    pub heights :
        at_key D k t.heights ≡ (if is_some (height_above h k) then none else at_key D k s.heights)
    pub sc_vars :
        at_key D k t.sc_vars ≡ (if is_some (snapshot_above h k) then none else at_key D k s.sc_vars)
    pub norm_txs :
        at_key D k t.norm_txs ≡ (if norm_tx_above h k then none else at_key D k s.norm_txs)
    pub installs :
        at_key D k t.installs
        ≡ (if not (less_bytes k (enc_height (increment h))) then none else at_key D k s.installs)
    pub block_hashes : at_key D k t.block_hashes ≡ (
        if not (less_bytes k (enc_height (increment h))) then none else at_key D k s.block_hashes)

  finished-Kept :
      (h : ℤ) (s : Db D) (a : List (Bytes × D.Bucket)) (l st : D.Bucket) (k : Bytes)
      → Kept h s (finished D mc h s a l st) k
  unfolding finished trim_snapshots delete_where
  finished-Kept h s a l st k = record {
    heights = trimmed_heights h s k;
    sc_vars = get-delete_where D L (λ j. is_some (snapshot_above h j)) k s.sc_vars;
    norm_txs = get-delete_where D L (norm_tx_above h) k s.norm_txs;
    installs = get-delete_from_seek D L (enc_height (increment h)) k s.installs;
    block_hashes = get-delete_from_seek D L (enc_height (increment h)) k s.block_hashes;
  }

  pub truncate_to_height-Kept :
      (height : ℤ) (s t : Db D) (k : Bytes)
      → truncate_to_height D mi mc height s ≡ some t
      → Kept (not_below_zero height) s t k
  truncate_to_height-Kept height s t k e =
      let p : Passes D mi mc height s t = truncate_to_height-Passes D mi mc height s t e in
      subst (λ (u : Db D). Kept (not_below_zero height) s u k) p.result
        (finished-Kept (not_below_zero height) s p.addrs p.latest p.stats k)

  -- A record of height `n` under a key that the store writes is gone if the height is above that of
  -- the truncation, and as it was before if not.
  abbrev pub Settled : ℕ → ℕ → Bytes → D.Bucket → D.Bucket → Type 0
  Settled height n k before after =
      at_key D k after ≡ (if ltb height n then none else at_key D k before)

  -- After a truncation to a height below 2^63 - 1, the interaction, snapshot, normal transaction,
  -- install and block hash of any height n under the keys that the store writes are gone if n is
  -- above the height, and hold what they held before if not; if no colon stands in the contract and
  -- the address, and the database has the assumed laws.
  pub truncate_to_height-detail :
      (height n : ℕ) (s t : Db D) (scid addr txid : Bytes)
      → height + 1 < 2 ^ 63
      → n < 2 ^ 63
      → IsPlain scid
      → IsPlain addr
      → truncate_to_height D mi mc (pos height) s ≡ some t
      → Settled height n (append_height_key [] scid (pos n)) s.heights t.heights
        × Settled height n (sc_vars_key scid (pos n)) s.sc_vars t.sc_vars
        × Settled height n (append_norm_tx_key [] addr (pos n) txid scid) s.norm_txs t.norm_txs
        × Settled height n (install_key (pos n) scid) s.installs t.installs
        × Settled height n (enc_height (pos n)) s.block_hashes t.block_hashes
  unfolding install_key
  truncate_to_height-detail height n s t scid addr txid hh hn clean_scid clean_addr e = (
    (kept (append_height_key [] scid (pos n))).heights
        ∙ rw (split_height_key-append_height_key scid (pos n) clean_scid hn) (ground arith),
    (kept (sc_vars_key scid (pos n))).sc_vars
        ∙ rw (split_sc_vars_key-sc_vars_key scid (pos n) clean_scid hn) (ground arith),
    (kept (append_norm_tx_key [] addr (pos n) txid scid)).norm_txs
        ∙ rw (norm_tx_height-append_norm_tx_key addr (pos n) txid scid clean_addr hn)
            (ground arith),
    (kept (install_key (pos n) scid)).installs
        ∙ rw (append_assoc (enc_height (pos n)) (bar ∷ []) scid) (
            rw
              (
                increment_pos height hh,
                less_enc_height n (height + 1) (bar ∷ scid) hn (omega arith),
              )
              (ground arith)),
    (kept (enc_height (pos n))).block_hashes
        ∙ rw (increment_pos height hh)
            (rw (below (append-nil (enc_height (pos n)))) (ground arith)),
  )
    where
      kept : (k : Bytes) → Kept (pos height) s t k
      kept k = truncate_to_height-Kept (pos height) s t k e

      below :
          enc_height (pos n) ++ [] ≡ enc_height (pos n)
          → less_bytes (enc_height (pos n)) (enc_height (pos (height + 1))) ≡ ltb n (height + 1)
      below nil =
          ap (λ (k : Bytes). less_bytes k (enc_height (pos (height + 1)))) (sym nil)
          ∙ less_enc_height n (height + 1) [] hn (omega arith)
