-- ===== src/Store/Direct/Latest.antt =====
-- storage/bbolt.go: what a read gives behind a write.
use hyper_gnomon.Base.{
  ℕ, ◌+◌, ◌^◌, ◌<◌, ◌≡◌, sym, ap, ◌∙◌, inl, inr, arith, List, [], Bool, true, false, not, ◌||◌,
  ◌&&◌, Option, none, some, Bool-cases, Option-cases, leb, length, if◌then◌else◌, if_yes, if_no,
}
use hyper_gnomon.Base.Int.{ℤ, pos, ltb_ℤ, IsI64}
use hyper_gnomon.Base.Texts.{Bytes, bytes_eq, bytes_eq_refl, is_empty}
use hyper_gnomon.Base.Strconv.{format_int}
use hyper_gnomon.Base.Strconv.Laws.{parse_int-format_int}
use hyper_gnomon.Codec.AddrScid.{AddrScidEntry}
use hyper_gnomon.Codec.ClassMeta.{ClassMeta}
use hyper_gnomon.Codec.SctxTurbo.{SctxParse}
use hyper_gnomon.Codec.Variables.{ScidVariable}
use hyper_gnomon.Store.Keys.{enc_height, dec_height}
use hyper_gnomon.Store.DecimalKeys.{sc_vars_key}
use hyper_gnomon.Store.Keys.Laws.{dec_height-enc_height, length-enc_height}
use hyper_gnomon.Store.Bolt.{Engine, IsLawful, at_key}
use hyper_gnomon.Store.Truncate.{last_indexed_height, Db}
use hyper_gnomon.Store.Batch.{WriteBatch}
use hyper_gnomon.Store.Flush.{owner_scid_key}
use hyper_gnomon.Base.Dict.{is_some}
use hyper_gnomon.Store.Flush.Stages.{
  add_scid_count_stat, put_latest_sc_vars_height, put_last_height,
}
use hyper_gnomon.Store.Flush.Run.{flush_batch}
use hyper_gnomon.Store.Flush.Passes.{>>=-then, from_some, flush_batch-Written}
use hyper_gnomon.Store.Direct.{
  store_last_index_height, get_last_index_height, store_owner, get_owner, store_block_hash,
  get_block_hash, store_scid_variable_details, latest_sc_vars_height_tx, or_empty,
}

abbrev pub greater : ℤ → ℤ → ℤ
greater a b = if ltb_ℤ a b then b else a

-- The height of a contract's pointer, or 0 where there is none.
abbrev pub pointed : Option Bytes → ℤ
pointed none = pos 0
pointed (some v) = if leb 8 (length v) then dec_height v else pos 0

module _ (D : Engine) (L : IsLawful D) where
  get-put_same : (k v : Bytes) (b c : D.Bucket) → D.put k v b ≡ some c → at_key D k c ≡ some v
  get-put_same k v b c e = L.get-put k v k b c e ∙ if_yes (bytes_eq k k) _ _ (bytes_eq_refl k)

  -- A height of an int64, a contract's owner and a block hash that are stored without an error are
  -- what is read then, if the database has the assumed laws.
  pub stored-read :
      (s t u w : Db D) (height : ℤ) (scid owner hash : Bytes)
      → IsI64 height
      → store_last_index_height D height s ≡ some t
      → store_owner D scid owner s ≡ some u
      → store_block_hash D height hash s ≡ some w
      → (get_last_index_height D t ≡ some height)
        × (get_owner D scid u ≡ owner)
        × (get_block_hash D height w ≡ hash)
  unfolding store_last_index_height get_last_index_height store_owner get_owner store_block_hash
      get_block_hash
  stored-read s t u w height scid owner hash int64 et eu ew = (
    >>=-then (D.put last_indexed_height (format_int height) s.stats) _ et λ b p q.
        ap (λ (v : Db D). get_last_index_height D v) (sym (from_some q))
        ∙ rw
            (
              get-put_same last_indexed_height (format_int height) s.stats b p,
              get_last_index_height,
            )
            (parse_int-format_int height int64),
    >>=-then (D.put scid owner s.owners) _ eu λ b p q.
        >>=-then
          (if is_empty owner
            then some s.owner_scids
            else D.put (owner_scid_key owner scid) [] s.owner_scids)
          _ q
          λ b' p' q'.
            >>=-then
              (if is_some (at_key D scid s.owners)
                then some s.stats
                else add_scid_count_stat D 1 b s.stats)
              _ q'
              λ b'' p'' q''.
                ap (λ (v : Db D). get_owner D scid v) (sym (from_some q''))
                ∙ ap or_empty (get-put_same scid owner s.owners b p),
    >>=-then (D.put (enc_height height) hash s.block_hashes) _ ew λ b p q.
        ap (λ (v : Db D). get_block_hash D height v) (sym (from_some q))
        ∙ ap or_empty (get-put_same (enc_height height) hash s.block_hashes b p),
  )

  abbrev known : ℤ → Option Bytes → Bool
  known h none = false
  known h (some v) = leb 8 (length v) && not (ltb_ℤ (dec_height v) h)

  long : (n : ℤ) → leb 8 (length (enc_height n)) ≡ true
  long n = ground (arith, length-enc_height n)

  abbrev Points : Bytes → D.Bucket → ℤ → Type 0
  Points scid c h =
      (v : Bytes) × (at_key D scid c ≡ some v) × (leb 8 (length v) ≡ true) × (dec_height v ≡ h)

  put_latest-greater :
      (scid : Bytes) (n : ℕ) (b c : D.Bucket)
      → is_empty scid ≡ false
      → n + 1 < 2 ^ 63
      → put_latest_sc_vars_height D b scid (pos (n + 1)) ≡ some c
      → Points scid c (greater (pointed (at_key D scid b)) (pos (n + 1)))
  unfolding put_latest_sc_vars_height
  put_latest-greater scid n b c named bound e =
      let h = pos (n + 1) in
      let guard : is_empty scid || not (ltb_ℤ (pos 0) h) ≡ false = ground (arith, named) in
      let e' = sym (if_no (is_empty scid || not (ltb_ℤ (pos 0) h)) _ _ guard) ∙ e in
      let written : D.put scid (enc_height h) b ≡ some c
          → greater (pointed (at_key D scid b)) h ≡ h
          → Points scid c (greater (pointed (at_key D scid b)) h) =
        λ p q. (
          enc_height h,
          get-put_same scid (enc_height h) b c p,
          long h,
          dec_height-enc_height h bound ∙ sym q,
        ) in
      elim (Option-cases (at_key D scid b)) [
        | inl missing ↦
            written
              (ap (λ (o : Option Bytes). if known h o then some b else D.put scid (enc_height h) b)
                  (sym missing)
                ∙ e')
              (rw missing (ground arith))
        | inr (v, found) ↦
            let e'' =
              ap (λ (o : Option Bytes). if known h o then some b else D.put scid (enc_height h) b)
                (sym found)
              ∙ e' in
            elim (Bool-cases (leb 8 (length v) && not (ltb_ℤ (dec_height v) h))) [
              | inl kept ↦
                  let q : b ≡ c = from_some (sym (if_yes _ _ _ kept) ∙ e'') in
                  (
                    v,
                    ap (at_key D scid) (sym q) ∙ found,
                    ground (arith, kept),
                    rw found (ground (arith, kept)),
                  )
              | inr lower ↦
                  written (sym (if_no _ _ _ lower) ∙ e'') (rw found (ground (arith, lower)))
            ]
      ]

  -- Behind a stored snapshot of a contract with a name, of a positive height of an int64, the
  -- latest height of the contract is the greater one of that height and the pointer that was there,
  -- if the database has the assumed laws.
  pub latest-store :
      (msgpack : List ScidVariable → Option Bytes) (scid : Bytes) (vars : List ScidVariable) (n : ℕ)
      (s t : Db D)
      → is_empty scid ≡ false
      → n + 1 < 2 ^ 63
      → store_scid_variable_details D msgpack scid vars (pos (n + 1)) s ≡ some t
      → latest_sc_vars_height_tx D t scid
        ≡ greater (pointed (at_key D scid s.sc_vars_latest)) (pos (n + 1))
  unfolding store_scid_variable_details latest_sc_vars_height_tx
  latest-store msgpack scid vars n s t named bound e = >>=-then (msgpack vars) _ e λ v p1 e1.
      >>=-then (D.put (sc_vars_key scid (pos (n + 1))) v s.sc_vars) _ e1 λ b p2 e2.
        >>=-then (put_latest_sc_vars_height D s.sc_vars_latest scid (pos (n + 1))) _ e2 λ c p3 e3.
          let (w, found, full, height) =
            put_latest-greater scid n s.sc_vars_latest c named bound p3 in
          let r = from_some e3 in
          let there : at_key D scid t.sc_vars_latest ≡ some w =
            ap (λ (u : Db D). at_key D scid u.sc_vars_latest) (sym r) ∙ found in
          if_no (is_empty scid) _ _ named ∙ rw there (if_yes (leb 8 (length w)) _ _ full) ∙ height

  -- The height that a restart continues from is that of the last flushed batch, if it is a positive
  -- int64, the flush succeeds and the database has the assumed laws.
  pub get_last-flush :
      {Arg Payload : Type 0} (msgpack_details : SctxParse Arg Payload → Option Bytes)
      (mc : Bytes → Option ClassMeta) (ma : Bytes → Option AddrScidEntry)
      (batch : WriteBatch Arg Payload) (s t : Db D)
      → IsI64 batch.last_height
      → ltb_ℤ (pos 0) batch.last_height ≡ true
      → flush_batch Arg Payload msgpack_details D mc ma batch s ≡ some t
      → get_last_index_height D t ≡ some batch.last_height
  unfolding get_last_index_height put_last_height
  get_last-flush msgpack_details mc ma batch s t int64 positive e =
      let w = flush_batch-Written D msgpack_details mc ma batch s t e in
      let p = sym (if_yes (ltb_ℤ (pos 0) batch.last_height) _ _ positive) ∙ w.last in
      rw
        (
          get-put_same last_indexed_height (format_int batch.last_height) w.stats_before t.stats p,
          get_last_index_height,
        )
        (parse_int-format_int batch.last_height int64)
