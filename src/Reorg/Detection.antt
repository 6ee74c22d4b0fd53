-- ===== src/Reorg/Detection.antt =====
-- When a block speaks for a reorg.
use hyper_gnomon.Base.{◌≡◌, ◌≢◌, refl, sym, ap, ◌∙◌, ◌⊎◌, inl, inr, arith}
use hyper_gnomon.Base.{List, [], ◌∷◌, true, false, Bool-cases}
use mathlib.Core.Bool.{false≢true}
use hyper_gnomon.Base.Int.{ℤ, pos, ◌<ℤ◌, leb_ℤ}
use hyper_gnomon.Base.Texts.{Bytes, bytes_eq, bytes_eq→eq, bytes_eq_refl}
use hyper_gnomon.Reorg.{
  Lookup, found, Indexer, check_reorg_at, check_reorg_for_block, on_reorg_detected, sub64, succ64,
  Lookup-cases,
}

module _ {E : Type 0} (get_block_hash : ℤ → Lookup E) where
  -- The evidence against a block: a hash is stored below it, and it is not the parent's.
  abbrev pub Contradicts : ℤ → Bytes → Type 0
  Contradicts height parent =
      (pos 0 <ℤ height)
      × ((prev : Bytes) × (get_block_hash (sub64 height (pos 1)) ≡ found prev)
          × (prev ≢ [])
          × (prev ≢ parent))

  abbrev height_below : ℤ → ℤ
  height_below height = sub64 height (pos 1)

  -- The stored hash alone decides once it is there.
  compare_hash :
      (height : ℤ) (parent prev : Bytes)
      → leb_ℤ height (pos 0) ≡ false
      → get_block_hash (height_below height) ≡ found prev
      → ((check_reorg_at get_block_hash height parent ≡ (false, height_below height))
          × (prev ≢ [])
          × (prev ≢ parent))
        ⊎ ((check_reorg_at get_block_hash height parent ≡ (true, pos 0))
            × ((prev ≡ []) ⊎ (prev ≡ parent)))
  unfolding check_reorg_at
  compare_hash height parent [] above e = inr (rw (above, e) refl, inl refl)
  compare_hash height parent (x ∷ prev) above e = elim (Bool-cases (bytes_eq (x ∷ prev) parent)) [
    | inl same ↦ inr (rw (above, e, same) refl, inr (bytes_eq→eq (x ∷ prev) parent same))
    | inr other ↦ inl (
      rw (above, e, other) refl,
      (λ p. cc),
      λ p. false≢true (sym other ∙ sym (ap (bytes_eq (x ∷ prev)) p) ∙ bytes_eq_refl (x ∷ prev)),
    )
  ]

  unopposed :
      (height : ℤ) {parent : Bytes} (prev : Bytes)
      → get_block_hash (height_below height) ≡ found prev
      → (prev ≡ []) ⊎ (prev ≡ parent)
      → ¬ ((p : Bytes) × (get_block_hash (height_below height) ≡ found p) × (p ≢ []) × (p ≢ parent))
  unopposed height prev l (inl empty) (p, e, filled, other) =
      let same : p ≡ prev = cc (l, e) in filled (same ∙ empty)
  unopposed height prev l (inr parent) (p, e, filled, other) =
      let same : p ≡ prev = cc (l, e) in other (same ∙ parent)

  -- A block is reported as a mismatch, with the height below it, exactly if its height is positive,
  -- the store has a hash for the height below, and that hash is not the block's parent. Otherwise,
  -- also where no hash is stored or the store fails, the answer is (true, 0).
  pub check_reorg_at_cases :
      (height : ℤ) (parent : Bytes)
      → ((check_reorg_at get_block_hash height parent ≡ (false, sub64 height (pos 1)))
          × Contradicts height parent)
        ⊎ ((check_reorg_at get_block_hash height parent ≡ (true, pos 0))
            × (¬ Contradicts height parent))
  check_reorg_at_cases height parent = elim (Bool-cases (leb_ℤ height (pos 0))) [
    | inl low ↦ inr (unfold check_reorg_at in rw low refl, λ c. absurd (ground (arith, low, c.0)))
    | inr above ↦ elim (Lookup-cases (get_block_hash (height_below height))) [
      | inr (e, l) ↦ inr (unfold check_reorg_at in rw (above, l) refl, λ c. cc (l, c.1.1))
      | inl (prev, l) ↦ elim (compare_hash height parent prev above l) [
        | inl (r, filled, other) ↦ inl (r, (ground (arith, above), (prev, l, filled, other)))
        | inr (r, why) ↦ inr (r, λ c. unopposed height prev l why c.1)
      ]
    ]
  ]

  -- The check of a block with at least one tip raises the counter of reorgs by one if the stored
  -- chain contradicts the first tip, and leaves the indexer as it is otherwise.
  pub check_reorg_for_block-counts :
      (idx : Indexer) (height : ℤ) (tip : Bytes) (tips : List Bytes)
      → ((check_reorg_for_block get_block_hash idx height (tip ∷ tips)
            ≡ record idx { reorg_detected = succ64 idx.reorg_detected })
          × Contradicts height tip)
        ⊎ ((check_reorg_for_block get_block_hash idx height (tip ∷ tips) ≡ idx)
            × (¬ Contradicts height tip))
  unfolding check_reorg_for_block on_reorg_detected
  check_reorg_for_block-counts idx height tip tips = elim (check_reorg_at_cases height tip) [
    | inl (r, c) ↦ inl (rw r refl, c)
    | inr (r, c) ↦ inr (rw r refl, c)
  ]
