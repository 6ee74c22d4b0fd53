-- ===== src/Reorg.antt =====
-- indexer/reorg.go: detecting a reorg at a block, and finding the fork point below it.
pub mod Detection
pub mod ForkPoint
mod Examples
use hyper_gnomon.Base.{
  ℕ, zero, suc, ◌+◌, ◌-◌, ◌%◌, ◌^◌, List, [], ◌∷◌, Bool, true, false, not, ◌&&◌, ◌≡◌, refl, ◌⊎◌,
  inl, inr,
}
use hyper_gnomon.Base.{ltb, if◌then◌else◌}
use hyper_gnomon.Base.Int.{ℤ, pos, negsuc, ◌-ℤ◌, ltb_ℤ, leb_ℤ}
use hyper_gnomon.Base.Texts.{Bytes, bytes_eq, is_empty}
use hyper_gnomon.Codec.Words.{int64_bits, int64_from_bits}

-- What a hash lookup gives: a hash, empty where there is none, or an error of the store or the
-- daemon.
pub data Lookup (E : Type 0) : Type 0 where
  found : Bytes → Lookup E
  failed : E → Lookup E

-- The part of the indexer that this code writes: the counter of mismatches, an int64.
pub record Indexer : Type 0 where
  pub reorg_detected : ℤ

-- int64 arithmetic wraps.
abbrev pub wrap64 : ℤ → ℤ
wrap64 z = int64_from_bits (int64_bits z)

-- Go's n + 1 and a - b on int64s.
abbrev pub succ64 : ℤ → ℤ
succ64 z = int64_from_bits ((int64_bits z + 1) % 2 ^ 64)

abbrev pub sub64 : ℤ → ℤ → ℤ
sub64 a b = wrap64 (a -ℤ b)

unfoldable pub on_reorg_detected : Indexer → Indexer
on_reorg_detected idx = record idx { reorg_detected = succ64 idx.reorg_detected }

module _ {E : Type 0} where
  -- Whether the block's parent fits the stored chain, and the stored height that speaks against it.
  unfoldable pub check_reorg_at : (ℤ → Lookup E) → ℤ → Bytes → Bool × ℤ
  check_reorg_at get_block_hash height parent_hash =
      if leb_ℤ height (pos 0) then (true, pos 0) else elim (get_block_hash (sub64 height (pos 1))) [
        | failed e ↦ (true, pos 0)
        | found prev ↦
            if is_empty prev
            then (true, pos 0)
            else if bytes_eq prev parent_hash
            then (true, pos 0)
            else (false, sub64 height (pos 1))
      ]

  -- The tips are the block's parents, of which the first is compared.
  unfoldable pub check_reorg_for_block : (ℤ → Lookup E) → Indexer → ℤ → List Bytes → Indexer
  check_reorg_for_block get_block_hash idx height [] = idx
  check_reorg_for_block get_block_hash idx height (tip ∷ tips) =
      if (check_reorg_at get_block_hash height tip).0 then idx else on_reorg_detected idx

-- What the search answers: the fork point, that it cannot tell, or a lookup's error.
pub data Fork (E : Type 0) : Type 0 where
  fork_at : ℤ → Fork E
  undetermined : Fork E
  lookup_failed : E → Fork E

-- The lowest height that is examined: `suspected - maxDepth`, but not below 0.
abbrev pub lowest : ℤ → ℤ → ℕ
lowest suspected max_depth = elim (sub64 suspected max_depth) [ pos lo ↦ lo | negsuc lo ↦ 0 ]

module _ {E : Type 0} (stored_hash daemon_hash : ℤ → Lookup E) where
  -- One round of the search at height `h`; `below` is what the rounds below it answer.
  unfoldable pub examine : ℕ → Fork E → Fork E
  examine h below = elim (stored_hash (pos h)) [
    | failed e ↦ lookup_failed e
    | found sh ↦ if is_empty sh then undetermined else elim (daemon_hash (pos h)) [
      | failed e ↦ lookup_failed e
      | found dh ↦ if not (is_empty dh) && bytes_eq sh dh then fork_at (pos h) else below
    ]
  ]

  -- `for h := suspected; h >= lo; h--`, at heights that are not negative.
  unfoldable pub walk : ℕ → ℕ → Fork E
  walk zero lo = if ltb 0 lo then undetermined else examine 0 undetermined
  walk (suc h) lo =
      let below = walk h lo in if ltb (suc h) lo then undetermined else examine (suc h) below

  unfoldable pub find_fork_point : ℤ → ℤ → Fork E
  find_fork_point (negsuc n) max_depth = undetermined
  find_fork_point (pos n) max_depth =
      let answer = walk n (lowest (pos n) max_depth) in if ltb n 1 then undetermined else answer

pub Lookup-cases :
    {E : Type 0} (l : Lookup E) → ((s : Bytes) × (l ≡ found s)) ⊎ ((e : E) × (l ≡ failed e))
Lookup-cases (found s) = inl (s, refl)
Lookup-cases (failed e) = inr (e, refl)
