-- ===== src/Reorg/Examples.antt =====
-- The theorems on reorgs, at a store and a daemon that part at height 8.
use hyper_gnomon.Base.{ℕ, ◌-◌, ◌≡◌, refl, ◌⊎◌, ◌↔◌, arith, [], ◌∷◌, ltb, if◌then◌else◌, true, false}
use hyper_gnomon.Base.Int.{ℤ, pos, negsuc, ◌-ℤ◌}
use hyper_gnomon.Base.Texts.{bytes_eq}
use hyper_gnomon.Codec.Words.{int64_from_bits, int64_bits}
use hyper_gnomon.Reorg.{
  Lookup, found, failed, fork_at, check_reorg_at, check_reorg_for_block, find_fork_point, walk,
  examine, Indexer, sub64, succ64,
}
use hyper_gnomon.Reorg.Detection.{Contradicts, check_reorg_at_cases, check_reorg_for_block-counts}
use hyper_gnomon.Reorg.ForkPoint.{Verdict, find_fork_point-Verdict}

stored : ℤ → Lookup ℕ
stored (pos h) = if ltb h 11 then found (1 ∷ []) else found []
stored (negsuc n) = failed n

daemon : ℤ → Lookup ℕ
daemon (pos h) = if ltb h 8 then found (1 ∷ []) else found (2 ∷ [])
daemon (negsuc n) = failed n

check_reorg_at_example :
    ((check_reorg_at stored (pos 9) (2 ∷ []) ≡ (false, sub64 (pos 9) (pos 1)))
      × Contradicts stored (pos 9) (2 ∷ []))
    ⊎ ((check_reorg_at stored (pos 9) (2 ∷ []) ≡ (true, pos 0))
        × (¬ Contradicts stored (pos 9) (2 ∷ [])))
check_reorg_at_example = check_reorg_at_cases stored (pos 9) (2 ∷ [])

abbrev idle : Indexer
idle = record { reorg_detected = pos 3 }

check_reorg_for_block_example :
    ((check_reorg_for_block stored idle (pos 9) ((2 ∷ []) ∷ [])
        ≡ record idle { reorg_detected = succ64 (pos 3) })
      × Contradicts stored (pos 9) (2 ∷ []))
    ⊎ ((check_reorg_for_block stored idle (pos 9) ((2 ∷ []) ∷ []) ≡ idle)
        × (¬ Contradicts stored (pos 9) (2 ∷ [])))
check_reorg_for_block_example = check_reorg_for_block-counts stored idle (pos 9) (2 ∷ []) []

find_fork_point_example :
    (find_fork_point stored daemon (pos 10) (pos 5) ≡ fork_at (pos 7))
    ↔ Verdict stored daemon 10 (10 - 5) (fork_at (pos 7))
find_fork_point_example =
    find_fork_point-Verdict stored daemon 10 5 (omega arith) (omega arith) (omega arith)
      (fork_at (pos 7))

find_fork_point_run : find_fork_point stored daemon (pos 10) (pos 5) ≡ fork_at (pos 7)
unfolding find_fork_point stored daemon walk examine bytes_eq int64_from_bits int64_bits ◌-ℤ◌
find_fork_point_run = refl
