-- ===== src/Detector/Memory/Grows.antt =====
-- internal/detector/memory.go: more memory never gives a smaller tier, and the tier is determined once.
use tcsss.Prelude.{◌≡◌, refl, ℕ, ◌≤◌, true, none, some, arith}
use tcsss.System.{System, Log}
use tcsss.Double.{Double}
use tcsss.Detector.Memory.{
  MemoryTier, memory_tier_1gb, memory_tier_4gb, memory_tier_8gb, memory_tier_12gb, Cache,
  classify_memory_tier, detect_memory_tier,
}

-- The memory that a tier is named for, in gigabytes.
abbrev gigabytes : MemoryTier → ℕ
gigabytes memory_tier_1gb = 1
gigabytes memory_tier_4gb = 4
gigabytes memory_tier_8gb = 8
gigabytes memory_tier_12gb = 12

module _ {W : Type 0} (d : Double W) where
  -- Where every number over `more` is over `less`, the tier of `less` is at most that of `more`.
  classify_memory_tier-≤ :
      (less more : W)
      → ((c : W) → d.lt more c ≡ true → d.lt less c ≡ true)
      → gigabytes (classify_memory_tier d less) ≤ gigabytes (classify_memory_tier d more)
  unfolding classify_memory_tier
  classify_memory_tier-≤ less more h =
      ground (arith, h (d.ratio 3 2), h (d.of_nat 5), h (d.of_nat 10))

  -- After a call, every later call gives the same answer, its error included, and asks nothing,
  -- whatever the machine has become.
  detect_memory_tier_again :
      (system later : System) (log log' : Log) (cache : Cache)
      → let (answer, (after, kept)) = detect_memory_tier d system (log, cache) in
        detect_memory_tier d later (log', kept) ≡ (answer, (log', kept))
  unfolding detect_memory_tier
  detect_memory_tier_again system later log log' none = refl
  detect_memory_tier_again system later log log' (some cached) = refl
