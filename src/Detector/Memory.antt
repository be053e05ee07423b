-- ===== src/Detector/Memory.antt =====
-- internal/detector/memory.go: the memory tier, which is determined once.
pub mod Grows
use tcsss.Prelude.{ℕ, Option, none, some, M, if◌then◌else◌}
use tcsss.Text.Ops.{bytes}
use tcsss.Errors.{GoError}
use tcsss.Traffic.Env.{Result, ok, err}
use tcsss.System.{System, Log}
use tcsss.Double.{Double}
use tcsss.Sysinfo.{read_memory_kb}

pub data MemoryTier : Type 0 where
  memory_tier_1gb memory_tier_4gb memory_tier_8gb memory_tier_12gb : MemoryTier

-- `cachedTier` and `cachedTierErr`; `none` before the first call.
abbrev pub Cache : Type 0
Cache = Option (MemoryTier × Option GoError)

module _ {W : Type 0} (d : Double W) where
  -- `classifyMemoryTier`
  unfoldable pub classify_memory_tier : W → MemoryTier
  classify_memory_tier memory_gb =
      if d.lt memory_gb (d.ratio 3 2)
      then memory_tier_1gb
      else if d.lt memory_gb (d.of_nat 5)
      then memory_tier_4gb
      else if d.lt memory_gb (d.of_nat 10)
      then memory_tier_8gb
      else memory_tier_12gb

  abbrev in_gb : ℕ → W
  in_gb memory_kb = d.div (d.of_nat memory_kb) (d.of_nat 1048576)

  abbrev tier_of : Result ℕ → MemoryTier × Option GoError
  unfolding classify_memory_tier
  tier_of (err e) = (memory_tier_1gb, some e)
  tier_of (ok memory_kb) = (classify_memory_tier (in_gb memory_kb), none)

  -- `DetectMemoryTier`
  unfoldable pub detect_memory_tier : System → M (Log × Cache) (MemoryTier × Option GoError)
  unfolding read_memory_kb classify_memory_tier
  detect_memory_tier system (log, some cached) = (cached, (log, some cached))
  detect_memory_tier system (log, none) =
      let (memory_kb, after) = read_memory_kb system (bytes "/proc/meminfo") log in
      (tier_of memory_kb, (after, some (tier_of memory_kb)))
