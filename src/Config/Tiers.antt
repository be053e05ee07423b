-- ===== src/Config/Tiers.antt =====
-- internal/config/selector.go: the memory tiers that the template directory offers, and the choice of one.
pub mod Select
pub mod Scan
use tcsss.Prelude.{
  ℕ, String, Bool, true, false, ◌&&◌, Option, none, some, List, [], ◌∷◌, ◌++◌, M, ◌>>=◌, return,
  if◌then◌else◌, leb, ◌==◌,
}
use tcsss.Text.Ops.{Text, bytes, is_empty, drop_prefix, text_eq, to_lower}
use tcsss.Errors.{GoError, plain, wrapped}
use tcsss.Traffic.Env.{Result, ok, err}
use tcsss.System.{System, DirEntry, read_dir, Log, request}
use tcsss.Double.{Double}

-- The digits that a text begins with, and the rest.
unfoldable pub span_digits : Text → Text × Text
span_digits [] = ([], [])
span_digits (c ∷ cs) =
    let (digits, rest) = span_digits cs in
    if leb b'0' c && leb c b'9' then (c ∷ digits, rest) else ([], c ∷ cs)

-- `[0-9]+\.?[0-9]*` at the beginning of a text.
unfoldable pub span_size : Text → Text × Text
unfolding span_digits
span_size s =
    let (whole, rest) = span_digits s in
    elim rest [
      | [] ↦ (whole, [])
      | c ∷ cs ↦
          (if c == b'.'
            then (let (part, end) = span_digits cs in (whole ++ (c ∷ part), end))
            else (whole, c ∷ cs))
    ]

-- `(mb|gb|tb)\.conf$`
unfoldable pub unit_of : Text → Option Text
unfolding text_eq
unit_of s =
    if text_eq s (bytes "mb.conf")
    then some (bytes "mb")
    else if text_eq s (bytes "gb.conf")
    then some (bytes "gb")
    else if text_eq s (bytes "tb.conf")
    then some (bytes "tb")
    else none

abbrev starts_with_digit : Text → Bool
starts_with_digit [] = false
starts_with_digit (c ∷ cs) = leb b'0' c && leb c b'9'

abbrev with_unit : Text → Option Text → Option (Text × Text)
with_unit size none = none
with_unit size (some unit) = some (size, unit)

-- `memoryTierPattern`: the size and the unit in a file name.
unfoldable pub match_tier : Text → Option (Text × Text)
unfolding span_size unit_of drop_prefix
match_tier name = elim (drop_prefix (bytes "limits_") name) [
  | none ↦ none
  | some s ↦
      (if starts_with_digit s then with_unit (span_size s).0 (unit_of (span_size s).1) else none)
]

pub record MemoryTierConfig (W : Type 0) : Type 0 where
  pub memory_mb : W
  pub memory_label : Text
  pub filename : Text
  pub content : Text

module _ {W : Type 0} (d : Double W) where
  -- The size in megabytes. The last case cannot occur: the pattern has the three units only.
  unfoldable pub in_megabytes : W → Text → Option W
  unfolding text_eq
  in_megabytes size unit =
      if text_eq unit (bytes "mb")
      then some size
      else if text_eq unit (bytes "gb")
      then some (d.mul size (d.of_nat 1024))
      else if text_eq unit (bytes "tb")
      then some (d.mul (d.mul size (d.of_nat 1024)) (d.of_nat 1024))
      else none

  abbrev tier_with : Text → Text → Text → Option W → List (MemoryTierConfig W)
  tier_with filename size_str unit none = []
  tier_with filename size_str unit (some memory_mb) =
      record {
        memory_mb = memory_mb;
        memory_label = size_str ++ unit;
        filename = filename;
        content = [];
      }
      ∷ []

  abbrev sized_tier : Text → Text → Text → Option W → List (MemoryTierConfig W)
  sized_tier filename size_str unit none = []
  sized_tier filename size_str unit (some size) =
      tier_with filename size_str unit (in_megabytes size unit)

  abbrev named_tier : Text → Option (Text × Text) → List (MemoryTierConfig W)
  named_tier filename none = []
  named_tier filename (some (size_str, unit)) = sized_tier filename size_str unit (d.parse size_str)

  -- The tier of a directory entry, if it has one.
  unfoldable pub entry_tier : DirEntry → List (MemoryTierConfig W)
  unfolding match_tier to_lower in_megabytes
  entry_tier entry =
      if entry.is_dir then [] else named_tier entry.name (match_tier (to_lower entry.name))

  -- The loop of `scanMemoryTierConfigs`.
  unfoldable pub entry_tiers : List DirEntry → List (MemoryTierConfig W)
  unfolding entry_tier
  entry_tiers [] = []
  entry_tiers (entry ∷ entries) = entry_tier entry ++ entry_tiers entries

  abbrev pub smaller : MemoryTierConfig W → MemoryTierConfig W → Bool
  smaller a b = d.lt a.memory_mb b.memory_mb

  abbrev pub fits : W → MemoryTierConfig W → Bool
  fits effective tier = d.le tier.memory_mb effective

  -- The loop of `selectBestMemoryTier`, which goes down from the last tier.
  unfoldable pub last_fitting : W → List (MemoryTierConfig W) → Option (MemoryTierConfig W)
  last_fitting effective [] = none
  last_fitting effective (tier ∷ tiers) =
      let later = last_fitting effective tiers in
      elim later [ some t ↦ some t | none ↦ (if fits effective tier then some tier else none) ]

  abbrev pub effective_memory : W → W
  effective_memory system_mb = d.mul system_mb (d.ratio 8 10)

  abbrev or_first : MemoryTierConfig W → Option (MemoryTierConfig W) → MemoryTierConfig W
  or_first first none = first
  or_first first (some tier) = tier

  -- `selectBestMemoryTier`
  unfoldable pub select_best_memory_tier :
      W → List (MemoryTierConfig W) → Result (MemoryTierConfig W × W)
  unfolding last_fitting
  select_best_memory_tier system_mb [] =
      err (plain (bytes "no memory tier configurations available"))
  select_best_memory_tier system_mb (first ∷ tiers) =
      if d.le system_mb (d.of_nat 0)
      then err (plain (bytes "invalid system memory"))
      else if d.lt (d.of_nat 104857600) system_mb
      then err (plain (bytes "system memory exceeds supported range"))
      else ok (
        or_first first (last_fitting (effective_memory system_mb) (first ∷ tiers)),
        effective_memory system_mb,
      )

-- `sort.Slice`, the order as a test first.
abbrev pub SortSlice : Type 0 → Type 0
SortSlice W =
    (MemoryTierConfig W → MemoryTierConfig W → Bool)
    → List (MemoryTierConfig W)
    → List (MemoryTierConfig W)

module _ {W : Type 0} (d : Double W) (sort_slice : SortSlice W) (system : System) where
  abbrev sorted_tiers : Text → List (MemoryTierConfig W) → Result (List (MemoryTierConfig W))
  sorted_tiers template_dir [] =
      err (plain (bytes "no memory tier configuration found in " ++ template_dir))
  sorted_tiers template_dir (t ∷ ts) = ok (sort_slice (smaller d) (t ∷ ts))

  abbrev tiers_in : Text → Result (List DirEntry) → Result (List (MemoryTierConfig W))
  tiers_in template_dir (err e) = err (wrapped (bytes "read template directory") e)
  tiers_in template_dir (ok entries) = sorted_tiers template_dir (entry_tiers d entries)

  -- `scanMemoryTierConfigs`
  unfoldable pub scan_memory_tier_configs : Text → M Log (Result (List (MemoryTierConfig W)))
  unfolding entry_tiers
  scan_memory_tier_configs template_dir =
      request (λ log. system.entries log template_dir) (read_dir template_dir) >>= λ entries.
      return (tiers_in template_dir entries)
