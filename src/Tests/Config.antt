-- ===== src/Tests/Config.antt =====
-- The templates of a small machine.
use tcsss.Prelude.Int.{pos}
use tcsss.Prelude.{ℕ, ◌≡◌, ◌↔◌, ◌⊎◌, refl, false, none, List, [], ◌∷◌}
use tcsss.Text.Ops.{Text, bytes}
use tcsss.Traffic.Env.{ok}
use tcsss.Config.Mode.{TrafficMode, detect_traffic_mode_from_files}
use tcsss.Config.Mode.Names.{mode_of_files, detect-mode_of_files}
use tcsss.Config.Tiers.{
  MemoryTierConfig, smaller, effective_memory, entry_tiers, select_best_memory_tier,
  scan_memory_tier_configs,
}
use tcsss.Config.Tiers.Select.{IsLargestFitting, IsSmallest, select-IsLargestFitting}
use tcsss.Config.Window.{evaluate_expression}
use tcsss.Detector.Modules.{validate_kernel_modules}
use tcsss.Detector.Modules.Required.{
  calls_for, before_ifb, before_cake, CanBeHad, validate_kernel_modules-required,
}
use tcsss.Main.{main, validate_template_dir, resolve_template_dir}
use tcsss.Main.Accepts.{accepted_dir}
use tcsss.Config.Tiers.Scan.{size_parses}
use tcsss.Main.Prepared.{OnValue, IsPrepared, main-IsPrepared}
use tcsss.Sysinfo.{read_memory_kb}
use tcsss.Sysinfo.MemTotal.{read_memory_kb-mem_line}
use tcsss.Traffic.Env.{Result}
use tcsss.Text.Ops.{has_prefix, split, text_eq}
use tcsss.Text.Number.{print_nat}
use tcsss.Prelude.{arith, Bool, true, false}
use tcsss.Tests.Machine.{memory, thousandths, sort_slice, listing, linux}

abbrev dir : Text
dir = bytes "/etc/tcsss"

abbrev is_ok : {A : Type 0} → Result A → Bool
is_ok (ok a) = true
is_ok _ = false

quarter : evaluate_expression thousandths (bytes "25 * 1024 * 2") ≡ ok (pos 51200)
unfolding evaluate_expression
quarter = refl

resolved : (resolve_template_dir linux [] []).0 ≡ ok dir
unfolding resolve_template_dir
resolved = refl

detect-mode_of_files_example :
    (detect_traffic_mode_from_files linux dir []).0 ≡ mode_of_files listing
detect-mode_of_files_example = detect-mode_of_files linux dir [] listing refl

abbrev tier : ℕ → MemoryTierConfig ℕ
tier size = record { memory_mb = size; memory_label = []; filename = []; content = [] }

abbrev tiers : List (MemoryTierConfig ℕ)
tiers = tier 512000 ∷ tier 1024000 ∷ tier 4096000 ∷ []

select-IsLargestFitting_example :
    (1600000 ≡ effective_memory thousandths 2000000)
    × (IsLargestFitting thousandths 1600000 tiers (tier 1024000)
        ⊎ IsSmallest thousandths 1600000 tiers (tier 1024000))
unfolding select_best_memory_tier
select-IsLargestFitting_example =
    select-IsLargestFitting thousandths 2000000 1600000 tiers (tier 1024000)
      ((refl, (refl, tt)), ((refl, tt), (tt, tt))) (refl, (refl, (refl, tt))) refl

accepted_dir_example :
    ((mode : TrafficMode) × ((detect_traffic_mode_from_files linux dir []).0 ≡ ok mode))
    × ((scan_memory_tier_configs thousandths sort_slice linux dir []).0
        ≡ ok (sort_slice (smaller thousandths) (entry_tiers thousandths listing)))
unfolding validate_template_dir size_parses
accepted_dir_example =
    accepted_dir thousandths sort_slice linux dir [] [] [] listing
      (refl, (refl, (refl, (refl, tt)))) (λ l. refl) refl

validate_kernel_modules-required_example :
    ((validate_kernel_modules (λ e. []) linux []).1
      ≡ calls_for linux (bytes "sch_cake") (before_cake linux []))
    × (((validate_kernel_modules (λ e. []) linux []).0 ≡ none) ↔ (
        CanBeHad linux (bytes "ifb") (before_ifb linux [])
        × CanBeHad linux (bytes "sch_cake") (before_cake linux [])))
validate_kernel_modules-required_example = validate_kernel_modules-required (λ e. []) linux []

main-IsPrepared_example :
    OnValue IsPrepared (main thousandths (λ e. []) linux [] (bytes "agg") [] []).0
main-IsPrepared_example = main-IsPrepared thousandths (λ e. []) linux [] (bytes "agg") [] []

-- There main gets as far as that.
prepared : is_ok (main thousandths (λ e. []) linux [] (bytes "agg") [] []).0 ≡ true
unfolding main
prepared = refl

read_memory_kb-mem_line_example : (read_memory_kb linux (bytes "/proc/meminfo") []).0 ≡ ok 2048000
unfolding has_prefix split text_eq print_nat
read_memory_kb-mem_line_example =
    read_memory_kb-mem_line linux (bytes "/proc/meminfo") memory [] [] ([] ∷ []) 0 2048000 refl refl
      tt (omega arith) (omega arith)
