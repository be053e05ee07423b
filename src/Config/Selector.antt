-- ===== src/Config/Selector.antt =====
-- internal/config/selector.go: the traffic template that is asked for, and the templates that fit the
-- memory of the machine.
pub mod Loaded
use tcsss.Prelude.{
  ℕ, Bool, true, false, Option, none, some, List, [], ◌∷◌, ◌++◌, M, ◌>>=◌, return, if◌then◌else◌,
}
use tcsss.Text.Ops.{Text, bytes, is_empty, trim_space}
use tcsss.Errors.{GoError, plain}
use tcsss.Traffic.Env.{Result, ok, err}
use tcsss.System.{System, Log, ◌and_then◌, in_context}
use tcsss.Double.{Double}
use tcsss.Sysinfo.{read_memory_kb}
use tcsss.Config.Mode.{
  TrafficMode, TrafficInitConfig, default_traffic_init_config, normalize_traffic_mode,
  detect_traffic_mode_from_files, read_template_file, traffic_template_content,
}
use tcsss.Config.Window.{parse_traffic_template}
use tcsss.Config.Tiers.{
  MemoryTierConfig, select_best_memory_tier, SortSlice, scan_memory_tier_configs,
}

pub record TemplateSet (W : Type 0) : Type 0 where
  pub common : Text
  pub specific : Text
  pub memory_config : MemoryTierConfig W
  pub system_memory_gb : W
  pub effective_memory_gb : W

abbrev recognized : TrafficMode × Bool → Result TrafficMode
recognized (mode, true) = ok mode
recognized (mode, false) = err (plain (bytes "unsupported traffic mode"))

-- The configuration that goes with an error is the default one.
abbrev pub or_default_config : Result TrafficInitConfig → TrafficInitConfig × Option GoError
or_default_config (err e) = (default_traffic_init_config, some e)
or_default_config (ok cfg) = (cfg, none)

module _ {W : Type 0} (d : Double W) (system : System) (template_dir : Text) where
  unfoldable pub selected_mode : Text → M Log (Result TrafficMode)
  unfolding trim_space normalize_traffic_mode detect_traffic_mode_from_files
  selected_mode mode =
      if is_empty (trim_space mode)
      then detect_traffic_mode_from_files system template_dir
      else return (recognized (normalize_traffic_mode (trim_space mode)))

  unfoldable pub load_config : Text → M Log (Result TrafficInitConfig)
  unfolding selected_mode traffic_template_content parse_traffic_template
  load_config mode = selected_mode mode and_then λ selected.
      traffic_template_content system template_dir selected and_then λ content.
      return (parse_traffic_template d selected content)

  -- `LoadTrafficInitConfig`
  unfoldable pub load_traffic_init_config : Text → M Log (TrafficInitConfig × Option GoError)
  unfolding load_config
  load_traffic_init_config mode = load_config mode >>= λ loaded. return (or_default_config loaded)

abbrev with_content : {W : Type 0} → MemoryTierConfig W → Result Text → Result (MemoryTierConfig W)
with_content config (err e) = err e
with_content config (ok content) = ok (record config { content = content })

module _ {W : Type 0} (d : Double W) (sort_slice : SortSlice W) (system : System)
    (template_dir : Text) where
  -- `loadMemoryTierContent`
  unfoldable pub load_memory_tier_content : MemoryTierConfig W → M Log (Result (MemoryTierConfig W))
  unfolding read_template_file
  load_memory_tier_content config =
      if is_empty config.content
      then (read_template_file system template_dir config.filename >>= λ content. return (
          with_content config
            (in_context (bytes "load memory tier config " ++ config.filename) content)))
      else return (ok config)

  abbrev pub in_mb : ℕ → W
  in_mb memory_kb = d.div (d.of_nat memory_kb) (d.of_nat 1024)

  abbrev template_set : Text → W → W → MemoryTierConfig W → TemplateSet W
  template_set common_content system_mb effective_mb tier = record {
    common = common_content;
    specific = tier.content;
    memory_config = tier;
    system_memory_gb = d.div system_mb (d.of_nat 1024);
    effective_memory_gb = d.div effective_mb (d.of_nat 1024);
  }

  -- The tier is chosen; the templates are read.
  unfoldable pub load_templates : W → MemoryTierConfig W × W → M Log (Result (TemplateSet W))
  unfolding read_template_file load_memory_tier_content
  load_templates system_mb (tier, effective_mb) =
      (read_template_file system template_dir (bytes "common.conf") >>= λ content.
      return (in_context (bytes "load common template") content))
      and_then λ common_content. load_memory_tier_content tier and_then λ loaded.
          return (ok (template_set common_content system_mb effective_mb loaded))

  -- `DetectTemplateSet`
  unfoldable pub detect_template_set : M Log (Result (TemplateSet W))
  unfolding read_memory_kb scan_memory_tier_configs select_best_memory_tier load_templates
  detect_template_set =
      (read_memory_kb system (bytes "/proc/meminfo") >>= λ memory_kb.
      return (in_context (bytes "detect system memory") memory_kb))
      and_then λ memory_kb.
          scan_memory_tier_configs d sort_slice system template_dir and_then λ tiers.
          return (select_best_memory_tier d (in_mb memory_kb) tiers) and_then λ selected.
          load_templates (in_mb memory_kb) selected

module _ {W : Type 0} (d : Double W) where
  -- The empty `TemplateSet` that goes with an error.
  abbrev no_templates : TemplateSet W
  no_templates = record {
    common = [];
    specific = [];
    memory_config = record {
      memory_mb = d.of_nat 0;
      memory_label = [];
      filename = [];
      content = [];
    };
    system_memory_gb = d.of_nat 0;
    effective_memory_gb = d.of_nat 0;
  }

  abbrev pub or_no_templates : Result (TemplateSet W) → TemplateSet W
  or_no_templates (err e) = no_templates
  or_no_templates (ok templates) = templates
