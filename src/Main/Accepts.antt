-- ===== src/Main/Accepts.antt =====
-- What is known of a template directory that `validateTemplateDir` accepts.
use tcsss.Prelude.{
  All, ◌≡◌, refl, ◌∙◌, Bool, true, false, ◌||◌, none, List, [], ◌∷◌, ◌++◌, arith, Bool-cases, inl,
  inr, Option-cases, any,
}
use tcsss.Text.Ops.{Text, bytes, text_eq, to_lower, path_join}
use tcsss.Text.Maps.{lookup}
use tcsss.Traffic.Env.{ok}
use tcsss.Double.{Double}
use tcsss.System.{System, DirEntry, Log, stat}
use tcsss.Config.Mode.{
  TrafficMode, detect_traffic_mode_from_files, traffic_mode_client, traffic_mode_server,
  traffic_mode_aggregate,
}
use tcsss.Config.Mode.Names.{is_named, mode_of_files, detect-mode_of_files}
use tcsss.Config.Tiers.{SortSlice, smaller, entry_tiers, scan_memory_tier_configs}
use tcsss.Config.Tiers.Scan.{is_tier_file, size_parses, scan-tiers}
use tcsss.Main.{
  is_memory_file, is_traffic_file, has_files, lacking, dir_error, file_error, validate_template_dir,
}

has_files-tier : (es : List DirEntry) → (has_files es).0 ≡ any is_tier_file es
unfolding has_files is_memory_file is_tier_file
has_files-tier [] = refl
has_files-tier (e ∷ es) = rw (has_files-tier es) refl

is_traffic_file-named :
    (e : DirEntry)
    → is_traffic_file e ≡ (
        is_named (bytes "1-client.conf") e
        || (is_named (bytes "1-server.conf") e || is_named (bytes "1-aggregate.conf") e))
unfolding is_traffic_file is_named lookup
is_traffic_file-named e = elim (Bool-cases e.is_dir) [
  | inl x ↦ rw x refl
  | inr x ↦ elim (Bool-cases (text_eq (bytes "1-client.conf") (to_lower e.name))) [
    | inl c ↦ rw (x, c) refl
    | inr c ↦ elim (Bool-cases (text_eq (bytes "1-server.conf") (to_lower e.name))) [
      | inl s ↦ rw (x, c, s) refl
      | inr s ↦ elim (Bool-cases (text_eq (bytes "1-aggregate.conf") (to_lower e.name))) [
        | inl a ↦ rw (x, c, s, a) refl
        | inr a ↦ rw (x, c, s, a) refl
      ]
    ]
  ]
]

shuffle :
    (a b c x y z : Bool)
    → ((a || (b || c)) || (x || (y || z))) ≡ ((a || x) || ((b || y) || (c || z)))
shuffle true b c x y z = refl
shuffle false true c true y z = refl
shuffle false true c false y z = refl
shuffle false false true true y z = refl
shuffle false false true false true z = refl
shuffle false false true false false z = refl
shuffle false false false x y z = refl

has_files-named :
    (es : List DirEntry)
    → (has_files es).1 ≡ (
        any (is_named (bytes "1-client.conf")) es
        || (any (is_named (bytes "1-server.conf")) es
            || any (is_named (bytes "1-aggregate.conf")) es))
unfolding has_files
has_files-named [] = refl
has_files-named (e ∷ es) =
    rw (has_files-named es, is_traffic_file-named e)
      (shuffle (is_named (bytes "1-client.conf") e) (is_named (bytes "1-server.conf") e)
        (is_named (bytes "1-aggregate.conf") e) (any (is_named (bytes "1-client.conf")) es)
        (any (is_named (bytes "1-server.conf")) es) (any (is_named (bytes "1-aggregate.conf")) es))

mode_of_files-ok :
    (es : List DirEntry)
    → (has_files es).1 ≡ true
    → (mode : TrafficMode) × (mode_of_files es ≡ ok mode)
unfolding mode_of_files
mode_of_files-ok es h = elim (Bool-cases (any (is_named (bytes "1-client.conf")) es)) [
  | inl c ↦ (traffic_mode_client, rw c refl)
  | inr c ↦ elim (Bool-cases (any (is_named (bytes "1-server.conf")) es)) [
    | inl s ↦ (traffic_mode_server, rw (c, s) refl)
    | inr s ↦ elim (Bool-cases (any (is_named (bytes "1-aggregate.conf")) es)) [
      | inl a ↦ (traffic_mode_aggregate, rw (c, s, a) refl)
      | inr a ↦ absurd (ground (arith, rw (has_files-named es, c, s, a) at h))
    ]
  ]
]

lacking-none : (dir : Text) (f : Bool × Bool) → lacking dir f ≡ none → (f.0 ≡ true) × (f.1 ≡ true)
lacking-none dir (true, true) h = (refl, refl)
lacking-none dir (true, false) h = absurd (ground (arith, h))
lacking-none dir (false, t) h = absurd (ground (arith, h))

validate-has_files :
    (system : System) (dir : Text) (log : Log) (entries : List DirEntry)
    → ((l : Log) → system.entries l dir ≡ ok entries)
    → (validate_template_dir system dir log).0 ≡ none
    → ((has_files entries).0 ≡ true) × ((has_files entries).1 ≡ true)
unfolding validate_template_dir
validate-has_files system dir log entries listed h =
    let common = path_join dir (bytes "common.conf") in
    let log1 = log ++ (stat dir ∷ []) in
    let log2 = log1 ++ (stat common ∷ []) in
    elim (Option-cases (dir_error dir (system.status log dir))) [
      | inr (e, x) ↦ absurd (ground (arith, rw x at h))
      | inl x ↦ elim (Option-cases (file_error (bytes "common.conf") (system.status log1 common))) [
        | inr (e, y) ↦ absurd (ground (arith, rw (x, y) at h))
        | inl y ↦ lacking-none dir (has_files entries) (rw (x, y, listed log2) at h)
      ]
    ]

-- For a directory that `validateTemplateDir` accepts and whose listing does not change, a traffic mode is
-- detected and the scan for memory tiers succeeds, as long as the sizes in the file names can be parsed.
pub accepted_dir :
    {W : Type 0} (d : Double W) (sort_slice : SortSlice W) (system : System) (dir : Text)
    (log log1 log2 : Log) (entries : List DirEntry)
    → All (λ e. size_parses d e ≡ true) entries
    → ((l : Log) → system.entries l dir ≡ ok entries)
    → (validate_template_dir system dir log).0 ≡ none
    → ((mode : TrafficMode) × ((detect_traffic_mode_from_files system dir log1).0 ≡ ok mode))
      × ((scan_memory_tier_configs d sort_slice system dir log2).0
          ≡ ok (sort_slice (smaller d) (entry_tiers d entries)))
accepted_dir d sort_slice system dir log log1 log2 entries ps listed h =
    let (m, t) = validate-has_files system dir log entries listed h in
    let (mode, e) = mode_of_files-ok entries t in
    (
      (mode, detect-mode_of_files system dir log1 entries (listed log1) ∙ e),
      scan-tiers d sort_slice system dir log2 entries ps (listed log2)
          (rw (has_files-tier entries) at m),
    )
