-- ===== src/Syslimit/Rlimit/Parse.antt =====
-- The limits that a template gives.
use tcsss.Prelude.{
  ℕ, ◌≡◌, refl, ◌^◌, ◌<◌, true, not, ◌&&◌, Option, none, some, List, [], ◌∷◌, arith, All,
  Bool-cases, Option-cases, inl, inr, ◌==◌,
}
use tcsss.Text.Ops.{Text, bytes, text_eq, trim_space, mem, split}
use tcsss.Text.Number.{parse_uint, parse_digits}
use tcsss.Syslimit.Limits.{rlimit_entry}
use tcsss.Syslimit.Rlimit.{
  in_unit, unlimited, parse_rlimit_value, limit_line, limit_lines, parse_rlimit_config, LimitConfig,
  resource_names, known_limit, add_limit,
}

-- A limit that the process can get.
abbrev pub IsLimit : LimitConfig → Type 0
IsLimit l = (mem l.resource resource_names ≡ true) × (l.soft ≡ l.hard) × (l.soft < 2 ^ 64)

in_unit-bound : (key : Text) (v : ℕ) → v < 2 ^ 64 → in_unit key v < 2 ^ 64
unfolding in_unit
in_unit-bound key v h = elim (Bool-cases (text_eq key (bytes "stack") && not (v == unlimited))) [
  | inl x ↦ rw x (omega arith)
  | inr x ↦ rw x h
]

parse_uint-bound : (s : Text) (v : ℕ) → parse_uint s ≡ some v → v < 2 ^ 64
unfolding parse_uint
parse_uint-bound s v h = elim (Option-cases (parse_digits s)) [
  | inl n ↦ ground (arith, rw n at h)
  | inr (w, e) ↦ ground (arith, rw e at h)
]

parse_rlimit_value-bound : (s : Text) (v : ℕ) → parse_rlimit_value s ≡ some v → v < 2 ^ 64
unfolding parse_rlimit_value
parse_rlimit_value-bound s v h = elim (Bool-cases (text_eq (trim_space s) (bytes "unlimited"))) [
  | inl x ↦ ground (arith, rw x at h)
  | inr x ↦ parse_uint-bound (trim_space s) v (rw x at h)
]

known_limit-IsLimit :
    (o : Option (Text × Text)) (ls : List LimitConfig)
    → All IsLimit ls
    → All IsLimit (add_limit (known_limit o) ls)
unfolding known_limit
known_limit-IsLimit none ls a = a
known_limit-IsLimit (some (key, value)) ls a = elim (Bool-cases (mem key resource_names)) [
  | inr x ↦ rw x a
  | inl x ↦ elim (Option-cases (parse_rlimit_value value)) [
    | inl n ↦ rw (x, n) a
    | inr (v, e) ↦
        rw (x, e) ((x, refl, in_unit-bound key v (parse_rlimit_value-bound value v e)), a)
  ]
]

limit_lines-IsLimit : (lines : List Text) → All IsLimit (limit_lines lines)
unfolding limit_lines limit_line
limit_lines-IsLimit [] = tt
limit_lines-IsLimit (line ∷ lines) =
    known_limit-IsLimit (rlimit_entry line) (limit_lines lines) (limit_lines-IsLimit lines)

-- Whatever the text of a template: every limit read from it is one of the known resources, has equal soft
-- and hard values, and fits 64 bits.
pub parse_rlimit_config-IsLimit : (content : Text) → All IsLimit (parse_rlimit_config content)
unfolding parse_rlimit_config
parse_rlimit_config-IsLimit content = limit_lines-IsLimit (split b'\n' content)
