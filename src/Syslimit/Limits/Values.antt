-- ===== src/Syslimit/Limits/Values.antt =====
-- limits.go, `loadRlimitsFromTemplates`: the values read from the templates fit on one line.
use mathlib.Core.Path.{subst}
use tcsss.Prelude.{
  ◌≡◌, refl, false, Option, none, some, List, [], ◌∷◌, arith, All, ◌==◌, Bool-cases, Option-cases,
  inl, inr,
}
use tcsss.Text.Ops.{Text, bytes, split, cut, has_prefix, trim_space}
use tcsss.Text.Split.{NoByte, cut-All, split-All}
use tcsss.Text.Trim.{trim_space-All}
use tcsss.Text.Maps.{insert-All}
use tcsss.Syslimit.Limits.{
  Rlimits, rlimit_entry, add_rlimit, parse_rlimit_lines, parse_rlimits_from_template,
  load_rlimits_from_templates,
}
use tcsss.Config.Selector.{TemplateSet}

-- The values fit on a line.
abbrev pub AreLines : Rlimits → Type 0
AreLines rlimits = All (λ e. NoByte b'\n' e.1) rlimits

rlimit_entry-NoByte :
    (line : Text)
    → NoByte b'\n' line
    → (e : Text × Text) → rlimit_entry line ≡ some e
    → NoByte b'\n' e.1
unfolding rlimit_entry
rlimit_entry-NoByte line a e h =
    elim (Bool-cases (has_prefix (bytes "rlimit.") (trim_space line))) [
      | inr x ↦ cc (rw x at h)
      | inl x ↦ elim (Option-cases (cut b'=' (trim_space line))) [
        | inl n ↦ cc (rw (x, n) at h)
        | inr (q, c) ↦
            let parts =
              cut-All (λ b. (b == b'\n') ≡ false) b'=' (trim_space line) q (trim_space-All _ line a)
                c in
            let value : trim_space q.1 ≡ e.1 = ground (arith, rw (x, c) at h) in
            subst (NoByte b'\n') value (trim_space-All _ q.1 parts.1.1)
      ]
    ]

add_rlimit-AreLines :
    (o : Option (Text × Text)) (rlimits : Rlimits)
    → ((e : Text × Text) → o ≡ some e → NoByte b'\n' e.1)
    → AreLines rlimits
    → AreLines (add_rlimit o rlimits)
add_rlimit-AreLines none rlimits h a = a
add_rlimit-AreLines (some (k, v)) rlimits h a = insert-All _ k v rlimits (h (k, v) refl) a

parse_rlimit_lines-AreLines :
    (lines : List Text) (rlimits : Rlimits)
    → All (NoByte b'\n') lines
    → AreLines rlimits
    → AreLines (parse_rlimit_lines lines rlimits)
unfolding parse_rlimit_lines
parse_rlimit_lines-AreLines [] rlimits h a = a
parse_rlimit_lines-AreLines (line ∷ lines) rlimits (x, h) a =
    parse_rlimit_lines-AreLines lines (add_rlimit (rlimit_entry line) rlimits) h
      (add_rlimit-AreLines (rlimit_entry line) rlimits (rlimit_entry-NoByte line x) a)

template-AreLines :
    (content : Text) (rlimits : Rlimits)
    → AreLines rlimits
    → AreLines (parse_rlimits_from_template content rlimits)
unfolding parse_rlimits_from_template
template-AreLines content rlimits a =
    parse_rlimit_lines-AreLines (split b'\n' content) rlimits (split-All b'\n' content) a

pub load-AreLines :
    {W : Type 0} (templates : TemplateSet W) → AreLines (load_rlimits_from_templates templates [])
unfolding load_rlimits_from_templates
load-AreLines templates =
    template-AreLines templates.specific (parse_rlimits_from_template templates.common [])
      (template-AreLines templates.common [] tt)
