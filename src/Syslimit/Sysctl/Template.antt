-- ===== src/Syslimit/Sysctl/Template.antt =====
-- What `parseTemplate` lets into the parameters.
use tcsss.Prelude.{
  ◌≡◌, true, not, ◌||◌, List, [], ◌∷◌, arith, All, Bool-cases, inl, inr, Option-cases,
}
use tcsss.Text.Ops.{Text, bytes, is_empty, has_prefix, cut, trim_space, split}
use tcsss.Text.Maps.{insert-All}
use tcsss.Syslimit.Sysctl.{
  Params, is_sysctl_key, add_entry, parse_line, parse_lines, parse_all, parse_template,
  without_comment,
}

-- An entry whose key is a kernel parameter.
abbrev pub IsEntry : Text × Text → Type 0
IsEntry e = is_sysctl_key e.0 ≡ true

add_entry-IsEntry : (k v : Text) (m : Params) → All IsEntry m → All IsEntry (add_entry k v m)
unfolding add_entry
add_entry-IsEntry k v m a = elim (Bool-cases (is_sysctl_key k)) [
  | inl s ↦
      elim (Bool-cases (is_empty k || has_prefix (bytes "rlimit.") k || not (is_sysctl_key k))) [
        | inl x ↦ rw x a
        | inr x ↦ rw x (insert-All IsEntry k v m s a)
      ]
  | inr s ↦
      elim (Bool-cases (is_empty k || has_prefix (bytes "rlimit.") k || not (is_sysctl_key k))) [
        | inl x ↦ rw x a
        | inr x ↦ absurd (ground (arith, s, x))
      ]
]

parse_line-IsEntry : (line : Text) (m : Params) → All IsEntry m → All IsEntry (parse_line line m)
unfolding parse_line
parse_line-IsEntry raw m a =
    let line = trim_space raw in
    elim (Bool-cases (is_empty line || has_prefix (bytes "#") line)) [
      | inl x ↦ rw x a
      | inr x ↦ elim (Option-cases (cut b'=' (without_comment line))) [
        | inl c ↦ rw (x, c) a
        | inr (kv, c) ↦ rw (x, c) (add_entry-IsEntry (trim_space kv.0) (trim_space kv.1) m a)
      ]
    ]

parse_lines-IsEntry : (ls : List Text) (m : Params) → All IsEntry m → All IsEntry (parse_lines ls m)
unfolding parse_lines
parse_lines-IsEntry [] m a = a
parse_lines-IsEntry (l ∷ ls) m a =
    parse_lines-IsEntry ls (parse_line l m) (parse_line-IsEntry l m a)

parse_all-IsEntry : (ts : List Text) (m : Params) → All IsEntry m → All IsEntry (parse_all ts m)
unfolding parse_all
parse_all-IsEntry [] m a = a
parse_all-IsEntry (t ∷ ts) m a =
    parse_all-IsEntry ts (parse_lines (split b'\n' t) m) (parse_lines-IsEntry (split b'\n' t) m a)

-- Every parameter that the templates give is a kernel parameter: its key has a dot, no blank and no
-- tab, and does not begin with `rlimit.`.
parse_template-IsEntry : (templates : List Text) → All IsEntry (parse_template templates)
unfolding parse_template
parse_template-IsEntry templates = parse_all-IsEntry templates [] tt
