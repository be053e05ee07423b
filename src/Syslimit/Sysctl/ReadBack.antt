-- ===== src/Syslimit/Sysctl/ReadBack.antt =====
-- `extractKey` on the line that `merge` writes for a parameter of a template.
use mathlib.Core.List.{append_assoc}
use tcsss.Prelude.{
  ◌≡◌, refl, ap, sym, Bool, true, false, not, ◌||◌, Option, none, some, List, [], ◌∷◌, ◌++◌, arith,
  All, ◌==◌, Bool-cases, Option-cases, inl, inr,
}
use tcsss.Text.Ops.{Text, bytes, is_empty, has_prefix, cut, trim_space, trim_right, split}
use tcsss.Text.Maps.{insert-All}
use tcsss.Text.Split.{NoByte, cut-piece, cut-behind, cut-All, cut-none, split-All}
use tcsss.Text.Trim.{
  IsTrimmed, is_empty-behind, trim_right-behind, trim_right-space, trim_left-IsSolid,
  trim_space-IsTrimmed, trim_space-All,
}
use tcsss.Syslimit.Sysctl.{
  Params, line_key, render, extract_key, without_comment, add_entry, is_sysctl_key, parse_line,
  parse_lines, parse_all, parse_template,
}

-- A key that is trimmed and has neither `#` nor `=`.
abbrev pub IsKey : Text → Type 0
IsKey k = IsTrimmed k × (NoByte b'#' k × NoByte b'=' k)

abbrev behind : Text → Text → Text
behind k u = k ++ (b' ' ∷ b'=' ∷ u)

behind-append : (k u : Text) → behind k u ≡ (k ++ (b' ' ∷ [])) ++ (b'=' ∷ u)
behind-append k u = sym (append_assoc k (b' ' ∷ []) (b'=' ∷ u))

trim_space-behind : (k u : Text) → IsTrimmed k → trim_space (behind k u) ≡ behind k (trim_right u)
unfolding trim_space
trim_space-behind k u (s, t) =
    rw
      (
        trim_left-IsSolid k (b' ' ∷ b'=' ∷ u) s,
        behind-append k u,
        trim_right-behind (k ++ (b' ' ∷ [])) u b'=' refl,
      )
      (sym (behind-append k (trim_right u)))

trim_space-key : (k : Text) → IsTrimmed k → trim_space (k ++ (b' ' ∷ [])) ≡ k
unfolding trim_space
trim_space-key k (s, t) = rw (trim_left-IsSolid k (b' ' ∷ []) s, trim_right-space k b' ' refl) t

NoByte-space : (k : Text) → NoByte b'=' k → NoByte b'=' (k ++ (b' ' ∷ []))
NoByte-space [] h = (refl, tt)
NoByte-space (c ∷ k) (x, h) = (x, NoByte-space k h)

is_empty-behind_key : (k u : Text) → is_empty (behind k u) ≡ false
is_empty-behind_key k u = is_empty-behind k (b'=' ∷ u) b' '

comment-behind :
    (k u : Text) → IsTrimmed k → NoByte b'#' k → has_prefix (bytes "#") (behind k u) ≡ false
unfolding has_prefix
comment-behind [] u (s, t) h = absurd s
comment-behind (c ∷ k) u (s, t) (x, h) =
    let e : (b'#' == c) ≡ false = ground (arith, x) in rw e refl

without_comment-behind :
    (k u : Text)
    → IsTrimmed k
    → NoByte b'#' k
    → (w : Text) × (without_comment (behind k u) ≡ behind k w)
unfolding without_comment cut
without_comment-behind k u s h = elim (Option-cases (cut b'#' u)) [
  | inl n ↦ (u, rw (without_comment, cut-behind b'#' k (b' ' ∷ b'=' ∷ u) h, n) refl)
  | inr (q, e) ↦ (
    trim_right q.0,
    rw (without_comment, cut-behind b'#' k (b' ' ∷ b'=' ∷ u) h, e, is_empty-behind_key k q.0)
        (trim_space-behind k q.0 s),
  )
]

extract_key-behind : (k u : Text) → IsKey k → extract_key (behind k u) ≡ k
unfolding extract_key
extract_key-behind k u (s, (c, e)) =
    let (w, f) = without_comment-behind k u s c in
    rw
      (
        extract_key,
        f,
        behind-append k w,
        cut-piece b'=' (k ++ (b' ' ∷ [])) w (NoByte-space k e),
        is_empty-behind k [] b' ',
      )
      (trim_space-key k s)

-- A key is read back from its own line, whatever its value.
pub line_key-render : (k v : Text) → IsKey k → line_key (render k v) ≡ k
unfolding line_key
line_key-render k v h =
    let u = trim_right (b' ' ∷ v) in
    rw (trim_space-behind k (b' ' ∷ v) h.0, is_empty-behind_key k u, comment-behind k u h.0 h.1.0)
      (extract_key-behind k u h)

abbrev starts_empty : Option (Text × Text) → Bool
starts_empty none = true
starts_empty (some p) = is_empty p.0

cut-first :
    (line : Text) (q : Text × Text)
    → cut b'#' line ≡ some q
    → is_empty q.0 ≡ true
    → has_prefix (bytes "#") line ≡ false
    → ⊥
unfolding cut has_prefix
cut-first [] q e x h = ground (arith, e)
cut-first (c ∷ line) q e x h = elim (Bool-cases (c == b'#')) [
  | inl y ↦ ground (arith, y, h)
  | inr y ↦ elim (Option-cases (cut b'#' line)) [
    | inl n ↦ ground (arith, rw (y, n) at e)
    | inr (p, f) ↦
        let g : some (c ∷ p.0, p.1) ≡ some q = rw (y, f) at e in
        ground (arith, ap starts_empty g, x)
  ]
]

-- A line without its comment, which does not begin with one.
without_comment-clean :
    (line : Text)
    → has_prefix (bytes "#") line ≡ false
    → NoByte b'\n' line
    → NoByte b'#' (without_comment line) × NoByte b'\n' (without_comment line)
unfolding without_comment
without_comment-clean line h n = elim (Option-cases (cut b'#' line)) [
  | inl e ↦ rw (without_comment, e) (cut-none b'#' line e, n)
  | inr (q, e) ↦
      let (c, (l, r)) = cut-All (λ c. (c == b'\n') ≡ false) b'#' line q n e in
      elim (Bool-cases (is_empty q.0)) [
        | inl x ↦ absurd (cut-first line q e x h)
        | inr x ↦
            rw (without_comment, e, x)
              (
                trim_space-All (λ c. (c == b'#') ≡ false) q.0 c,
                trim_space-All (λ c. (c == b'\n') ≡ false) q.0 l,
              )
      ]
]

-- An entry whose line can be read back.
abbrev pub IsClean : Text × Text → Type 0
IsClean e = IsKey e.0 × (NoByte b'\n' e.0 × NoByte b'\n' e.1)

add_entry-IsClean :
    (key value : Text) (m : Params)
    → NoByte b'#' key
    → NoByte b'=' key
    → NoByte b'\n' key
    → NoByte b'\n' value
    → All IsClean m
    → All IsClean (add_entry (trim_space key) (trim_space value) m)
unfolding add_entry
add_entry-IsClean key value m c e n v a =
    let k = trim_space key in
    elim (Bool-cases (is_empty k || has_prefix (bytes "rlimit.") k || not (is_sysctl_key k))) [
      | inl x ↦ rw x a
      | inr x ↦
          let clean : IsClean (k, trim_space value) = (
            (
              trim_space-IsTrimmed key (ground (arith, x)),
              (
                trim_space-All (λ b. (b == b'#') ≡ false) key c,
                trim_space-All (λ b. (b == b'=') ≡ false) key e,
              ),
            ),
            (
              trim_space-All (λ b. (b == b'\n') ≡ false) key n,
              trim_space-All (λ b. (b == b'\n') ≡ false) value v,
            ),
          ) in
          rw x (insert-All IsClean k (trim_space value) m clean a)
    ]

parse_line-IsClean :
    (raw : Text) (m : Params) → NoByte b'\n' raw → All IsClean m → All IsClean (parse_line raw m)
unfolding parse_line
parse_line-IsClean raw m n a =
    let line = trim_space raw in
    elim (Bool-cases (is_empty line || has_prefix (bytes "#") line)) [
      | inl x ↦ rw x a
      | inr x ↦
          let trimmed = trim_space-All (λ b. (b == b'\n') ≡ false) raw n in
          let clean = without_comment-clean line (ground (arith, x)) trimmed in
          elim (Option-cases (cut b'=' (without_comment line))) [
            | inl e ↦ rw (x, e) a
            | inr (q, e) ↦
                let hash =
                  cut-All (λ b. (b == b'#') ≡ false) b'=' (without_comment line) q clean.0 e in
                let newline =
                  cut-All (λ b. (b == b'\n') ≡ false) b'=' (without_comment line) q clean.1 e in
                rw (x, e) (add_entry-IsClean q.0 q.1 m hash.1.0 hash.0 newline.1.0 newline.1.1 a)
          ]
    ]

parse_lines-IsClean :
    (ls : List Text) (m : Params)
    → All (NoByte b'\n') ls
    → All IsClean m
    → All IsClean (parse_lines ls m)
unfolding parse_lines
parse_lines-IsClean [] m n a = a
parse_lines-IsClean (l ∷ ls) m (h, n) a =
    parse_lines-IsClean ls (parse_line l m) n (parse_line-IsClean l m h a)

parse_all-IsClean : (ts : List Text) (m : Params) → All IsClean m → All IsClean (parse_all ts m)
unfolding parse_all
parse_all-IsClean [] m a = a
parse_all-IsClean (t ∷ ts) m a =
    parse_all-IsClean ts (parse_lines (split b'\n' t) m)
      (parse_lines-IsClean (split b'\n' t) m (split-All b'\n' t) a)

-- The keys of the templates' parameters are trimmed, have no `#` and no `=`, and no entry has a newline.
pub parse_template-IsClean : (templates : List Text) → All IsClean (parse_template templates)
unfolding parse_template
parse_template-IsClean templates = parse_all-IsClean templates [] tt
