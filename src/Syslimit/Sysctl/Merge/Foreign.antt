-- ===== src/Syslimit/Sysctl/Merge/Foreign.antt =====
-- The lines of sysctl.conf that are not of the program's parameters.
use tcsss.Prelude.{
  ◌≡◌, refl, ap, Bool, true, not, ◌&&◌, List, [], ◌∷◌, ◌++◌, map, arith, All, Bool-cases,
  Option-cases, inl, inr, keep, is_some,
}
use mathlib.Core.List.{append-nil}
use tcsss.Text.Ops.{Text, is_empty, mem}
use tcsss.Text.Maps.{lookup}
use tcsss.Syslimit.Sysctl.{
  Params, line_key, update_line, line_keys, missing_lines, block, merge_lines,
}
use tcsss.Syslimit.Sysctl.Merge.{IsReadBack, line_key-update_line}

-- A line with a key that is no parameter.
abbrev pub is_other : Params → Text → Bool
is_other ps line = not (is_empty (line_key line)) && not (is_some (lookup (line_key line) ps))

keep-append : (p : Text → Bool) (a b : List Text) → keep p (a ++ b) ≡ keep p a ++ keep p b
keep-append p [] b = refl
keep-append p (x ∷ a) b = elim (Bool-cases (p x)) [
  | inl e ↦ ground (arith, e, keep-append p a b)
  | inr e ↦ ground (arith, e, keep-append p a b)
]

module _ (ps : Params) (all : All (IsReadBack ps) ps) where
  is_other-update_line : (l : Text) → is_other ps (update_line ps l) ≡ is_other ps l
  is_other-update_line l = rw (line_key-update_line ps all l)

  update_line-other : (l : Text) → is_other ps l ≡ true → update_line ps l ≡ l
  unfolding update_line
  update_line-other l h = elim (Bool-cases (is_empty (line_key l))) [
    | inl e ↦ rw e
    | inr e ↦ elim (Option-cases (lookup (line_key l) ps)) [
      | inl n ↦ rw (e, n)
      | inr (v, s) ↦ absurd (ground (arith, e, ap is_some s, h))
    ]
  ]

  keep-cons :
      (l m : Text) (ls ms : List Text)
      → is_other ps m ≡ is_other ps l
      → (is_other ps l ≡ true → m ≡ l)
      → keep (is_other ps) ms ≡ keep (is_other ps) ls
      → keep (is_other ps) (m ∷ ms) ≡ keep (is_other ps) (l ∷ ls)
  keep-cons l m ls ms o s e = elim (Bool-cases (is_other ps l)) [
    | inl t ↦ rw (s t) (ground (arith, t, e))
    | inr f ↦ ground (arith, f, o, e)
  ]

  keep-map : (ls : List Text) → keep (is_other ps) (map (update_line ps) ls) ≡ keep (is_other ps) ls
  keep-map [] = refl
  keep-map (l ∷ ls) =
      keep-cons l (update_line ps l) ls (map (update_line ps) ls) (is_other-update_line l)
        (update_line-other l) (keep-map ls)

  keep-missing_lines :
      (keys : List Text) (qs : Params)
      → All (IsReadBack ps) qs
      → keep (is_other ps) (missing_lines keys qs) ≡ []
  unfolding missing_lines
  keep-missing_lines keys [] a = refl
  keep-missing_lines keys (e ∷ qs) ((n, r, l), a) = elim (Bool-cases (mem e.0 keys)) [
    | inl x ↦ rw x (keep-missing_lines keys qs a)
    | inr x ↦ rw (x, keep, r, n, l) (keep-missing_lines keys qs a)
  ]

  keep-block : (ms : List Text) → keep (is_other ps) ms ≡ [] → keep (is_other ps) (block ms) ≡ []
  unfolding line_key
  keep-block [] h = refl
  keep-block (m ∷ ms) h = h

  -- A merge keeps every line whose key is no parameter, in order, and adds none.
  pub keep-merge_lines :
      (ls : List Text) → keep (is_other ps) (merge_lines ls ps) ≡ keep (is_other ps) ls
  unfolding merge_lines
  keep-merge_lines ls =
      let ms = missing_lines (line_keys ls) ps in
      rw (
        keep-append (is_other ps) (map (update_line ps) ls) (block ms),
        keep-map ls,
        keep-block ms (keep-missing_lines (line_keys ls) ps all),
        append-nil,
      )
