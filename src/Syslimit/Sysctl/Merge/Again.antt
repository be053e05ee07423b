-- ===== src/Syslimit/Sysctl/Merge/Again.antt =====
-- A second `merge` of the templates' parameters into the text of sysctl.conf.
use tcsss.Prelude.{
  ◌≡◌, refl, true, false, ℕ, some, List, [], ◌∷◌, ◌++◌, map, arith, All, ◌==◌, Bool-cases, inl, inr,
}
use tcsss.Text.Ops.{Text, bytes, is_empty, mem, text_eq, split, onto_first, join}
use tcsss.Text.Maps.{lookup, lookup-All, text_eq_iff, text_eq_refl}
use tcsss.Text.Split.{split-All}
use tcsss.Syslimit.Sysctl.{
  Params, line_key, render_entry, update_line, line_keys, missing_lines, merge_lines, merge_text,
  parse_template,
}
use tcsss.Syslimit.Sysctl.ReadBack.{IsClean, parse_template-IsClean}
use tcsss.Syslimit.Sysctl.Merge.{
  IsReadBack, update_line-render, update_line-header, line_keys-render, mem-cons,
}
use tcsss.Syslimit.Sysctl.Merge.Newlines.{NoNewline, merge_lines-NoByte, new_lines-NoByte}
use tcsss.Syslimit.Sysctl.Merge.Settled.{merge_lines-settled}
use tcsss.Syslimit.Sysctl.Merge.Stable.{
  IsOrderOf, IsStable, order-IsReadBack, IsStable-order, newline, merge_text-written, written,
  IsStable-merge_text_end,
}

onto_first-nonempty : (c : ℕ) (ls : List Text) → is_empty (onto_first c ls) ≡ false
onto_first-nonempty c [] = refl
onto_first-nonempty c (l ∷ ls) = refl

split-nonempty : (b : ℕ) (s : Text) → is_empty (split b s) ≡ false
unfolding split
split-nonempty b [] = refl
split-nonempty b (c ∷ s) = elim (Bool-cases (c == b)) [
  | inl x ↦ rw x refl
  | inr x ↦ rw x (onto_first-nonempty c (split b s))
]

merge_lines-nonempty :
    (ps : Params) (ls : List Text) → is_empty ls ≡ false → is_empty (merge_lines ls ps) ≡ false
unfolding merge_lines
merge_lines-nonempty ps [] h = absurd (ground (arith, h))
merge_lines-nonempty ps (l ∷ ls) h = refl

render_entries-stable :
    (ps qs : Params)
    → All (IsReadBack ps) ps
    → All (IsReadBack ps) qs
    → map (update_line ps) (map render_entry qs) ≡ map render_entry qs
render_entries-stable ps [] h a = refl
render_entries-stable ps (e ∷ qs) h (b, a) =
    rw (map, map, update_line-render ps h e b, render_entries-stable ps qs h a) refl

mem-line_keys :
    (ps qs : Params) (k v : Text)
    → All (IsReadBack ps) qs
    → lookup k qs ≡ some v
    → mem k (line_keys (map render_entry qs)) ≡ true
unfolding lookup
mem-line_keys ps [] k v a h = absurd (ground (arith, h))
mem-line_keys ps (e ∷ qs) k v (b, a) h =
    let rest = map render_entry qs in
    rw (line_keys-render ps e rest b, mem-cons k e.0 (line_keys rest))
      (elim (Bool-cases (text_eq e.0 k)) [
        | inl x ↦ ground (arith, text_eq_iff e.0 k, text_eq_refl k, x)
        | inr x ↦ ground (arith, mem-line_keys ps qs k v a (rw x at h))
      ])

-- The lines of a new file.
abbrev new_lines : Params → List Text
new_lines ps = bytes "# tcsss managed sysctl parameters" ∷ map render_entry ps

missing_lines-keys :
    (ps qs : Params) (keys : List Text)
    → ((k v : Text) → lookup k ps ≡ some v → mem k keys ≡ true)
    → All (IsReadBack ps) qs
    → missing_lines keys qs ≡ []
unfolding missing_lines
missing_lines-keys ps [] keys f a = refl
missing_lines-keys ps (e ∷ qs) keys f ((n, r, l), a) =
    rw (f e.0 e.1 l) (missing_lines-keys ps qs keys f a)

new_lines-IsStable : (ps : Params) → All (IsReadBack ps) ps → IsStable ps (new_lines ps)
unfolding line_keys line_key
new_lines-IsStable ps a = (
  rw (map, update_line-header ps, render_entries-stable ps ps a a) refl,
  missing_lines-keys ps ps (line_keys (map render_entry ps)) (λ k v. mem-line_keys ps ps k v a) a,
)

NoNewline-order :
    (m ps : Params) → All IsClean m → All (λ e. lookup e.0 m ≡ some e.1) ps → All NoNewline ps
NoNewline-order m [] c a = tt
NoNewline-order m ((k, v) ∷ ps) c (h, a) =
    let e : IsClean (k, v) = lookup-All IsClean k v m c h in (e.1, NoNewline-order m ps c a)

merge_text-new :
    (existing : Text) (ps : Params)
    → is_empty existing ≡ true
    → merge_text existing ps ≡ join newline (new_lines ps) ++ newline
unfolding merge_text
merge_text-new existing ps h = rw h refl

merge_text-old :
    (existing : Text) (ps : Params)
    → is_empty existing ≡ false
    → merge_text existing ps ≡ written (join newline (merge_lines (split b'\n' existing) ps))
unfolding merge_text
merge_text-old existing ps h = rw h refl

-- The parameters of the templates merged into sysctl.conf, a second merge of them changes nothing,
-- whatever the file was and in whatever orders the two merges visit the parameters.
pub merge_text_again :
    (templates : List Text) (existing : Text) (ps qs : Params)
    → IsOrderOf (parse_template templates) ps
    → IsOrderOf (parse_template templates) qs
    → merge_text (merge_text existing ps) qs ≡ merge_text existing ps
merge_text_again templates existing ps qs o p =
    let m = parse_template templates in
    let clean = parse_template-IsClean templates in
    let all = order-IsReadBack m ps clean o in
    let plain = NoNewline-order m ps clean o.1 in
    elim (Bool-cases (is_empty existing)) [
      | inl x ↦ rw (merge_text-new existing ps x) (
          IsStable-merge_text_end qs (bytes "# tcsss managed sysctl parameters")
            (map render_entry ps) (new_lines-NoByte ps plain)
            (IsStable-order m ps clean o qs (new_lines ps) p (new_lines-IsStable ps all)))
      | inr x ↦
          let ls = split b'\n' existing in
          rw (merge_text-old existing ps x) (
            merge_text-written qs (merge_lines ls ps)
              (merge_lines-nonempty ps ls (split-nonempty b'\n' existing))
              (merge_lines-NoByte ps ls plain (split-All b'\n' existing))
              (IsStable-order m ps clean o qs (merge_lines ls ps) p
                (merge_lines-settled ps all ls)))
    ]
