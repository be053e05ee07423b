-- ===== src/Syslimit/Sysctl/Merge/Newlines.antt =====
-- No line that `merge` writes has a newline.
use tcsss.Prelude.{
  ℕ, ◌≡◌, refl, false, List, [], ◌∷◌, ◌++◌, map, All, All-append, ◌==◌, Bool-cases, Option-cases,
  inl, inr,
}
use tcsss.Text.Ops.{Text, bytes, is_empty, mem, split}
use tcsss.Text.Maps.{lookup, lookup-All}
use tcsss.Text.Split.{NoByte, split-All}
use tcsss.Syslimit.Sysctl.{
  Params, line_key, render, render_entry, update_line, line_keys, missing_lines, block, merge_lines,
}

render-NoByte : (k v : Text) → NoByte b'\n' k → NoByte b'\n' v → NoByte b'\n' (render k v)
render-NoByte k v h g =
    let P : ℕ → Type 0 = λ c. (c == b'\n') ≡ false in
    All-append P k (bytes " = " ++ v) h (All-append P (bytes " = ") v (refl, (refl, (refl, tt))) g)

-- No key and no value of a parameter has a newline.
abbrev pub NoNewline : Text × Text → Type 0
NoNewline e = NoByte b'\n' e.0 × NoByte b'\n' e.1

update_line-NoByte :
    (ps : Params) (l : Text) → All NoNewline ps → NoByte b'\n' l → NoByte b'\n' (update_line ps l)
unfolding update_line
update_line-NoByte ps l a h = elim (Bool-cases (is_empty (line_key l))) [
  | inl e ↦ rw e h
  | inr e ↦ elim (Option-cases (lookup (line_key l) ps)) [
    | inl n ↦ rw (e, n) h
    | inr (v, s) ↦
        let c : NoNewline (line_key l, v) = lookup-All NoNewline (line_key l) v ps a s in
        rw (e, s) (render-NoByte (line_key l) v c.0 c.1)
  ]
]

map-NoByte :
    (ps : Params) (ls : List Text)
    → All NoNewline ps
    → All (NoByte b'\n') ls
    → All (NoByte b'\n') (map (update_line ps) ls)
map-NoByte ps [] a h = tt
map-NoByte ps (l ∷ ls) a (x, h) = (update_line-NoByte ps l a x, map-NoByte ps ls a h)

missing_lines-NoByte :
    (keys : List Text) (ps : Params) → All NoNewline ps → All (NoByte b'\n') (missing_lines keys ps)
unfolding missing_lines
missing_lines-NoByte keys [] a = tt
missing_lines-NoByte keys ((k, v) ∷ ps) ((h, g), a) = elim (Bool-cases (mem k keys)) [
  | inl x ↦ rw x (missing_lines-NoByte keys ps a)
  | inr x ↦ rw x (render-NoByte k v h g, missing_lines-NoByte keys ps a)
]

block-NoByte : (ls : List Text) → All (NoByte b'\n') ls → All (NoByte b'\n') (block ls)
unfolding split
block-NoByte [] h = tt
block-NoByte (l ∷ ls) h = (tt, ((split-All b'\n' (bytes "# tcsss managed parameters")).0, h))

pub merge_lines-NoByte :
    (ps : Params) (ls : List Text)
    → All NoNewline ps
    → All (NoByte b'\n') ls
    → All (NoByte b'\n') (merge_lines ls ps)
unfolding merge_lines
merge_lines-NoByte ps ls a h =
    All-append (NoByte b'\n') (map (update_line ps) ls) (block (missing_lines (line_keys ls) ps))
      (map-NoByte ps ls a h)
      (block-NoByte (missing_lines (line_keys ls) ps) (missing_lines-NoByte (line_keys ls) ps a))

render_entry-NoByte : (ps : Params) → All NoNewline ps → All (NoByte b'\n') (map render_entry ps)
render_entry-NoByte [] a = tt
render_entry-NoByte ((k, v) ∷ ps) ((h, g), a) = (render-NoByte k v h g, render_entry-NoByte ps a)

-- The lines of a new file.
pub new_lines-NoByte :
    (ps : Params)
    → All NoNewline ps
    → All (NoByte b'\n') (bytes "# tcsss managed sysctl parameters" ∷ map render_entry ps)
unfolding split
new_lines-NoByte ps a =
    ((split-All b'\n' (bytes "# tcsss managed sysctl parameters")).0, render_entry-NoByte ps a)
