-- ===== src/Syslimit/Sysctl/Merge/Stable.antt =====
-- Texts and lines that a merge leaves as they are.
use mathlib.Core.Path.{subst}
use mathlib.Core.List.{append-nil}
use tcsss.Prelude.{
  ◌≡◌, refl, sym, ◌∙◌, true, false, some, List, [], ◌∷◌, ◌++◌, map, arith, All, All-append,
  Bool-cases, inl, inr, if◌then◌else◌,
}
use tcsss.Text.Ops.{Text, bytes, is_empty, mem, text_eq, split, join}
use tcsss.Text.Maps.{lookup, lookup-All, text_eq_iff}
use tcsss.Text.Split.{NoByte, split-join, join-end}
use tcsss.Text.Trim.{IsSolid}
use tcsss.Syslimit.Sysctl.{
  Params, line_key, update_line, line_keys, missing_lines, merge_lines, merge_text,
  ends_with_newline,
}
use tcsss.Syslimit.Sysctl.ReadBack.{IsClean, line_key-render}
use tcsss.Syslimit.Sysctl.Merge.{IsReadBack, update_line-nil, line_keys-append}
use tcsss.Syslimit.Sysctl.Merge.Settled.{map-append}

-- A list of the entries of a map, in any order, that has all of them.
abbrev pub IsOrderOf : Params → Params → Type 0
IsOrderOf m ps = ((k : Text) → lookup k ps ≡ lookup k m) × All (λ e. lookup e.0 m ≡ some e.1) ps

-- Lines that have a line for every parameter, with its value.
abbrev pub IsStable : Params → List Text → Type 0
IsStable ps ls = (map (update_line ps) ls ≡ ls) × (missing_lines (line_keys ls) ps ≡ [])

update_line_cong :
    (ps qs : Params) (ls : List Text)
    → ((k : Text) → lookup k ps ≡ lookup k qs)
    → map (update_line ps) ls ≡ map (update_line qs) ls
unfolding update_line
update_line_cong ps qs [] h = refl
update_line_cong ps qs (l ∷ ls) h =
    rw (map, update_line, h (line_key l), update_line_cong ps qs ls h) refl

missing_lines-mem :
    (keys : List Text) (ps : Params) (k v : Text)
    → missing_lines keys ps ≡ []
    → lookup k ps ≡ some v
    → mem k keys ≡ true
unfolding missing_lines lookup
missing_lines-mem keys [] k v h e = absurd (ground (arith, e))
missing_lines-mem keys ((j, w) ∷ ps) k v h e = elim (Bool-cases (mem j keys)) [
  | inr x ↦ absurd (ground (arith, rw x at h))
  | inl x ↦ elim (Bool-cases (text_eq j k)) [
    | inl y ↦ rw (sym ((text_eq_iff j k).0 y)) x
    | inr y ↦ missing_lines-mem keys ps k v (rw x at h) (rw y at e)
  ]
]

mem-missing_lines :
    (keys : List Text) (ps qs : Params)
    → missing_lines keys ps ≡ []
    → All (λ e. lookup e.0 ps ≡ some e.1) qs
    → missing_lines keys qs ≡ []
unfolding missing_lines
mem-missing_lines keys ps [] h a = refl
mem-missing_lines keys ps ((k, v) ∷ qs) h (e, a) =
    rw (missing_lines-mem keys ps k v h e) (mem-missing_lines keys ps qs h a)

IsSolid-empty : (k : Text) → IsSolid k → is_empty k ≡ false
IsSolid-empty [] h = absurd h
IsSolid-empty (c ∷ k) h = refl

All-order :
    (m ps qs : Params)
    → ((k : Text) → lookup k ps ≡ lookup k m)
    → All (λ e. lookup e.0 m ≡ some e.1) qs
    → All (λ e. lookup e.0 ps ≡ some e.1) qs
All-order m ps [] h a = tt
All-order m ps (e ∷ qs) h (x, a) = (h e.0 ∙ x, All-order m ps qs h a)

module _ (m ps : Params) (clean : All IsClean m) (order : IsOrderOf m ps) where
  entry-IsReadBack : (e : Text × Text) → lookup e.0 m ≡ some e.1 → IsReadBack ps e
  entry-IsReadBack (k, v) h =
      let c : IsClean (k, v) = lookup-All IsClean k v m clean h in
      (IsSolid-empty k c.0.0.0, line_key-render k v c.0, order.0 k ∙ h)

  entries-IsReadBack :
      (qs : Params) → All (λ e. lookup e.0 m ≡ some e.1) qs → All (IsReadBack ps) qs
  entries-IsReadBack [] a = tt
  entries-IsReadBack (e ∷ qs) (h, a) = (entry-IsReadBack e h, entries-IsReadBack qs a)

  pub order-IsReadBack : All (IsReadBack ps) ps
  order-IsReadBack = entries-IsReadBack ps order.1

  pub IsStable-order :
      (qs : Params) (ls : List Text) → IsOrderOf m qs → IsStable ps ls → IsStable qs ls
  IsStable-order qs ls o (u, n) = (
    update_line_cong qs ps ls (λ k. o.0 k ∙ sym (order.0 k)) ∙ u,
    mem-missing_lines (line_keys ls) ps qs n (All-order m ps qs order.0 o.1),
  )

IsStable-merge_lines : (ps : Params) (ls : List Text) → IsStable ps ls → merge_lines ls ps ≡ ls
IsStable-merge_lines ps ls (u, n) = unfold merge_lines in rw (u, n, append-nil)

IsStable-end : (ps : Params) (ls : List Text) → IsStable ps ls → IsStable ps (ls ++ ([] ∷ []))
unfolding line_keys line_key
IsStable-end ps ls (u, n) = (
  rw (map-append (update_line ps) ls ([] ∷ []), u, map, update_line-nil ps) refl,
  rw (line_keys-append ls ([] ∷ []), append-nil (line_keys ls)) n,
)

abbrev pub newline : Text
newline = bytes "\n"

ends-append : (s : Text) → ends_with_newline (s ++ newline) ≡ true
unfolding ends_with_newline
ends-append [] = refl
ends-append (c ∷ []) = refl
ends-append (c ∷ d ∷ s) = ends-append (d ∷ s)

ends-nonempty : (s : Text) → ends_with_newline s ≡ true → is_empty s ≡ false
unfolding ends_with_newline
ends-nonempty [] h = absurd (ground (arith, h))
ends-nonempty (c ∷ s) h = refl

merge_text-stable :
    (ps : Params) (t : Text) (ls : List Text)
    → is_empty t ≡ false
    → split b'\n' t ≡ ls
    → join newline ls ≡ t
    → IsStable ps ls
    → ends_with_newline t ≡ true
    → merge_text t ps ≡ t
unfolding merge_text
merge_text-stable ps t ls n p j s e = rw (n, p, s.0, s.1, append-nil, j, e) refl

-- The lines of a text that ends with a newline, merged.
IsStable-merge_text :
    (ps : Params) (l : Text) (ls : List Text)
    → All (NoByte b'\n') (l ∷ ls)
    → IsStable ps (l ∷ ls)
    → ends_with_newline (join newline (l ∷ ls)) ≡ true
    → merge_text (join newline (l ∷ ls)) ps ≡ join newline (l ∷ ls)
IsStable-merge_text ps l ls n s e =
    let t = join newline (l ∷ ls) in
    merge_text-stable ps t (l ∷ ls) (ends-nonempty t e) (split-join b'\n' l ls n) refl s e

pub IsStable-merge_text_end :
    (ps : Params) (l : Text) (ls : List Text)
    → All (NoByte b'\n') (l ∷ ls)
    → IsStable ps (l ∷ ls)
    → merge_text (join newline (l ∷ ls) ++ newline) ps ≡ join newline (l ∷ ls) ++ newline
IsStable-merge_text_end ps l ls n s =
    let e = join-end b'\n' l ls in
    subst (λ t. merge_text t ps ≡ t) e
      (IsStable-merge_text ps l (ls ++ ([] ∷ []))
        (All-append (NoByte b'\n') (l ∷ ls) ([] ∷ []) n (tt, tt)) (IsStable-end ps (l ∷ ls) s)
        (rw e (ends-append (join newline (l ∷ ls)))))

-- The end of `merge`.
abbrev pub written : Text → Text
written t = if ends_with_newline t then t else t ++ newline

written-ends : (t : Text) → ends_with_newline t ≡ true → written t ≡ t
written-ends t h = rw h refl

written-other : (t : Text) → ends_with_newline t ≡ false → written t ≡ t ++ newline
written-other t h = rw h refl

pub merge_text-written :
    (ps : Params) (ls : List Text)
    → is_empty ls ≡ false
    → All (NoByte b'\n') ls
    → IsStable ps ls
    → merge_text (written (join newline ls)) ps ≡ written (join newline ls)
merge_text-written ps [] e n s = absurd (ground (arith, e))
merge_text-written ps (l ∷ ls) e n s =
    elim (Bool-cases (ends_with_newline (join newline (l ∷ ls)))) [
      | inl x ↦
          subst (λ t. merge_text t ps ≡ t) (sym (written-ends (join newline (l ∷ ls)) x))
            (IsStable-merge_text ps l ls n s x)
      | inr x ↦
          subst (λ t. merge_text t ps ≡ t) (sym (written-other (join newline (l ∷ ls)) x))
            (IsStable-merge_text_end ps l ls n s)
    ]
