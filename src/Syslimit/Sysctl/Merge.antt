-- ===== src/Syslimit/Sysctl/Merge.antt =====
-- Bringing parameters into the lines of sysctl.conf: the lemmas on keys and on single lines.
pub mod Settled
pub mod Newlines
pub mod Stable
pub mod Again
pub mod Foreign
use mathlib.Core.List.{append-nil}
use tcsss.Prelude.{
  ◌≡◌, refl, ◌∙◌, sym, ap, Bool, true, false, not, ◌||◌, Option, none, some, List, [], ◌∷◌, ◌++◌,
  map, arith, All, Bool-cases, Option-cases, inl, inr, if◌then◌else◌,
}
use tcsss.Text.Ops.{Text, bytes, is_empty, mem, text_eq}
use tcsss.Text.Maps.{lookup, mem-append, text_eq_iff, text_eq_refl}
use tcsss.Syslimit.Sysctl.{
  Params, line_key, render, updated_with, update_line, line_keys, missing_lines, block, merge_lines,
}

-- An entry that `extractKey` reads back from its own line, and that its key finds in the map.
abbrev pub IsReadBack : Params → Text × Text → Type 0
IsReadBack ps e =
    (is_empty e.0 ≡ false) × (line_key (render e.0 e.1) ≡ e.0) × (lookup e.0 ps ≡ some e.1)

lookup-IsReadBack :
    (qs ps : Params) (k v : Text)
    → All (IsReadBack ps) qs
    → lookup k qs ≡ some v
    → line_key (render k v) ≡ k
unfolding lookup
lookup-IsReadBack [] ps k v a h = absurd (ground (arith, h))
lookup-IsReadBack ((j, w) ∷ qs) ps k v ((n, r, l), a) h = elim (Bool-cases (text_eq j k)) [
  | inl x ↦ let e = (text_eq_iff j k).0 x in ground (arith, e, r, rw x at h)
  | inr x ↦ lookup-IsReadBack qs ps k v a (rw x at h)
]

update_line-nil : (ps : Params) → update_line ps [] ≡ []
unfolding update_line line_key
update_line-nil ps = refl

update_line-comment :
    (ps : Params)
    → update_line ps (bytes "# tcsss managed parameters") ≡ bytes "# tcsss managed parameters"
unfolding update_line line_key
update_line-comment ps = refl

update_line-header :
    (ps : Params)
    → update_line ps (bytes "# tcsss managed sysctl parameters")
      ≡ bytes "# tcsss managed sysctl parameters"
unfolding update_line line_key
update_line-header ps = refl

module _ (ps : Params) (all : All (IsReadBack ps) ps) where
  -- A line keeps its key.
  line_key-update_line : (l : Text) → line_key (update_line ps l) ≡ line_key l
  unfolding update_line
  line_key-update_line l = elim (Bool-cases (is_empty (line_key l))) [
    | inl e ↦ rw e
    | inr e ↦ elim (Option-cases (lookup (line_key l) ps)) [
      | inl n ↦ rw (e, n)
      | inr (v, s) ↦ rw (e, s) (lookup-IsReadBack ps ps (line_key l) v all s)
    ]
  ]

  update_line_again : (l : Text) → update_line ps (update_line ps l) ≡ update_line ps l
  unfolding update_line
  update_line_again l = elim (Bool-cases (is_empty (line_key l))) [
    | inl e ↦ rw (e, e)
    | inr e ↦ elim (Option-cases (lookup (line_key l) ps)) [
      | inl n ↦ rw (e, n, e, n)
      | inr (v, s) ↦ rw (e, s, lookup-IsReadBack ps ps (line_key l) v all s, e, s)
    ]
  ]

  update_line-render :
      (e : Text × Text) → IsReadBack ps e → update_line ps (render e.0 e.1) ≡ render e.0 e.1
  unfolding update_line
  update_line-render e (n, r, l) = rw (r, n, l)

  map-missing_lines :
      (keys : List Text) (qs : Params)
      → All (IsReadBack ps) qs
      → map (update_line ps) (missing_lines keys qs) ≡ missing_lines keys qs
  unfolding missing_lines
  map-missing_lines keys [] a = refl
  map-missing_lines keys (e ∷ qs) (b, a) = elim (Bool-cases (mem e.0 keys)) [
    | inl x ↦ rw x (map-missing_lines keys qs a)
    | inr x ↦ rw (x, map, update_line-render e b, map-missing_lines keys qs a)
  ]

  map-block :
      (ms : List Text) → map (update_line ps) ms ≡ ms → map (update_line ps) (block ms) ≡ block ms
  map-block [] h = refl
  map-block (m ∷ ms) h = rw (map, update_line-nil ps, map, update_line-comment ps, h)

line_keys-append : (a b : List Text) → line_keys (a ++ b) ≡ line_keys a ++ line_keys b
unfolding line_keys
line_keys-append [] b = refl
line_keys-append (l ∷ a) b = elim (Bool-cases (is_empty (line_key l))) [
  | inl e ↦ rw (e, line_keys-append a b)
  | inr e ↦ rw (e, line_keys-append a b)
]

line_keys-block : (ms : List Text) → line_keys (block ms) ≡ line_keys ms
unfolding line_keys line_key
line_keys-block [] = refl
line_keys-block (m ∷ ms) = refl

mem-cons : (k j : Text) (ks : List Text) → mem k (j ∷ ks) ≡ (text_eq k j || mem k ks)
unfolding mem
mem-cons k j ks = refl

line_keys-render :
    (ps : Params) (e : Text × Text) (ls : List Text)
    → IsReadBack ps e
    → line_keys (render e.0 e.1 ∷ ls) ≡ e.0 ∷ line_keys ls
unfolding line_keys
line_keys-render ps e ls (n, r, l) = rw (r, n)

-- Nothing is missing among keys that contain the given ones and those of the lines added.
missing_lines-nil :
    (ps : Params) (keys more : List Text) (qs : Params)
    → All (IsReadBack ps) qs
    → ((n : Text) → mem n keys ≡ true → mem n more ≡ true)
    → ((n : Text) → mem n (line_keys (missing_lines keys qs)) ≡ true → mem n more ≡ true)
    → missing_lines more qs ≡ []
unfolding missing_lines
missing_lines-nil ps keys more [] a f g = refl
missing_lines-nil ps keys more (e ∷ qs) (b, a) f g = elim (Bool-cases (mem e.0 keys)) [
  | inl x ↦ rw (f e.0 x) (missing_lines-nil ps keys more qs a f (rw x at g))
  | inr x ↦
      let rest = missing_lines keys qs in
      let h = rw (x, line_keys-render ps e rest b) at g in
      rw (h e.0 (rw (mem-cons e.0 e.0 (line_keys rest), text_eq_refl e.0) refl)) (
        missing_lines-nil ps keys more qs a f
          (λ n m. h n (ground (arith, mem-cons n e.0 (line_keys rest), m))))
]
