-- ===== src/Text/Split.antt =====
-- `strings.Split` and `strings.Join` on one byte.
use mathlib.Core.Path.{subst}
use mathlib.Core.List.{append_assoc}
use tcsss.Prelude.{
  ℕ, ◌≡◌, refl, ap, ◌∙◌, true, false, Option, none, some, List, [], ◌∷◌, ◌++◌, arith, All, ◌==◌,
  Bool-cases, Option-cases, inl, inr,
}
use tcsss.Text.Ops.{Text, split, onto_first, join, cut}

-- A text without a byte.
abbrev pub NoByte : ℕ → Text → Type 0
NoByte b s = All (λ c. (c == b) ≡ false) s

pub split-NoByte : (b : ℕ) (l : Text) → NoByte b l → split b l ≡ l ∷ []
unfolding split
split-NoByte b [] h = refl
split-NoByte b (c ∷ l) (x, h) = rw (x, split-NoByte b l h)

pub split-piece : (b : ℕ) (l r : Text) → NoByte b l → split b (l ++ (b ∷ r)) ≡ l ∷ split b r
unfolding split
split-piece b [] r h = let e : (b == b) ≡ true = ground arith in rw e refl
split-piece b (c ∷ l) r (x, h) = rw (x, split-piece b l r h) refl

pub split-join :
    (b : ℕ) (l : Text) (ls : List Text)
    → All (NoByte b) (l ∷ ls)
    → split b (join (b ∷ []) (l ∷ ls)) ≡ l ∷ ls
unfolding join
split-join b l [] (h, a) = split-NoByte b l h
split-join b l (k ∷ ls) (h, a) =
    split-piece b l (join (b ∷ []) (k ∷ ls)) h ∙ ap (λ r. l ∷ r) (split-join b k ls a)

onto_first-NoByte :
    (b c : ℕ) (ls : List Text)
    → (c == b) ≡ false
    → All (NoByte b) ls
    → All (NoByte b) (onto_first c ls)
onto_first-NoByte b c [] x a = ((x, tt), tt)
onto_first-NoByte b c (l ∷ ls) x (h, a) = ((x, h), a)

pub split-All : (b : ℕ) (s : Text) → All (NoByte b) (split b s)
unfolding split
split-All b [] = (tt, tt)
split-All b (c ∷ s) = elim (Bool-cases (c == b)) [
  | inl x ↦ rw x (tt, split-All b s)
  | inr x ↦ rw x (onto_first-NoByte b c (split b s) x (split-All b s))
]

pub join-end :
    (b : ℕ) (l : Text) (ls : List Text)
    → join (b ∷ []) (l ∷ (ls ++ ([] ∷ []))) ≡ join (b ∷ []) (l ∷ ls) ++ (b ∷ [])
unfolding join
join-end b l [] = refl
join-end b l (k ∷ ls) =
    rw (join-end b k ls, append_assoc l (b ∷ join (b ∷ []) (k ∷ ls)) (b ∷ [])) refl

-- What is in front of the first occurrence of a byte.
pub cut-piece : (b : ℕ) (l r : Text) → NoByte b l → cut b (l ++ (b ∷ r)) ≡ some (l, r)
unfolding cut
cut-piece b [] r h = let e : (b == b) ≡ true = ground arith in rw e refl
cut-piece b (c ∷ l) r (x, h) = rw (x, cut-piece b l r h) refl

-- A byte that a text does not have is found behind that text.
pub cut-behind :
    (b : ℕ) (l r : Text)
    → NoByte b l
    → cut b (l ++ r) ≡ elim (cut b r) [ none ↦ none | some (x, y) ↦ some (l ++ x, y) ]
unfolding cut
cut-behind b [] r h = elim (Option-cases (cut b r)) [ inl n ↦ rw n refl | inr (p, e) ↦ rw e refl ]
cut-behind b (c ∷ l) r (x, h) = elim (Option-cases (cut b r)) [
  | inl n ↦ rw (x, cut-behind b l r h, n) refl
  | inr (p, e) ↦ rw (x, cut-behind b l r h, e) refl
]

abbrev AreParts : (ℕ → Type 0) → ℕ → Option (Text × Text) → Type 0
AreParts P b none = Unit
AreParts P b (some (l, r)) = NoByte b l × (All P l × All P r)

cut-AreParts : (P : ℕ → Type 0) (b : ℕ) (s : Text) → All P s → AreParts P b (cut b s)
unfolding cut
cut-AreParts P b [] a = tt
cut-AreParts P b (c ∷ s) (p, a) =
    let rest = cut-AreParts P b s a in
    elim (Bool-cases (c == b)) [
      | inl x ↦ rw x (tt, (tt, a))
      | inr x ↦ elim (Option-cases (cut b s)) [
        | inl n ↦ rw (x, n) tt
        | inr (q, f) ↦
            let g : NoByte b q.0 × (All P q.0 × All P q.1) = subst (AreParts P b) f rest in
            rw (x, f) ((x, g.0), ((p, g.1.0), g.1.1))
      ]
    ]

-- What is true of all bytes of a text is true of the two parts.
pub cut-All :
    (P : ℕ → Type 0) (b : ℕ) (s : Text) (q : Text × Text)
    → All P s
    → cut b s ≡ some q
    → NoByte b q.0 × (All P q.0 × All P q.1)
cut-All P b s q a h = subst (AreParts P b) h (cut-AreParts P b s a)

pub cut-none : (b : ℕ) (s : Text) → cut b s ≡ none → NoByte b s
unfolding cut
cut-none b [] h = tt
cut-none b (c ∷ s) h = elim (Bool-cases (c == b)) [
  | inl x ↦ absurd (ground (arith, rw x at h))
  | inr x ↦ elim (Option-cases (cut b s)) [
    | inl n ↦ (x, cut-none b s n)
    | inr (q, f) ↦ absurd (ground (arith, rw (x, f) at h))
  ]
]
