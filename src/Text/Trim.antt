-- ===== src/Text/Trim.antt =====
-- `strings.TrimSpace`
use tcsss.Prelude.{
  ℕ, ◌≡◌, refl, Bool, true, false, ◌&&◌, [], ◌∷◌, ◌++◌, arith, All, Bool-cases, inl, inr,
}
use tcsss.Text.Ops.{Text, trim_left, trim_right, trim_space, is_space, is_empty}

pub is_empty-behind : (l r : Text) (b : ℕ) → is_empty (l ++ (b ∷ r)) ≡ false
is_empty-behind [] r b = refl
is_empty-behind (c ∷ l) r b = refl

and_false : (a : Bool) → (a && false) ≡ false
and_false true = refl
and_false false = refl

-- White space in front of a byte that is none is kept.
pub trim_right-behind :
    (l r : Text) (b : ℕ) → is_space b ≡ false → trim_right (l ++ (b ∷ r)) ≡ l ++ (b ∷ trim_right r)
unfolding trim_right
trim_right-behind [] r b h = rw h refl
trim_right-behind (c ∷ l) r b h =
    rw (trim_right-behind l r b h, is_empty-behind l (trim_right r) b, and_false (is_space c)) refl

trim_right_again : (s : Text) → trim_right (trim_right s) ≡ trim_right s
unfolding trim_right
trim_right_again [] = refl
trim_right_again (c ∷ s) = elim (Bool-cases (is_space c && is_empty (trim_right s))) [
  | inl x ↦ rw x refl
  | inr x ↦ rw (x, trim_right_again s, x) refl
]

pub trim_right-space :
    (s : Text) (b : ℕ) → is_space b ≡ true → trim_right (s ++ (b ∷ [])) ≡ trim_right s
unfolding trim_right
trim_right-space [] b h = rw h refl
trim_right-space (c ∷ s) b h = rw (trim_right-space s b h) refl

-- The text is not empty and does not begin with white space.
abbrev pub IsSolid : Text → Type 0
IsSolid [] = ⊥
IsSolid (c ∷ cs) = is_space c ≡ false

pub trim_left-IsSolid : (s r : Text) → IsSolid s → trim_left (s ++ r) ≡ s ++ r
unfolding trim_left
trim_left-IsSolid [] r h = absurd h
trim_left-IsSolid (c ∷ s) r h = rw h refl

trim_right-IsSolid : (s : Text) → IsSolid s → IsSolid (trim_right s)
unfolding trim_right
trim_right-IsSolid [] h = h
trim_right-IsSolid (c ∷ s) h = rw h h

trim-IsSolid :
    (s : Text) → is_empty (trim_right (trim_left s)) ≡ false → IsSolid (trim_right (trim_left s))
unfolding trim_left trim_right
trim-IsSolid [] h = absurd (ground (arith, h))
trim-IsSolid (c ∷ s) h = elim (Bool-cases (is_space c)) [
  | inl x ↦ rw x (trim-IsSolid s (rw x at h))
  | inr x ↦ rw (x, x) x
]

-- A text that is left of trimming.
abbrev pub IsTrimmed : Text → Type 0
IsTrimmed s = IsSolid s × (trim_right s ≡ s)

pub trim_space-IsTrimmed : (s : Text) → is_empty (trim_space s) ≡ false → IsTrimmed (trim_space s)
unfolding trim_space
trim_space-IsTrimmed s h = (trim-IsSolid s h, trim_right_again (trim_left s))

trim_left-All : (P : ℕ → Type 0) (s : Text) → All P s → All P (trim_left s)
unfolding trim_left
trim_left-All P [] a = a
trim_left-All P (c ∷ s) (p, a) = elim (Bool-cases (is_space c)) [
  | inl x ↦ rw x (trim_left-All P s a)
  | inr x ↦ rw x (p, a)
]

trim_right-All : (P : ℕ → Type 0) (s : Text) → All P s → All P (trim_right s)
unfolding trim_right
trim_right-All P [] a = a
trim_right-All P (c ∷ s) (p, a) = elim (Bool-cases (is_space c && is_empty (trim_right s))) [
  | inl x ↦ rw x tt
  | inr x ↦ rw x (p, trim_right-All P s a)
]

pub trim_space-All : (P : ℕ → Type 0) (s : Text) → All P s → All P (trim_space s)
unfolding trim_space
trim_space-All P s a = trim_right-All P (trim_left s) (trim_left-All P s a)
