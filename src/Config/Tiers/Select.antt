-- ===== src/Config/Tiers/Select.antt =====
-- The choice of a memory tier.
use mathlib.Core.Path.{subst}
use tcsss.Prelude.{
  ◌≡◌, ◌⊎◌, refl, sym, true, false, not, ◌||◌, none, some, List, [], ◌∷◌, arith, Bool-cases, inl,
  inr, Option-cases, All,
}
use tcsss.Traffic.Env.{ok}
use tcsss.Double.{Double}
use tcsss.Config.Tiers.{
  MemoryTierConfig, fits, effective_memory, last_fitting, or_first, select_best_memory_tier,
}

module _ {W : Type 0} (d : Double W) where
  -- Tiers from the smallest to the largest.
  abbrev pub IsSorted : List (MemoryTierConfig W) → Type 0
  IsSorted [] = Unit
  IsSorted (t ∷ ts) = All (λ u. d.le t.memory_mb u.memory_mb ≡ true) ts × IsSorted ts

  -- No size is NaN.
  abbrev pub AreNumbers : List (MemoryTierConfig W) → Type 0
  AreNumbers ts = All (λ t. d.le t.memory_mb t.memory_mb ≡ true) ts

  -- The tier fits, and is at least as large as each tier that fits.
  abbrev pub IsLargestFitting : W → List (MemoryTierConfig W) → MemoryTierConfig W → Type 0
  IsLargestFitting effective ts chosen =
      (fits d effective chosen ≡ true)
      × All (λ t. (not (fits d effective t) || d.le t.memory_mb chosen.memory_mb) ≡ true) ts

  -- No tier fits, and the tier is the smallest.
  abbrev pub IsSmallest : W → List (MemoryTierConfig W) → MemoryTierConfig W → Type 0
  IsSmallest effective ts chosen =
      All (λ t. (fits d effective t ≡ false) × (d.le chosen.memory_mb t.memory_mb ≡ true)) ts

  last_fitting-none :
      (effective : W) (ts : List (MemoryTierConfig W))
      → last_fitting d effective ts ≡ none
      → All (λ t. fits d effective t ≡ false) ts
  unfolding last_fitting
  last_fitting-none effective [] h = tt
  last_fitting-none effective (t ∷ ts) h = elim (Option-cases (last_fitting d effective ts)) [
    | inr (u, e) ↦ absurd (ground (arith, rw e at h))
    | inl n ↦ elim (Bool-cases (fits d effective t)) [
      | inl f ↦ absurd (ground (arith, rw (n, f) at h))
      | inr f ↦ (f, last_fitting-none effective ts n)
    ]
  ]

  All-later :
      (effective size : W) (ts : List (MemoryTierConfig W))
      → All (λ t. fits d effective t ≡ false) ts
      → All (λ t. (not (fits d effective t) || d.le t.memory_mb size) ≡ true) ts
  All-later effective size [] a = tt
  All-later effective size (t ∷ ts) (f, a) = (rw f refl, All-later effective size ts a)

  last_fitting-All :
      (P : MemoryTierConfig W → Type 0) (effective : W) (ts : List (MemoryTierConfig W))
      (chosen : MemoryTierConfig W)
      → All P ts
      → last_fitting d effective ts ≡ some chosen
      → P chosen
  unfolding last_fitting
  last_fitting-All P effective [] chosen a h = absurd (ground (arith, h))
  last_fitting-All P effective (t ∷ ts) chosen (p, a) h =
      elim (Option-cases (last_fitting d effective ts)) [
        | inr (u, e) ↦ last_fitting-All P effective ts chosen a (rw (e, ← e) at h)
        | inl n ↦ elim (Bool-cases (fits d effective t)) [
          | inr f ↦ absurd (ground (arith, rw (n, f) at h))
          | inl f ↦ let e : t ≡ chosen = ground (arith, rw (n, f) at h) in rw (← e) p
        ]
      ]

  last_fitting-some :
      (effective : W) (ts : List (MemoryTierConfig W)) (chosen : MemoryTierConfig W)
      → IsSorted ts
      → AreNumbers ts
      → last_fitting d effective ts ≡ some chosen
      → IsLargestFitting effective ts chosen
  unfolding last_fitting
  last_fitting-some effective [] chosen s r h = absurd (ground (arith, h))
  last_fitting-some effective (t ∷ ts) chosen (b, s) (r, rs) h =
      elim (Option-cases (last_fitting d effective ts)) [
        | inr (u, e) ↦
            let h1 = rw (e, ← e) at h in
            let below =
              last_fitting-All (λ u. d.le t.memory_mb u.memory_mb ≡ true) effective ts chosen b
                h1 in
            let (f, a) = last_fitting-some effective ts chosen s rs h1 in
            (f, (ground (arith, below), a))
        | inl n ↦ elim (Bool-cases (fits d effective t)) [
          | inr f ↦ absurd (ground (arith, rw (n, f) at h))
          | inl f ↦
              let e : t ≡ chosen = ground (arith, rw (n, f) at h) in
              subst (IsLargestFitting effective (t ∷ ts)) e (
                f,
                (
                  rw (f, r) refl,
                  All-later effective t.memory_mb ts (last_fitting-none effective ts n),
                ),
              )
        ]
      ]

  All-pair :
      (P Q : MemoryTierConfig W → Type 0) (ts : List (MemoryTierConfig W))
      → All P ts
      → All Q ts
      → All (λ t. P t × Q t) ts
  All-pair P Q [] a b = tt
  All-pair P Q (t ∷ ts) (p, a) (q, b) = ((p, q), All-pair P Q ts a b)

  select-ok :
      (system_mb effective : W) (t : MemoryTierConfig W) (ts : List (MemoryTierConfig W))
      (chosen : MemoryTierConfig W)
      → select_best_memory_tier d system_mb (t ∷ ts) ≡ ok (chosen, effective)
      → (effective_memory d system_mb ≡ effective)
        × (or_first d t (last_fitting d (effective_memory d system_mb) (t ∷ ts)) ≡ chosen)
  unfolding select_best_memory_tier
  select-ok system_mb effective t ts chosen h = elim (Bool-cases (d.le system_mb (d.of_nat 0))) [
    | inl x ↦ absurd (ground (arith, rw x at h))
    | inr x ↦ elim (Bool-cases (d.lt (d.of_nat 104857600) system_mb)) [
      | inl y ↦ absurd (ground (arith, rw (x, y) at h))
      | inr y ↦ ground (arith, rw (x, y) at h)
    ]
  ]

  -- Of sorted tiers that are numbers, the tier chosen is the largest that fits 80 percent of the memory,
  -- or the smallest where none fits.
  pub select-IsLargestFitting :
      (system_mb effective : W) (ts : List (MemoryTierConfig W)) (chosen : MemoryTierConfig W)
      → IsSorted ts
      → AreNumbers ts
      → select_best_memory_tier d system_mb ts ≡ ok (chosen, effective)
      → (effective ≡ effective_memory d system_mb)
        × (IsLargestFitting effective ts chosen ⊎ IsSmallest effective ts chosen)
  unfolding select_best_memory_tier
  select-IsLargestFitting system_mb effective [] chosen s r h = absurd (ground (arith, h))
  select-IsLargestFitting system_mb effective (t ∷ ts) chosen (b, s) (r, rs) h =
      let (e, c) = select-ok system_mb effective t ts chosen h in
      (
        sym e,
        subst (λ m. IsLargestFitting m (t ∷ ts) chosen ⊎ IsSmallest m (t ∷ ts) chosen) e
            (elim (Option-cases (last_fitting d (effective_memory d system_mb) (t ∷ ts))) [
              | inr (u, g) ↦
                  let k : u ≡ chosen = rw g at c in
                  inl (
                    subst (IsLargestFitting (effective_memory d system_mb) (t ∷ ts)) k (
                      last_fitting-some (effective_memory d system_mb) (t ∷ ts) u (b, s) (r, rs) g))
              | inl n ↦
                  let k : t ≡ chosen = rw n at c in
                  inr (
                    subst (IsSmallest (effective_memory d system_mb) (t ∷ ts)) k (
                      All-pair (λ u. fits d (effective_memory d system_mb) u ≡ false)
                        (λ u. d.le t.memory_mb u.memory_mb ≡ true) (t ∷ ts)
                        (last_fitting-none (effective_memory d system_mb) (t ∷ ts) n) (r, b)))
            ]),
      )
