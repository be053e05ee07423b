-- ===== src/Text/Maps.antt =====
-- Equality of texts, and association lists with text keys for Go maps: what a map holds is what
-- `lookup` finds.
use mathlib.Core.Path.{subst}
use tcsss.Prelude.{
  ◌≡◌, refl, ◌↔◌, Bool, true, ◌||◌, Option, none, some, List, [], ◌∷◌, arith, if◌then◌else◌, ◌++◌,
  Bool-cases, inl, inr, All,
}
use tcsss.Text.Ops.{Text, text_eq, mem, has_prefix}

pub text_eq_iff : (s t : Text) → (text_eq s t ≡ true) ↔ (s ≡ t)
unfolding text_eq
text_eq_iff (x ∷ s) (y ∷ t) = ground (arith, text_eq_iff s t)
text_eq_iff _ _ = ground arith

pub text_eq_refl : (s : Text) → text_eq s s ≡ true
text_eq_refl s = (text_eq_iff s s).1 refl

module _ {V : Type 0} where
  unfoldable pub lookup : Text → List (Text × V) → Option V
  lookup k [] = none
  lookup k ((j, v) ∷ m) = if text_eq j k then some v else lookup k m

  -- `m[k] = v`
  unfoldable pub insert : Text → V → List (Text × V) → List (Text × V)
  insert k v [] = (k, v) ∷ []
  insert k v ((j, w) ∷ m) = if text_eq j k then (k, v) ∷ m else (j, w) ∷ insert k v m

  -- The entries whose key passes a test.
  unfoldable pub keep_keys : (Text → Bool) → List (Text × V) → List (Text × V)
  keep_keys p [] = []
  keep_keys p ((j, v) ∷ m) = let rest = keep_keys p m in if p j then (j, v) ∷ rest else rest

module _ {V : Type 0} where
  pub lookup-insert :
      (k j : Text) (v : V) (m : List (Text × V))
      → lookup j (insert k v m) ≡ (if text_eq k j then some v else lookup j m)
  unfolding lookup insert
  lookup-insert k j v [] = refl
  lookup-insert k j v ((i, w) ∷ m) =
      ground (arith, text_eq_iff k j, text_eq_iff i k, text_eq_iff i j, lookup-insert k j v m)

  pub lookup-insert_self :
      (k : Text) (v : V) (m : List (Text × V)) → lookup k (insert k v m) ≡ some v
  lookup-insert_self k v m = rw (lookup-insert, text_eq_refl)

  pub lookup-keep_keys :
      (p : Text → Bool) (k : Text) (m : List (Text × V))
      → lookup k (keep_keys p m) ≡ (if p k then lookup k m else none)
  unfolding lookup keep_keys
  lookup-keep_keys p k [] = ground arith
  lookup-keep_keys p k ((j, v) ∷ m) = elim (Bool-cases (text_eq j k)) [
    | inl e ↦ ground (arith, text_eq_iff j k, lookup-keep_keys p k m)
    | inr e ↦ ground (arith, text_eq_iff j k, lookup-keep_keys p k m)
  ]

-- What is true of all entries is true of those that are put in and of those that are found.
module _ {V : Type 0} (P : Text × V → Type 0) where
  pub insert-All :
      (k : Text) (v : V) (m : List (Text × V)) → P (k, v) → All P m → All P (insert k v m)
  unfolding insert
  insert-All k v [] p a = (p, tt)
  insert-All k v ((j, w) ∷ m) p (q, a) = elim (Bool-cases (text_eq j k)) [
    | inl x ↦ rw x (p, a)
    | inr x ↦ rw x (q, insert-All k v m p a)
  ]

  pub lookup-All :
      (k : Text) (v : V) (m : List (Text × V)) → All P m → lookup k m ≡ some v → P (k, v)
  unfolding lookup
  lookup-All k v [] a h = absurd (ground (arith, h))
  lookup-All k v ((j, w) ∷ m) (p, a) h = elim (Bool-cases (text_eq j k)) [
    | inl x ↦
        let e : w ≡ v = ground (arith, rw x at h) in
        subst (λ u. P (k, u)) e (subst (λ i. P (i, w)) ((text_eq_iff j k).0 x) p)
    | inr x ↦ lookup-All k v m a (rw x at h)
  ]

-- A test of keys is what `mem` finds.
pub mem-append : (k : Text) (xs ys : List Text) → mem k (xs ++ ys) ≡ (mem k xs || mem k ys)
unfolding mem
mem-append k [] ys = refl
mem-append k (x ∷ xs) ys = ground (arith, mem-append k xs ys)

pub has_prefix-append : (p r : Text) → has_prefix p (p ++ r) ≡ true
unfolding has_prefix
has_prefix-append [] r = refl
has_prefix-append (c ∷ p) r = ground (arith, has_prefix-append p r)
