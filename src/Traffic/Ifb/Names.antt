-- ===== src/Traffic/Ifb/Names.antt =====
-- The name of the ifb device of an interface.
use tcsss.Prelude.{
  ℕ, zero, suc, ◌≡◌, ◌↔◌, ◌≤◌, refl, ◌∙◌, sym, ap, true, [], ◌∷◌, ◌++◌, arith, length, take, leb,
  Bool-cases, inl, inr, length-take,
}
use tcsss.Text.Ops.{Text, has_prefix}
use tcsss.Text.Maps.{has_prefix-append}
use tcsss.Traffic.Commands.{ifb_prefix}
use tcsss.Traffic.Ifb.{truncate_ifb, ifb_of}

take-all : (n : ℕ) (xs : Text) → length xs ≤ n → take n xs ≡ xs
take-all zero [] h = refl
take-all zero (x ∷ xs) h = absurd (omega arith)
take-all (suc n) [] h = refl
take-all (suc n) (x ∷ xs) h = ap (◌∷◌ x) (take-all n xs (omega arith))

truncate_ifb-take : (name : Text) → truncate_ifb name ≡ take 15 name
unfolding truncate_ifb
truncate_ifb-take name = elim (Bool-cases (leb (length name) 15)) [
  | inl e ↦ rw e (sym (take-all 15 name (ground arith)))
  | inr e ↦ rw e
]

ifb_of-take : (name : Text) → ifb_of name ≡ ifb_prefix ++ take 11 name
ifb_of-take name = truncate_ifb-take (ifb_prefix ++ name)

tail_of : Text → Text
tail_of (a ∷ b ∷ c ∷ d ∷ r) = r
tail_of _ = []

-- The name of every ifb device has at most 15 bytes and begins with ifb4. Two interfaces have the same
-- device exactly if the first 11 bytes of their names are the same.
pub ifb_of_faithful :
    (a b : Text)
    → (length (ifb_of a) ≤ 15)
      × (has_prefix ifb_prefix (ifb_of a) ≡ true)
      × ((ifb_of a ≡ ifb_of b) ↔ (take 11 a ≡ take 11 b))
unfolding tail_of
ifb_of_faithful a b = (
  rw (ifb_of-take a) (omega (arith, length-take 11 a)),
  rw (ifb_of-take a) (has_prefix-append ifb_prefix (take 11 a)),
  (
    (λ e. ap tail_of (sym (ifb_of-take a) ∙ e ∙ ifb_of-take b)),
    (λ e. ifb_of-take a ∙ ap (◌++◌ ifb_prefix) e ∙ sym (ifb_of-take b)),
  ),
)
