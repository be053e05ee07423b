-- ===== src/Text/Number/Digits.antt =====
-- The digits of a number are no white space.
use tcsss.Prelude.{
  ℕ, ◌≡◌, refl, ◌^◌, ◌<◌, false, some, [], ◌∷◌, arith, All, Bool-cases, inl, inr, zero, suc, ◌+◌,
  ◌/◌, ◌%◌, ltb, ltb→lt,
}
use tcsss.Text.Ops.{Text, trim_space, trim_left, trim_right, is_space}
use tcsss.Text.Number.{print_nat, parse_uint, digits_onto}
use tcsss.Text.Number.RoundTrip.{parse_digits-print_nat}

pub parse_uint-print_nat : (n : ℕ) → n < 2 ^ 64 → parse_uint (print_nat n) ≡ some n
unfolding parse_uint
parse_uint-print_nat n h = rw (parse_digits-print_nat n) (ground (arith, h))

-- A text without white space.
abbrev pub NoSpace : Text → Type 0
NoSpace s = All (λ c. is_space c ≡ false) s

trim_right-NoSpace : (s : Text) → NoSpace s → trim_right s ≡ s
unfolding trim_right
trim_right-NoSpace [] h = refl
trim_right-NoSpace (c ∷ cs) (a, h) = rw (a, trim_right-NoSpace cs h)

trim_space-NoSpace : (s : Text) → NoSpace s → trim_space s ≡ s
unfolding trim_space trim_left
trim_space-NoSpace [] h = refl
trim_space-NoSpace (c ∷ cs) (a, h) = rw a (trim_right-NoSpace (c ∷ cs) (a, h))

digit-space : (d : ℕ) → d < 10 → is_space (b'0' + d) ≡ false
digit-space d h = ground (arith, h)

digits_onto-NoSpace : (f n : ℕ) (acc : Text) → NoSpace acc → NoSpace (digits_onto f n acc)
unfolding digits_onto
digits_onto-NoSpace zero n acc h = h
digits_onto-NoSpace (suc f) n acc h = elim (Bool-cases (ltb n 10)) [
  | inl x ↦ rw x (digit-space n (ltb→lt n 10 x), h)
  | inr x ↦ rw x (
      digits_onto-NoSpace f (n / 10) ((b'0' + n % 10) ∷ acc)
        (digit-space (n % 10) (omega arith), h))
]

pub print_nat-NoSpace : (n : ℕ) → NoSpace (print_nat n)
unfolding print_nat
print_nat-NoSpace n = digits_onto-NoSpace (suc n) n [] tt

pub trim_space-print_nat : (n : ℕ) → trim_space (print_nat n) ≡ print_nat n
trim_space-print_nat n = trim_space-NoSpace (print_nat n) (print_nat-NoSpace n)
