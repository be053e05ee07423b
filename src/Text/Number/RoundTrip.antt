-- ===== src/Text/Number/RoundTrip.antt =====
-- `Atoi` reads back what `Itoa` prints, for every 64-bit int.
use tcsss.Prelude.Int.{ℤ, pos, negsuc}
use tcsss.Prelude.{
  ℕ, zero, suc, ◌+◌, ◌*◌, ◌/◌, ◌%◌, ◌^◌, ◌≤◌, ◌<◌, ◌≡◌, refl, ◌∙◌, some, [], ◌∷◌, arith, ltb,
  ltb→lt, Bool-cases, inl, inr,
}
use tcsss.Text.Number.{digits_onto, print_nat, itoa, digits_value, parse_digits, atoi}
use tcsss.Text.Ops.{Text}

digits_value-digit :
    (a d v : ℕ) (acc : Text)
    → d < 10
    → a * 10 + d ≡ v
    → digits_value a ((b'0' + d) ∷ acc) ≡ digits_value v acc
unfolding digits_value
digits_value-digit a d v acc h e = ground arith

digits_value-digits_onto :
    (f n : ℕ) (acc : Text) → n < f → digits_value 0 (digits_onto f n acc) ≡ digits_value n acc
unfolding digits_onto
digits_value-digits_onto zero n acc h = elim h [ ]
digits_value-digits_onto (suc f) n acc h = elim (Bool-cases (ltb n 10)) [
  | inl small ↦ rw small (digits_value-digit 0 n n acc (ltb→lt n 10 small) (omega arith))
  | inr large ↦ rw large (
      digits_value-digits_onto f (n / 10) ((b'0' + n % 10) ∷ acc) (ground arith)
      ∙ digits_value-digit (n / 10) (n % 10) n acc (omega arith) (omega arith))
]

-- A text that begins with a digit; so it is not empty and has no sign.
abbrev pub StartsWithDigit : Text → Type 0
StartsWithDigit [] = ⊥
StartsWithDigit (c ∷ cs) = (b'0' ≤ c) × (c ≤ b'9')

digits_onto-StartsWithDigit : (f n : ℕ) (acc : Text) → n < f → StartsWithDigit (digits_onto f n acc)
unfolding digits_onto
digits_onto-StartsWithDigit zero n acc h = elim h [ ]
digits_onto-StartsWithDigit (suc f) n acc h = elim (Bool-cases (ltb n 10)) [
  | inl small ↦ rw small (omega arith, omega (arith, ltb→lt n 10 small))
  | inr large ↦
      rw large (digits_onto-StartsWithDigit f (n / 10) ((b'0' + n % 10) ∷ acc) (ground arith))
]

pub print_nat-StartsWithDigit : (n : ℕ) → StartsWithDigit (print_nat n)
unfolding print_nat
print_nat-StartsWithDigit n = digits_onto-StartsWithDigit (suc n) n [] (omega arith)

parse_digits_of :
    (s : Text) (n : ℕ) → StartsWithDigit s → digits_value 0 s ≡ some n → parse_digits s ≡ some n
unfolding parse_digits
parse_digits_of [] n d h = absurd d
parse_digits_of (c ∷ cs) n d h = h

print_nat-value : (n : ℕ) → digits_value 0 (print_nat n) ≡ some n
unfolding print_nat
print_nat-value n =
    digits_value-digits_onto (suc n) n [] (omega arith) ∙ unfold digits_value in refl

pub parse_digits-print_nat : (n : ℕ) → parse_digits (print_nat n) ≡ some n
parse_digits-print_nat n =
    parse_digits_of (print_nat n) n (print_nat-StartsWithDigit n) (print_nat-value n)

-- The integers of Go's `int`.
abbrev pub FitsInt : ℤ → Type 0
FitsInt (pos n) = n < 2 ^ 63
FitsInt (negsuc n) = n < 2 ^ 63

atoi_of_digits :
    (s : Text) (n : ℕ)
    → StartsWithDigit s
    → parse_digits s ≡ some n
    → n < 2 ^ 63
    → atoi s ≡ some (pos n)
unfolding atoi
atoi_of_digits [] n d e h = absurd d
atoi_of_digits (c ∷ cs) n d e h = ground arith

-- What `Itoa` prints for an int that fits, `Atoi` reads back.
pub atoi-itoa : (i : ℤ) → FitsInt i → atoi (itoa i) ≡ some i
unfolding itoa
atoi-itoa (pos n) h =
    atoi_of_digits (print_nat n) n (print_nat-StartsWithDigit n) (parse_digits-print_nat n) h
atoi-itoa (negsuc n) h = unfold atoi in ground (arith, parse_digits-print_nat (suc n))
