-- ===== src/Syslimit/Units.antt =====
-- internal/syslimit: the numbers that systemd and the process get for a limit.
use tcsss.Prelude.{
  ℕ, ◌≡◌, ◌↔◌, ◌*◌, ◌-◌, ◌^◌, ◌<◌, false, some, arith, Bool-cases, inl, inr, ◌==◌, ◌%◌, ap, ◌∙◌,
  if◌then◌else◌,
}
use tcsss.Text.Ops.{Text, bytes, text_eq}
use tcsss.Text.Maps.{text_eq_iff}
use tcsss.Text.Number.{print_nat}
use tcsss.Text.Number.Digits.{parse_uint-print_nat, trim_space-print_nat}
use tcsss.Text.Number.RoundTrip.{parse_digits-print_nat, print_nat-StartsWithDigit}
use tcsss.Syslimit.Limits.{systemd_value}
use tcsss.Syslimit.Rlimit.{in_unit, unlimited, parse_rlimit_value}

-- A number of kilobytes of stack becomes the same number of bytes exactly if that number fits 64 bits;
-- the value 2^64 - 1 stands for no limit.
pub in_unit-stack : (v : ℕ) → v < 2 ^ 64 - 1 → (in_unit (bytes "stack") v ≡ v * 1024) ↔ (v < 2 ^ 54)
unfolding in_unit
in_unit-stack v h = ground arith

not_word : (n : ℕ) → text_eq (print_nat n) (bytes "unlimited") ≡ false
not_word n = elim (Bool-cases (text_eq (print_nat n) (bytes "unlimited"))) [
  | inl x ↦
      let h =
        rw ((text_eq_iff (print_nat n) (bytes "unlimited")).0 x) at (print_nat-StartsWithDigit n) in
      absurd (ground (arith, h))
  | inr x ↦ x
]

systemd_value-print_nat :
    (key : Text) (n : ℕ)
    → n < 2 ^ 64 - 1
    → systemd_value key (print_nat n) ≡ print_nat (in_unit key n)
unfolding systemd_value in_unit
systemd_value-print_nat key n h =
    let other : (n == unlimited) ≡ false = ground (arith, h) in
    elim (Bool-cases (text_eq key (bytes "stack"))) [
      | inl x ↦ rw (
        x,
        not_word n,
        parse_uint-print_nat n (omega (arith, h)),
        other,
        not_word ((n * 1024) % 2 ^ 64),
      )
      | inr x ↦ rw (x, not_word n)
    ]

-- What a limit of `n` in the templates comes to: of stack, counted in kilobytes, the bytes modulo 2^64.
abbrev pub scaled : Text → ℕ → ℕ
scaled key n = if text_eq key (bytes "stack") then (n * 1024) % 2 ^ 64 else n

-- For a number that is written in decimal and is less than 2^64 - 1, the process and systemd get the same
-- limit of each resource: the number, and for stack the number times 1024, modulo 2^64.
pub limit_agrees :
    (key : Text) (n : ℕ)
    → n < 2 ^ 64 - 1
    → (parse_rlimit_value (print_nat n) ≡ some n)
      × (in_unit key n ≡ scaled key n)
      × (systemd_value key (print_nat n) ≡ print_nat (scaled key n))
unfolding parse_rlimit_value
limit_agrees key n h =
    let same : in_unit key n ≡ scaled key n = unfold in_unit in ground (arith, h) in
    (
      rw (trim_space-print_nat n, not_word n, parse_digits-print_nat n) (ground (arith, h)),
      same,
      systemd_value-print_nat key n h ∙ ap print_nat same,
    )
