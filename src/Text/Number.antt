-- ===== src/Text/Number.antt =====
-- Decimal numbers (`strconv.Itoa`, `strconv.Atoi`, `strconv.ParseUint`) and `time.Duration.String`.
pub mod RoundTrip
pub mod Digits
use tcsss.Prelude.Int.{ℤ, pos, negsuc, int_le}
use tcsss.Prelude.{
  ℕ, zero, suc, ◌+◌, ◌-◌, ◌*◌, ◌/◌, ◌%◌, ◌^◌, Bool, true, false, ◌&&◌, ◌||◌, Option, none, some,
  List, [], ◌∷◌, ◌++◌, ◌==◌, ltb, leb, if◌then◌else◌,
}
use tcsss.Text.Ops.{Text, bytes, is_empty}

-- The digits of `n` in front of `acc`; the fuel is above the number of digits when it is above `n`.
unfoldable pub digits_onto : ℕ → ℕ → Text → Text
digits_onto zero n acc = acc
digits_onto (suc f) n acc =
    let more = digits_onto f (n / 10) ((b'0' + n % 10) ∷ acc) in
    if ltb n 10 then (b'0' + n) ∷ acc else more

unfoldable pub print_nat : ℕ → Text
unfolding digits_onto
print_nat n = digits_onto (suc n) n []

-- `strconv.Itoa`
unfoldable pub itoa : ℤ → Text
unfolding print_nat
itoa (pos n) = print_nat n
itoa (negsuc n) = b'-' ∷ print_nat (suc n)

abbrev is_digit : ℕ → Bool
is_digit c = leb b'0' c && leb c b'9'

unfoldable pub digits_value : ℕ → Text → Option ℕ
digits_value acc [] = some acc
digits_value acc (c ∷ cs) =
    let rest = digits_value (acc * 10 + (c - b'0')) cs in if is_digit c then rest else none

-- One or more digits, and nothing else.
unfoldable pub parse_digits : Text → Option ℕ
unfolding digits_value
parse_digits [] = none
parse_digits (c ∷ cs) = digits_value 0 (c ∷ cs)

abbrev bounded : ℕ → Option ℕ → Option ℕ
bounded limit none = none
bounded limit (some n) = if ltb n limit then some n else none

-- `strconv.ParseUint(s, 10, 64)`; `none` is its error.
unfoldable pub parse_uint : Text → Option ℕ
unfolding parse_digits
parse_uint s = bounded (2 ^ 64) (parse_digits s)

abbrev pub positive : Option ℕ → Option ℤ
positive none = none
positive (some n) = some (pos n)

abbrev pub negative : Option ℕ → Option ℤ
negative none = none
negative (some zero) = some (pos 0)
negative (some (suc n)) = some (negsuc n)

-- `strconv.Atoi`, into a 64-bit int; `none` is its error.
unfoldable pub atoi : Text → Option ℤ
unfolding parse_digits
atoi [] = none
atoi (c ∷ cs) =
    if c == b'-'
    then negative (bounded (2 ^ 63 + 1) (parse_digits cs))
    else if c == b'+'
    then positive (bounded (2 ^ 63) (parse_digits cs))
    else positive (bounded (2 ^ 63) (parse_digits (c ∷ cs)))

-- `fmtFrac` of package time: the `k` low decimal digits of `v`, the trailing zeros left out.
frac_digits : ℕ → ℕ → Text → Text
frac_digits zero v acc = acc
frac_digits (suc k) v acc =
    frac_digits k (v / 10) (if is_empty acc && (v % 10) == 0 then [] else (b'0' + v % 10) ∷ acc)

abbrev with_point : Text → Text
with_point [] = []
with_point (c ∷ cs) = b'.' ∷ c ∷ cs

with_frac : ℕ → ℕ → Text
unfolding print_nat frac_digits
with_frac k v = print_nat (v / 10 ^ k) ++ with_point (frac_digits k v [])

-- The letter mu in UTF-8, which `Duration.String` prints, and the `s` behind it.
abbrev pub micro_seconds : Text
micro_seconds = 0xC2 ∷ 0xB5 ∷ b's' ∷ []

-- `time.Duration.String` of a duration in nanoseconds that is positive.
unfoldable pub duration_string : ℕ → Text
unfolding with_frac print_nat
duration_string d =
    let secs = d / 10 ^ 9 in
    let seconds = with_frac 9 (d % (60 * 10 ^ 9)) ++ bytes "s" in
    let minutes = print_nat ((secs / 60) % 60) ++ (bytes "m" ++ seconds) in
    let hours = print_nat (secs / 3600) ++ (bytes "h" ++ minutes) in
    if ltb d 1000
    then print_nat d ++ bytes "ns"
    else if ltb d (10 ^ 6)
    then with_frac 3 d ++ micro_seconds
    else if ltb d (10 ^ 9)
    then with_frac 6 d ++ bytes "ms"
    else if ltb secs 60
    then seconds
    else if ltb secs 3600
    then minutes
    else hours
