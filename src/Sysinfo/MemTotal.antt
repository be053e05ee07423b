-- ===== src/Sysinfo/MemTotal.antt =====
-- The line of /proc/meminfo that `ReadMemoryKB` reads.
use mathlib.Core.List.{append-nil, append_assoc}
use tcsss.Prelude.{
  ℕ, zero, suc, ◌≡◌, refl, ◌^◌, ◌<◌, false, some, List, [], ◌∷◌, ◌++◌, arith, All, replicate,
}
use tcsss.Text.Ops.{Text, bytes, has_prefix, fields_from, split}
use tcsss.Text.Number.{print_nat}
use tcsss.Text.Number.RoundTrip.{StartsWithDigit, print_nat-StartsWithDigit}
use tcsss.Text.Number.Digits.{NoSpace, print_nat-NoSpace, parse_uint-print_nat}
use tcsss.Traffic.Env.{ok}
use tcsss.System.{System, Log}
use tcsss.Sysinfo.{memory_of, mem_total, read_memory_kb}

-- The line that the kernel prints for n kilobytes, with k + 1 blanks.
abbrev pub mem_line : ℕ → ℕ → Text
mem_line k n = bytes "MemTotal:" ++ (b' ' ∷ (replicate k b' ' ++ (print_nat n ++ bytes " kB")))

fields_from-word :
    (acc w r : Text) → NoSpace w → fields_from acc (w ++ r) ≡ fields_from (acc ++ w) r
unfolding fields_from
fields_from-word acc [] r h = rw (append-nil acc) refl
fields_from-word acc (c ∷ w) r (x, h) =
    rw (x, fields_from-word (acc ++ (c ∷ [])) w r h, append_assoc acc (c ∷ []) w) refl

fields_from-blanks : (k : ℕ) (r : Text) → fields_from [] (replicate k b' ' ++ r) ≡ fields_from [] r
unfolding fields_from
fields_from-blanks zero r = refl
fields_from-blanks (suc k) r = fields_from-blanks k r

word_end : (w : Text) → StartsWithDigit w → fields_from w (bytes " kB") ≡ w ∷ bytes "kB" ∷ []
unfolding fields_from
word_end [] h = absurd h
word_end (c ∷ w) h = refl

fields_from-number :
    (k n : ℕ)
    → fields_from [] (replicate k b' ' ++ (print_nat n ++ bytes " kB"))
      ≡ print_nat n ∷ bytes "kB" ∷ []
fields_from-number k n =
    rw
      (
        fields_from-blanks k (print_nat n ++ bytes " kB"),
        fields_from-word [] (print_nat n) (bytes " kB") (print_nat-NoSpace n),
      )
      (word_end (print_nat n) (print_nat-StartsWithDigit n))

memory_of-positive : (n : ℕ) → 0 < n → memory_of (some n) ≡ ok n
memory_of-positive zero h = absurd (ground (arith, h))
memory_of-positive (suc n) h = refl

mem_total-line :
    (before after : List Text) (k n : ℕ)
    → All (λ l. has_prefix (bytes "MemTotal:") l ≡ false) before
    → 0 < n
    → n < 2 ^ 64
    → mem_total (before ++ (mem_line k n ∷ after)) ≡ ok n
unfolding mem_total
mem_total-line [] after k n a p b =
    rw (fields_from-number k n, parse_uint-print_nat n b) (memory_of-positive n p)
mem_total-line (l ∷ before) after k n (x, a) p b = rw x (mem_total-line before after k n a p b)

-- From a file whose first line that begins with `MemTotal:` gives a positive number of kilobytes below 2^64
-- in the kernel's form, with any number of blanks, this number is read.
pub read_memory_kb-mem_line :
    (system : System) (path content : Text) (log : Log) (before after : List Text) (k n : ℕ)
    → system.contents log path ≡ ok content
    → split b'\n' content ≡ before ++ (mem_line k n ∷ after)
    → All (λ l. has_prefix (bytes "MemTotal:") l ≡ false) before
    → 0 < n
    → n < 2 ^ 64
    → (read_memory_kb system path log).0 ≡ ok n
unfolding read_memory_kb
read_memory_kb-mem_line system path content log before after k n c s a p b =
    rw (c, s) (mem_total-line before after k n a p b)
