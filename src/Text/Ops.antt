-- ===== src/Text/Ops.antt =====
-- The functions of Go's package strings that the program calls, and `sort.Strings`.
use Prim.Native.Char.{code}
use tcsss.Prelude.{
  ℕ, zero, suc, ◌+◌, ◌-◌, String, Bool, true, false, ◌&&◌, ◌||◌, Option, none, some, List, [], ◌∷◌,
  ◌++◌, map, ◌==◌, ltb, leb, if◌then◌else◌, length, any,
}

abbrev pub Text : Type 0
Text = List ℕ

-- The bytes of an ASCII literal.
abbrev pub bytes : String → Text
bytes String.[] = []
bytes (String.◌∷◌ c s) = code c ∷ bytes s

unfoldable pub text_eq : Text → Text → Bool
text_eq [] [] = true
text_eq (x ∷ xs) (y ∷ ys) = x == y && text_eq xs ys
text_eq _ _ = false

abbrev pub is_empty {ℓ} : {A : Type ℓ} → List A → Bool
is_empty [] = true
is_empty (_ ∷ _) = false

-- `strings.HasPrefix`, the prefix first.
unfoldable pub has_prefix : Text → Text → Bool
has_prefix [] s = true
has_prefix (p ∷ ps) [] = false
has_prefix (p ∷ ps) (x ∷ xs) = p == x && has_prefix ps xs

-- `strings.Contains`, the part first.
unfoldable pub contains : Text → Text → Bool
unfolding has_prefix
contains sub [] = has_prefix sub []
contains sub (x ∷ xs) = has_prefix sub (x ∷ xs) || contains sub xs

-- A key of a Go `map[string]struct{}`, or an element of a slice.
unfoldable pub mem : Text → List Text → Bool
unfolding text_eq
mem k xs = any (text_eq k) xs

abbrev pub is_space : ℕ → Bool
is_space c = c == 32 || (leb 9 c && leb c 13)

unfoldable pub trim_left : Text → Text
trim_left [] = []
trim_left (c ∷ cs) = let rest = trim_left cs in if is_space c then rest else c ∷ cs

unfoldable pub trim_right : Text → Text
trim_right [] = []
trim_right (c ∷ cs) =
    let rest = trim_right cs in if is_space c && is_empty rest then [] else c ∷ rest

-- `strings.TrimSpace`
unfoldable pub trim_space : Text → Text
unfolding trim_left trim_right
trim_space s = trim_right (trim_left s)

abbrev pub lower_byte : ℕ → ℕ
lower_byte c = if leb 65 c && leb c 90 then c + 32 else c

unfoldable pub to_lower : Text → Text
to_lower = map lower_byte

abbrev pub upper_byte : ℕ → ℕ
upper_byte c = if leb 97 c && leb c 122 then c - 32 else c

unfoldable pub to_upper : Text → Text
to_upper = map upper_byte

-- The text behind a prefix; `none` where it has another beginning.
unfoldable pub drop_prefix : Text → Text → Option Text
drop_prefix [] s = some s
drop_prefix (p ∷ ps) [] = none
drop_prefix (p ∷ ps) (x ∷ xs) = let rest = drop_prefix ps xs in if p == x then rest else none

-- `strings.TrimPrefix`, the prefix first.
abbrev pub trim_prefix : Text → Text → Text
trim_prefix prefix s = elim (drop_prefix prefix s) [ none ↦ s | some rest ↦ rest ]

-- Puts a byte in front of the first piece.
abbrev pub onto_first : ℕ → List Text → List Text
onto_first c [] = (c ∷ []) ∷ []
onto_first c (p ∷ ps) = (c ∷ p) ∷ ps

-- `strings.Split` on one byte.
unfoldable pub split : ℕ → Text → List Text
split b [] = [] ∷ []
split b (c ∷ cs) = let rest = split b cs in if c == b then [] ∷ rest else onto_first c rest

-- `strings.SplitN(s, b, 2)`: the two parts, or `none` where Go returns one part.
unfoldable pub cut : ℕ → Text → Option (Text × Text)
cut b [] = none
cut b (c ∷ cs) =
    let rest = cut b cs in
    if c == b then some ([], cs) else elim rest [ none ↦ none | some (l, r) ↦ some (c ∷ l, r) ]

-- `strings.Fields`: `word` is the field that is being read.
unfoldable pub fields_from : Text → Text → List Text
fields_from word [] = if is_empty word then [] else word ∷ []
fields_from word (c ∷ cs) =
    let after = fields_from [] cs in
    let within = fields_from (word ++ (c ∷ [])) cs in
    if is_space c then (if is_empty word then after else word ∷ after) else within

unfoldable pub fields : Text → List Text
unfolding fields_from
fields = fields_from []

-- `strings.Join`, the separator first.
unfoldable pub join : Text → List Text → Text
join sep [] = []
join sep (x ∷ []) = x
join sep (x ∷ y ∷ r) = x ++ (sep ++ join sep (y ∷ r))

-- What a `strings.Builder` holds after these writes.
abbrev pub concat : List Text → Text
concat [] = []
concat (x ∷ xs) = x ++ concat xs

-- `strings.ReplaceAll` for a non-empty `old`; `skip` bytes of a match are still to be dropped.
unfoldable pub replace_from : ℕ → Text → Text → Text → Text
unfolding has_prefix
replace_from skip old new [] = []
replace_from (suc k) old new (c ∷ cs) = replace_from k old new cs
replace_from zero old new (c ∷ cs) =
    let matched = new ++ replace_from (length old - 1) old new cs in
    let other = c ∷ replace_from zero old new cs in
    if has_prefix old (c ∷ cs) then matched else other

unfoldable pub replace_all : Text → Text → Text → Text
unfolding replace_from
replace_all = replace_from zero

-- `<=` of Go strings.
unfoldable pub text_le : Text → Text → Bool
text_le [] t = true
text_le (x ∷ xs) [] = false
text_le (x ∷ xs) (y ∷ ys) = ltb x y || (x == y && text_le xs ys)

insert_sorted : Text → List Text → List Text
unfolding text_le
insert_sorted t [] = t ∷ []
insert_sorted t (x ∷ xs) =
    let rest = insert_sorted t xs in if text_le t x then t ∷ x ∷ xs else x ∷ rest

-- `sort.Strings`
unfoldable pub sort : List Text → List Text
unfolding insert_sorted
sort [] = []
sort (x ∷ xs) = insert_sorted x (sort xs)

-- `filepath.Join` of a clean path and a relative one.
abbrev pub path_join : Text → Text → Text
path_join dir name = dir ++ (b'/' ∷ name)

-- `strings.Split` on a separator of several bytes; `skip` bytes of a match are still to be dropped.
unfoldable pub split_from : ℕ → Text → Text → List Text
unfolding has_prefix
split_from skip sep [] = [] ∷ []
split_from (suc k) sep (c ∷ cs) = split_from k sep cs
split_from zero sep (c ∷ cs) =
    let matched = [] ∷ split_from (length sep - 1) sep cs in
    let other = onto_first c (split_from zero sep cs) in
    if has_prefix sep (c ∷ cs) then matched else other

-- A line with its carriage return taken off.
drop_cr : Text → Text
drop_cr [] = []
drop_cr (c ∷ cs) = let rest = drop_cr cs in if c == b'\r' && is_empty cs then [] else c ∷ rest

-- The pieces between newlines, without an empty last one.
line_pieces : List Text → List Text
line_pieces [] = []
line_pieces (l ∷ []) = if is_empty l then [] else l ∷ []
line_pieces (l ∷ k ∷ ls) = l ∷ line_pieces (k ∷ ls)

-- The lines that a `bufio.Scanner` gives; `none` is its error for a line that fills its buffer.
unfoldable pub scan_lines : Text → Option (List Text)
unfolding drop_cr line_pieces split
scan_lines s =
    let lines = line_pieces (split b'\n' s) in
    if any (λ l. leb 65536 (length l)) lines then none else some (map drop_cr lines)

-- What is in front of the last occurrence of a byte.
unfoldable pub before_last : ℕ → Text → Option Text
before_last b [] = none
before_last b (c ∷ cs) =
    let rest = before_last b cs in
    elim rest [ some l ↦ some (c ∷ l) | none ↦ (if c == b then some [] else none) ]

-- `filepath.Dir` of a clean path.
unfoldable pub path_dir : Text → Text
unfolding before_last
path_dir path = elim (before_last b'/' path) [
  | none ↦ bytes "."
  | some [] ↦ bytes "/"
  | some (c ∷ l) ↦ c ∷ l
]
