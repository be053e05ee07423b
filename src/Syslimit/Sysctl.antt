-- ===== src/Syslimit/Sysctl.antt =====
-- internal/syslimit/sysctlconf.go: the text functions that bring the parameters of the templates into
-- sysctl.conf. A Go map is the list of its entries in the order in which a `range` visits them.
pub mod Merge
pub mod Apply
pub mod ReadBack
pub mod Template
use tcsss.Prelude.{
  Bool, true, false, not, ◌||◌, ◌&&◌, Option, none, some, List, [], ◌∷◌, ◌++◌, map, if◌then◌else◌,
  any, ◌==◌, ℕ,
}
use tcsss.Text.Ops.{
  Text, bytes, is_empty, has_prefix, mem, trim_space, split, cut, fields, join, contains,
}
use tcsss.Text.Maps.{lookup, insert}

abbrev pub Params : Type 0
Params = List (Text × Text)

-- The line without a comment behind its text.
unfoldable pub without_comment : Text → Text
unfolding cut trim_space
without_comment line = elim (cut b'#' line) [
  | none ↦ line
  | some (l, r) ↦ (if is_empty l then line else trim_space l)
]

abbrev first_of_two : List Text → Text
first_of_two (x ∷ y ∷ r) = x
first_of_two _ = []

abbrev spaced_key : Text → Text
spaced_key line = first_of_two (fields line)

-- `extractKey`
unfoldable pub extract_key : Text → Text
unfolding without_comment cut trim_space fields
extract_key raw =
    let line = without_comment raw in
    elim (cut b'=' line) [
      | none ↦ spaced_key line
      | some (l, r) ↦ (if is_empty l then spaced_key line else trim_space l)
    ]

-- The key of a line of sysctl.conf; empty for an empty line, a comment, and a line without a key.
unfoldable pub line_key : Text → Text
unfolding trim_space has_prefix extract_key
line_key line =
    let trimmed = trim_space line in
    if is_empty trimmed || has_prefix (bytes "#") trimmed then [] else extract_key trimmed

abbrev pub render : Text → Text → Text
render key value = key ++ (bytes " = " ++ value)

abbrev updated_with : Text → Text → Option Text → Text
updated_with line key none = line
updated_with line key (some value) = render key value

-- What the loop over the existing lines puts out for a line.
unfoldable pub update_line : Params → Text → Text
unfolding line_key lookup
update_line params line =
    let key = line_key line in
    if is_empty key then line else updated_with line key (lookup key params)

-- The keys of some lines.
unfoldable pub line_keys : List Text → List Text
unfolding line_key
line_keys [] = []
line_keys (line ∷ lines) =
    let rest = line_keys lines in if is_empty (line_key line) then rest else line_key line ∷ rest

-- The lines of the parameters whose key is not among the keys updated.
unfoldable pub missing_lines : List Text → Params → List Text
unfolding mem
missing_lines keys [] = []
missing_lines keys ((key, value) ∷ params) =
    let rest = missing_lines keys params in if mem key keys then rest else render key value ∷ rest

abbrev pub block : List Text → List Text
block [] = []
block (line ∷ lines) = [] ∷ bytes "# tcsss managed parameters" ∷ line ∷ lines

-- `merge` on the lines of a file that is not empty.
unfoldable pub merge_lines : List Text → Params → List Text
unfolding update_line line_keys missing_lines
merge_lines lines params =
    map (update_line params) lines ++ block (missing_lines (line_keys lines) params)

abbrev render_entry : Text × Text → Text
render_entry (key, value) = render key value

pub ends_with_newline : Text → Bool
ends_with_newline [] = false
ends_with_newline (c ∷ []) = c == b'\n'
ends_with_newline (c ∷ d ∷ cs) = ends_with_newline (d ∷ cs)

-- `merge`
unfoldable pub merge_text : Text → Params → Text
unfolding merge_lines split join ends_with_newline
merge_text existing params =
    if is_empty existing
    then join (bytes "\n") (bytes "# tcsss managed sysctl parameters" ∷ map render_entry params)
      ++ bytes "\n"
    else let result = join (bytes "\n") (merge_lines (split b'\n' existing) params) in
      if ends_with_newline result then result else result ++ bytes "\n"

-- `isSysctlKey`
unfoldable pub is_sysctl_key : Text → Bool
unfolding has_prefix contains
is_sysctl_key key =
    if has_prefix (bytes "rlimit.") key
    then false
    else if not (contains (bytes ".") key)
    then false
    else not (any (λ c. c == b' ' || c == b'\t') key)

add_entry : Text → Text → Params → Params
unfolding has_prefix is_sysctl_key insert
add_entry key value params =
    if is_empty key || has_prefix (bytes "rlimit.") key || not (is_sysctl_key key)
    then params
    else insert key value params

-- The body of the loops of `parseTemplate`.
unfoldable pub parse_line : Text → Params → Params
unfolding add_entry without_comment cut trim_space has_prefix
parse_line raw params =
    let line = trim_space raw in
    if is_empty line || has_prefix (bytes "#") line
    then params
    else elim (cut b'=' (without_comment line)) [
      | none ↦ params
      | some (key, value) ↦ add_entry (trim_space key) (trim_space value) params
    ]

unfoldable pub parse_lines : List Text → Params → Params
unfolding parse_line
parse_lines [] params = params
parse_lines (line ∷ lines) params = parse_lines lines (parse_line line params)

parse_all : List Text → Params → Params
unfolding parse_lines split
parse_all [] params = params
parse_all (t ∷ templates) params = parse_all templates (parse_lines (split b'\n' t) params)

-- `parseTemplate`
unfoldable pub parse_template : List Text → Params
unfolding parse_all
parse_template templates = parse_all templates []
