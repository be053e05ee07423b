-- ===== src/Config/Mode/Names.antt =====
-- Which traffic mode a directory's files give.
use tcsss.Prelude.{
  ℕ, ◌≡◌, refl, Bool, true, false, ◌||◌, ◌&&◌, not, Option, none, some, List, [], ◌∷◌, Bool-cases,
  inl, inr, if◌then◌else◌, any,
}
use tcsss.Text.Ops.{Text, bytes, text_eq, to_lower}
use tcsss.Text.Maps.{lookup}
use tcsss.Traffic.Env.{Result, ok, err}
use tcsss.Errors.{plain}
use tcsss.System.{System, DirEntry, Log}
use tcsss.Config.Mode.{
  TrafficMode, traffic_mode_client, traffic_mode_server, traffic_mode_aggregate,
  detect_traffic_mode_from_files, detected, file_mode, best_mode, better,
}

-- A file with this name, in capital or small letters.
unfoldable pub is_named : Text → DirEntry → Bool
unfolding text_eq to_lower
is_named name entry = not entry.is_dir && text_eq name (to_lower entry.name)

abbrev has_file : Text → List DirEntry → Bool
has_file name entries = any (is_named name) entries

-- The first of the three modes that has a file.
unfoldable pub mode_of_files : List DirEntry → Result TrafficMode
unfolding is_named
mode_of_files entries =
    if has_file (bytes "1-client.conf") entries
    then ok traffic_mode_client
    else if has_file (bytes "1-server.conf") entries
    then ok traffic_mode_server
    else if has_file (bytes "1-aggregate.conf") entries
    then ok traffic_mode_aggregate
    else err (plain (bytes "no traffic mode configuration found"))

or_false : (a : Bool) → (a || false) ≡ a
or_false true = refl
or_false false = refl

or_assoc : (a b c : Bool) → ((a || b) || c) ≡ (a || (b || c))
or_assoc true b c = refl
or_assoc false b c = refl

abbrev first_of : Bool → Bool → Bool → Option (ℕ × TrafficMode)
first_of client server aggregate =
    if client
    then some (1, traffic_mode_client)
    else if server
    then some (2, traffic_mode_server)
    else if aggregate
    then some (3, traffic_mode_aggregate)
    else none

better-first_of :
    (a b c x y z : Bool)
    → better (first_of a b c) (first_of x y z) ≡ first_of (a || x) (b || y) (c || z)
better-first_of true b c true y z = refl
better-first_of true b c false true z = refl
better-first_of true b c false false true = refl
better-first_of true b c false false false = refl
better-first_of false true c true y z = refl
better-first_of false true c false true z = refl
better-first_of false true c false false true = refl
better-first_of false true c false false false = refl
better-first_of false false true true y z = refl
better-first_of false false true false true z = refl
better-first_of false false true false false true = refl
better-first_of false false true false false false = refl
better-first_of false false false true y z = refl
better-first_of false false false false true z = refl
better-first_of false false false false false true = refl
better-first_of false false false false false false = refl

file_mode-first_of :
    (e : DirEntry)
    → file_mode e
      ≡ first_of
          (is_named (bytes "1-client.conf") e)
          (is_named (bytes "1-server.conf") e)
          (is_named (bytes "1-aggregate.conf") e)
unfolding file_mode is_named lookup
file_mode-first_of e = elim (Bool-cases e.is_dir) [
  | inl x ↦ rw x refl
  | inr x ↦ elim (Bool-cases (text_eq (bytes "1-client.conf") (to_lower e.name))) [
    | inl c ↦ rw (x, c) refl
    | inr c ↦ elim (Bool-cases (text_eq (bytes "1-server.conf") (to_lower e.name))) [
      | inl s ↦ rw (x, c, s) refl
      | inr s ↦ elim (Bool-cases (text_eq (bytes "1-aggregate.conf") (to_lower e.name))) [
        | inl a ↦ rw (x, c, s, a) refl
        | inr a ↦ rw (x, c, s, a) refl
      ]
    ]
  ]
]

best_mode-first_of :
    (entries : List DirEntry) (a b c : Bool)
    → best_mode entries (first_of a b c)
      ≡ first_of
          (a || has_file (bytes "1-client.conf") entries)
          (b || has_file (bytes "1-server.conf") entries)
          (c || has_file (bytes "1-aggregate.conf") entries)
unfolding best_mode
best_mode-first_of [] a b c = rw (or_false a, or_false b, or_false c) refl
best_mode-first_of (e ∷ entries) a b c =
    let client = is_named (bytes "1-client.conf") e in
    let server = is_named (bytes "1-server.conf") e in
    let aggregate = is_named (bytes "1-aggregate.conf") e in
    rw
      (
        file_mode-first_of e,
        better-first_of a b c client server aggregate,
        best_mode-first_of entries (a || client) (b || server) (c || aggregate),
        or_assoc a client (has_file (bytes "1-client.conf") entries),
        or_assoc b server (has_file (bytes "1-server.conf") entries),
        or_assoc c aggregate (has_file (bytes "1-aggregate.conf") entries),
      )
      refl

detected-first_of :
    (a b c : Bool)
    → detected (first_of a b c) ≡ (
        if a
        then ok traffic_mode_client
        else if b
        then ok traffic_mode_server
        else if c
        then ok traffic_mode_aggregate
        else err (plain (bytes "no traffic mode configuration found")))
detected-first_of true b c = refl
detected-first_of false true c = refl
detected-first_of false false true = refl
detected-first_of false false false = refl

-- The mode detected is the first of client, server and aggregate that has a file with its name, in any
-- case and not a directory; where none has one, an error is returned.
pub detect-mode_of_files :
    (system : System) (template_dir : Text) (log : Log) (entries : List DirEntry)
    → system.entries log template_dir ≡ ok entries
    → (detect_traffic_mode_from_files system template_dir log).0 ≡ mode_of_files entries
unfolding detect_traffic_mode_from_files mode_of_files
detect-mode_of_files system template_dir log entries h =
    rw (h, best_mode-first_of entries false false false)
      (detected-first_of (has_file (bytes "1-client.conf") entries)
        (has_file (bytes "1-server.conf") entries) (has_file (bytes "1-aggregate.conf") entries))
