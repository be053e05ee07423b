-- ===== src/Syslimit/Limits/Systemd.antt =====
-- limits.go, `generateSystemdConf`: what a reader of the file finds.
use mathlib.Core.List.{append_assoc, append-nil}
use mathlib.Core.Path.{subst}
use tcsss.Prelude.{
  ℕ, ◌≡◌, refl, sym, ap, ◌∙◌, not, ◌&&◌, Option, none, some, List, [], ◌∷◌, ◌++◌, if◌then◌else◌,
  arith, All, All-append, ◌%◌, ◌*◌, ◌^◌, Bool-cases, Option-cases, inl, inr,
}
use tcsss.Text.Ops.{Text, bytes, text_eq, split, cut, concat}
use tcsss.Text.Split.{NoByte, split-piece, cut-piece}
use tcsss.Text.Number.{parse_uint}
use tcsss.Text.Number.Digits.{NoSpace, print_nat-NoSpace}
use tcsss.Text.Maps.{lookup, lookup-All, text_eq_iff}
use tcsss.Syslimit.Limits.{
  Rlimits, in_bytes, is_unlimited, systemd_order, systemd_value, systemd_body,
  generate_systemd_conf, load_rlimits_from_templates,
}
use tcsss.Config.Selector.{TemplateSet}
use tcsss.Syslimit.Limits.Values.{AreLines, load-AreLines}

-- The value that the first line `name=value` gives.
unfoldable pub found_under : Text → List Text → Option Text
found_under name [] = none
found_under name (line ∷ lines) =
    let rest = found_under name lines in
    elim (cut b'=' line) [
      | none ↦ rest
      | some (key, value) ↦ (if text_eq key name then some value else rest)
    ]

-- What systemd is to get for a resource.
abbrev pub setting : Text → Option Text → Option Text
setting key none = none
setting key (some value) = some (systemd_value key value)

-- A table whose names can be written in front of `=`, with one key for each name.
abbrev IsName : Text × Text → Type 0
IsName e = NoByte b'\n' e.1 × NoByte b'=' e.1

abbrev Same : Text → Text → Text × Text → Type 0
Same key name e = text_eq e.1 name ≡ text_eq e.0 key

systemd_order-IsName : All IsName systemd_order
systemd_order-IsName = search

systemd_order-Same : All (λ e. All (Same e.0 e.1) systemd_order) systemd_order
unfolding text_eq
systemd_order-Same = search

cut-NoByte : (b : ℕ) (s : Text) → NoByte b s → cut b s ≡ none
unfolding cut
cut-NoByte b [] h = refl
cut-NoByte b (c ∷ s) (x, h) = rw (x, cut-NoByte b s h)

found_under-line :
    (name m v : Text) (lines : List Text)
    → NoByte b'=' m
    → found_under name ((m ++ (b'=' ∷ v)) ∷ lines)
      ≡ (if text_eq m name then some v else found_under name lines)
unfolding found_under
found_under-line name m v lines h = rw (cut-piece b'=' m v h, found_under) refl

space-newline : (s : Text) → NoSpace s → NoByte b'\n' s
space-newline [] h = tt
space-newline (c ∷ s) (x, h) = (ground (arith, x), space-newline s h)

in_bytes-NoByte : (v : Text) (n : Option ℕ) → NoByte b'\n' v → NoByte b'\n' (in_bytes v n)
in_bytes-NoByte v none h = h
in_bytes-NoByte v (some n) h = space-newline _ (print_nat-NoSpace ((n * 1024) % 2 ^ 64))

or_infinity :
    (v : Text) → NoByte b'\n' v → NoByte b'\n' (if is_unlimited v then bytes "infinity" else v)
or_infinity v h = elim (Bool-cases (is_unlimited v)) [ inl x ↦ rw x (search) | inr x ↦ rw x h ]

systemd_value-NoByte : (key v : Text) → NoByte b'\n' v → NoByte b'\n' (systemd_value key v)
unfolding systemd_value
systemd_value-NoByte key v h =
    elim (Bool-cases (text_eq key (bytes "stack") && not (is_unlimited v))) [
      | inl x ↦ rw x (or_infinity _ (in_bytes-NoByte v (parse_uint v) h))
      | inr x ↦ rw x (or_infinity v h)
    ]

line-split :
    (m v rest : Text)
    → NoByte b'\n' m
    → NoByte b'\n' v
    → split b'\n' ((m ++ (b'=' ∷ (v ++ bytes "\n"))) ++ rest) ≡ (m ++ (b'=' ∷ v)) ∷ split b'\n' rest
line-split m v rest hm hv =
    let e : (m ++ (b'=' ∷ (v ++ bytes "\n"))) ++ rest ≡ (m ++ (b'=' ∷ v)) ++ (b'\n' ∷ rest) =
      simp append_assoc in
    rw e (split-piece b'\n' (m ++ (b'=' ∷ v)) rest (All-append _ m (b'=' ∷ v) hm (refl, hv)))

-- What the reader is to find for a key of the table.
abbrev wanted : Text → Rlimits → Option Text → Option Text
wanted key rlimits none = none
wanted key rlimits (some name) = setting key (lookup key rlimits)

wanted-none :
    (key : Text) (rlimits : Rlimits) (found : Option Text)
    → lookup key rlimits ≡ none
    → wanted key rlimits found ≡ none
wanted-none key rlimits none h = refl
wanted-none key rlimits (some name) h = rw h

found_under-nothing : (name : Text) → found_under name (split b'\n' []) ≡ none
unfolding found_under split cut
found_under-nothing name = refl

-- The reader at the body of the file, for any such table.
found_under-body :
    (key name : Text) (order : List (Text × Text)) (rlimits : Rlimits)
    → AreLines rlimits
    → All IsName order
    → All (Same key name) order
    → found_under name (split b'\n' (systemd_body order rlimits))
      ≡ wanted key rlimits (lookup key order)
unfolding systemd_body lookup
found_under-body key name [] rlimits a n s = found_under-nothing name
found_under-body key name ((k, m) ∷ order) rlimits a ((nl, eq), ns) (s, ss) =
    let ih = found_under-body key name order rlimits a ns ss in
    let same = (text_eq_iff k key).0 in
    elim (Option-cases (lookup k rlimits)) [
      | inl x ↦ elim (Bool-cases (text_eq k key)) [
        | inl y ↦
            let absent = subst (λ j. lookup j rlimits ≡ none) (same y) x in
            rw (x, y)
              (ih
                ∙ wanted-none key rlimits (lookup key order) absent
                ∙ sym (wanted-none key rlimits (some m) absent))
        | inr y ↦ rw (x, y) ih
      ]
      | inr (v, x) ↦
          let value = systemd_value-NoByte k v (lookup-All _ k v rlimits a x) in
          let line = line-split m (systemd_value k v) (systemd_body order rlimits) nl value in
          let read =
            found_under-line name m (systemd_value k v) (split b'\n' (systemd_body order rlimits))
              eq in
          elim (Bool-cases (text_eq k key)) [
            | inl y ↦
                let found = subst (λ j. lookup j rlimits ≡ some v) (same y) x in
                rw (x, line, read, s, y, found) (ap (λ j. some (systemd_value j v)) (same y))
            | inr y ↦ rw (x, line, read, s, y) ih
          ]
    ]

-- A line without an assignment.
found_under-skip :
    (name l rest : Text)
    → NoByte b'\n' l
    → NoByte b'=' l
    → found_under name (split b'\n' (l ++ (b'\n' ∷ rest))) ≡ found_under name (split b'\n' rest)
unfolding found_under
found_under-skip name l rest hl he =
    rw (split-piece b'\n' l rest hl, cut-NoByte b'=' l he, found_under) refl

found_under-heading :
    (name body : Text)
    → found_under name (
        split b'\n' (
          concat (
            bytes "# Generated by tcsss - systemd default resource limits\n"
            ∷ bytes "# Reload: systemctl daemon-reexec\n\n"
            ∷ bytes "[Manager]\n"
            ∷ body
            ∷ [])))
      ≡ found_under name (split b'\n' body)
found_under-heading name body =
    found_under-skip name (bytes "# Generated by tcsss - systemd default resource limits") _
      (search) (search)
    ∙ found_under-skip name (bytes "# Reload: systemctl daemon-reexec") _ (search) (search)
    ∙ found_under-skip name [] _ tt tt
    ∙ found_under-skip name (bytes "[Manager]") _ (search) (search)
    ∙ ap (λ b. found_under name (split b'\n' b)) (append-nil body)

conf-found_under :
    (rlimits : Rlimits) (key name : Text)
    → AreLines rlimits
    → lookup key systemd_order ≡ some name
    → found_under name (split b'\n' (generate_systemd_conf rlimits))
      ≡ setting key (lookup key rlimits)
unfolding generate_systemd_conf
conf-found_under [] key name a h = found_under-nothing name
conf-found_under (e ∷ rlimits) key name a h =
    let all_same =
      lookup-All (λ f. All (Same f.0 f.1) systemd_order) key name systemd_order systemd_order-Same
        h in
    found_under-heading name (systemd_body systemd_order (e ∷ rlimits))
    ∙ rw h at
        (found_under-body key name systemd_order (e ∷ rlimits) a systemd_order-IsName all_same)

-- Whatever the templates hold: in the file for systemd, a reader finds for each name of the table the
-- value that the limit of its resource becomes, and nothing where the templates give it no limit.
pub generate_systemd_conf-found_under :
    {W : Type 0} (templates : TemplateSet W) (key name : Text)
    → lookup key systemd_order ≡ some name
    → found_under name
        (split b'\n' (generate_systemd_conf (load_rlimits_from_templates templates [])))
      ≡ setting key (lookup key (load_rlimits_from_templates templates []))
generate_systemd_conf-found_under templates key name h =
    conf-found_under (load_rlimits_from_templates templates []) key name (load-AreLines templates) h
