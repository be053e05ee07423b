-- ===== src/Config/Tiers/Scan.antt =====
-- Where the template directory offers a memory tier.
use tcsss.Prelude.{
  All, ◌≡◌, ◌⊎◌, refl, Bool, true, false, Option, none, some, List, [], ◌∷◌, ◌++◌, arith,
  Bool-cases, inl, inr, Option-cases, if◌then◌else◌, any, is_some,
}
use tcsss.Text.Ops.{Text, bytes, text_eq, to_lower, drop_prefix, is_empty}
use tcsss.Traffic.Env.{ok}
use tcsss.Double.{Double}
use tcsss.System.{System, DirEntry, Log}
use tcsss.Config.Tiers.{
  MemoryTierConfig, SortSlice, match_tier, with_unit, unit_of, span_size, starts_with_digit,
  in_megabytes, entry_tier, entry_tiers, smaller, sorted_tiers, scan_memory_tier_configs,
}

-- A file whose name, in any case, is that of a memory tier.
unfoldable pub is_tier_file : DirEntry → Bool
unfolding match_tier to_lower
is_tier_file entry = if entry.is_dir then false else is_some (match_tier (to_lower entry.name))

abbrev IsUnit : Text → Type 0
IsUnit unit = (unit ≡ bytes "mb") ⊎ ((unit ≡ bytes "gb") ⊎ (unit ≡ bytes "tb"))

unit_of-IsUnit : (s unit : Text) → unit_of s ≡ some unit → IsUnit unit
unfolding unit_of
unit_of-IsUnit s unit h = elim (Bool-cases (text_eq s (bytes "mb.conf"))) [
  | inl m ↦ inl (ground (arith, rw m at h))
  | inr m ↦ elim (Bool-cases (text_eq s (bytes "gb.conf"))) [
    | inl g ↦ inr (inl (ground (arith, rw (m, g) at h)))
    | inr g ↦ elim (Bool-cases (text_eq s (bytes "tb.conf"))) [
      | inl t ↦ inr (inr (ground (arith, rw (m, g, t) at h)))
      | inr t ↦ absurd (ground (arith, rw (m, g, t) at h))
    ]
  ]
]

with_unit-IsUnit :
    (s size unit : Text) (o : Option Text)
    → ((u : Text) → o ≡ some u → IsUnit u)
    → with_unit s o ≡ some (size, unit)
    → IsUnit unit
with_unit-IsUnit s size unit none f h = absurd (ground (arith, h))
with_unit-IsUnit s size unit (some u) f h = ground (arith, f u refl, h)

match_tier-IsUnit : (name size unit : Text) → match_tier name ≡ some (size, unit) → IsUnit unit
unfolding match_tier
match_tier-IsUnit name size unit h = elim (Option-cases (drop_prefix (bytes "limits_") name)) [
  | inl n ↦ absurd (ground (arith, rw n at h))
  | inr (s, e) ↦ elim (Bool-cases (starts_with_digit s)) [
    | inr f ↦ absurd (ground (arith, rw (e, f) at h))
    | inl f ↦
        with_unit-IsUnit (span_size s).0 size unit (unit_of (span_size s).1)
          (unit_of-IsUnit (span_size s).1) (rw (e, f) at h)
  ]
]

append-nonempty {ℓ} :
    {A : Type ℓ} (xs ys : List A) → is_empty ys ≡ false → is_empty (xs ++ ys) ≡ false
append-nonempty [] ys h = h
append-nonempty (x ∷ xs) ys h = refl

module _ {W : Type 0} (d : Double W) (sort_slice : SortSlice W) (system : System) where
  sorted_tiers-ok :
      (template_dir : Text) (ts : List (MemoryTierConfig W))
      → is_empty ts ≡ false
      → sorted_tiers d sort_slice system template_dir ts ≡ ok (sort_slice (smaller d) ts)
  sorted_tiers-ok template_dir [] h = absurd (ground (arith, h))
  sorted_tiers-ok template_dir (t ∷ ts) h = refl

module _ {W : Type 0} (d : Double W) where
  in_megabytes-unit :
      (size : W) (unit : Text) → IsUnit unit → is_some (in_megabytes d size unit) ≡ true
  unfolding in_megabytes text_eq
  in_megabytes-unit size unit (inl m) = rw m refl
  in_megabytes-unit size unit (inr (inl g)) = rw g refl
  in_megabytes-unit size unit (inr (inr t)) = rw t refl

  abbrev parsed_size : Option (Text × Text) → Bool
  parsed_size none = true
  parsed_size (some (size, unit)) = is_some (d.parse size)

  -- The size in the file's name can be parsed, if it has one.
  unfoldable pub size_parses : DirEntry → Bool
  unfolding match_tier to_lower
  size_parses e = parsed_size (match_tier (to_lower e.name))

  entry_tier-append :
      (e : DirEntry) (ts : List (MemoryTierConfig W))
      → size_parses e ≡ true
      → is_tier_file e ≡ true
      → is_empty (entry_tier d e ++ ts) ≡ false
  unfolding entry_tier is_tier_file size_parses
  entry_tier-append e ts s h = elim (Bool-cases e.is_dir) [
    | inl x ↦ absurd (ground (arith, rw x at h))
    | inr x ↦ elim (Option-cases (match_tier (to_lower e.name))) [
      | inl n ↦ absurd (ground (arith, rw (x, n) at h))
      | inr (m, f) ↦
          let p : is_some (d.parse m.0) ≡ true = rw f at s in
          elim (Option-cases (d.parse m.0)) [
            | inl n ↦ absurd (ground (arith, rw n at p))
            | inr (v, g) ↦
                let q = in_megabytes-unit v m.1 (match_tier-IsUnit (to_lower e.name) m.0 m.1 f) in
                elim (Option-cases (in_megabytes d v m.1)) [
                  | inl n ↦ absurd (ground (arith, rw n at q))
                  | inr (w, k) ↦ rw (x, f, g, k) refl
                ]
          ]
    ]
  ]

  entry_tiers-nonempty :
      (es : List DirEntry)
      → All (λ e. size_parses e ≡ true) es
      → any is_tier_file es ≡ true
      → is_empty (entry_tiers d es) ≡ false
  unfolding entry_tiers
  entry_tiers-nonempty [] ps h = absurd (ground (arith, h))
  entry_tiers-nonempty (e ∷ es) (p, ps) h = elim (Bool-cases (is_tier_file e)) [
    | inl x ↦ entry_tier-append e (entry_tiers d es) p x
    | inr x ↦
        append-nonempty (entry_tier d e) (entry_tiers d es) (entry_tiers-nonempty es ps (rw x at h))
  ]

  -- A directory with a tier's file has tiers.
  pub scan-tiers :
      (sort_slice : SortSlice W) (system : System) (template_dir : Text) (log : Log)
      (entries : List DirEntry)
      → All (λ e. size_parses e ≡ true) entries
      → system.entries log template_dir ≡ ok entries
      → any is_tier_file entries ≡ true
      → (scan_memory_tier_configs d sort_slice system template_dir log).0
        ≡ ok (sort_slice (smaller d) (entry_tiers d entries))
  unfolding scan_memory_tier_configs
  scan-tiers sort_slice system template_dir log entries ps h f = rw h (
      sorted_tiers-ok d sort_slice system template_dir (entry_tiers d entries)
        (entry_tiers-nonempty entries ps f))
