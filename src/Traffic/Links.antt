-- ===== src/Traffic/Links.antt =====
-- internal/traffic/deps.go: the attributes and the name of the link with an index.
use tcsss.Prelude.Int.{ℤ}
use tcsss.Prelude.{
  ◌≡◌, refl, String, false, Option, none, some, ◌++◌, M, ◌>>=◌, return, Bool-cases, inl, inr,
  if◌then◌else◌, arith,
}
use tcsss.Text.Ops.{Text, bytes, is_empty}
use tcsss.Text.Number.{itoa}
use tcsss.Errors.{plain, wrapped}
use tcsss.Traffic.Env.{Env, Result, ok, err, Link, LinkAttrs, History, ask, link_by_index}

-- An error about an index.
abbrev at_index : String → ℤ → Text
at_index text index = bytes text ++ itoa index

abbrev checked_link : ℤ → Result (Option Link) → Result LinkAttrs
checked_link index (err e) = err (wrapped (at_index "link by index " index) e)
checked_link index (ok none) = err (plain (at_index "link is nil for index " index))
checked_link index (ok (some link)) = elim link.attrs [
  | none ↦ err (plain (at_index "link attrs is nil for index " index))
  | some attrs ↦ ok attrs
]

-- `safeGetLinkAttrs`
unfoldable pub safe_get_link_attrs : Env → ℤ → M History (Result LinkAttrs)
unfolding itoa
safe_get_link_attrs env index =
    ask (λ h. env.indexed h index) (link_by_index index) >>= λ r. return (checked_link index r)

abbrev checked_name : ℤ → Result LinkAttrs → Result Text
checked_name index (err e) = err e
checked_name index (ok attrs) =
    if is_empty attrs.name
    then err (plain (at_index "link name is empty for index " index))
    else ok attrs.name

-- `getLinkName`
unfoldable pub get_link_name : Env → ℤ → M History (Result Text)
unfolding safe_get_link_attrs itoa
get_link_name env index =
    safe_get_link_attrs env index >>= λ attrs. return (checked_name index attrs)

-- The attributes, where there is no error.
abbrev pub attrs_found : Result LinkAttrs → Option LinkAttrs
attrs_found (err e) = none
attrs_found (ok attrs) = some attrs

checked_name-ok :
    (index : ℤ) (r : Result LinkAttrs) (name : Text)
    → checked_name index r ≡ ok name
    → (a : LinkAttrs) × (r ≡ ok a) × (a.name ≡ name) × (is_empty name ≡ false)
checked_name-ok index (err e) name h = absurd (cc)
checked_name-ok index (ok a) name h = elim (Bool-cases (is_empty a.name)) [
  | inl e ↦ absurd (ground (arith, h, e))
  | inr e ↦ (a, refl, ground (arith, h, e), ground (arith, h, e))
]

-- A name that `getLinkName` returns is not empty, and is that of the attributes that
-- `safeGetLinkAttrs` returns.
get_link_name-ok :
    (env : Env) (index : ℤ) (h : History) (name : Text)
    → (get_link_name env index h).0 ≡ ok name
    → (a : LinkAttrs) × ((safe_get_link_attrs env index h).0 ≡ ok a)
      × (a.name ≡ name)
      × (is_empty name ≡ false)
unfolding get_link_name
get_link_name-ok env index h name e =
    checked_name-ok index (safe_get_link_attrs env index h).0 name e
