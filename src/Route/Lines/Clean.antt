-- ===== src/Route/Lines/Clean.antt =====
-- `cleanRouteLine`: what it keeps of a route, and what it drops.
use mathlib.Core.List.{append-nil}
use tcsss.Prelude.{
  ℕ, zero, suc, ◌≡◌, refl, true, false, List, [], ◌∷◌, ◌++◌, All, Bool-cases, inl, inr, ◌∙◌, ap,
}
use tcsss.Text.Ops.{Text, bytes, text_eq, is_empty}
use tcsss.Route.Config.{Params, params_args}
use tcsss.Route.Lines.{is_window_key, starts_congctl, clean_from, clean_tokens}

-- A token that `cleanRouteLine` keeps wherever it stands.
abbrev pub IsPlain : Text → Type 0
IsPlain token = (is_window_key token ≡ false) × (text_eq token (bytes "congctl") ≡ false)

abbrev pub NotKey : Text → Type 0
NotKey token = is_window_key token ≡ false

clean_from-NotKey : (skip : ℕ) (tokens : List Text) → All NotKey (clean_from skip tokens)
unfolding clean_from
clean_from-NotKey zero [] = tt
clean_from-NotKey (suc k) [] = tt
clean_from-NotKey (suc k) (token ∷ rest) = clean_from-NotKey k rest
clean_from-NotKey zero (token ∷ rest) = elim (Bool-cases (is_window_key token)) [
  | inl key ↦ rw key (clean_from-NotKey 1 rest)
  | inr other ↦ elim (Bool-cases (starts_congctl token rest)) [
    | inl congctl ↦ rw (other, congctl) (clean_from-NotKey 2 rest)
    | inr plain ↦ rw (other, plain) (other, clean_from-NotKey zero rest)
  ]
]

-- No `mtu`, `initcwnd`, `initrwnd` or `fastopen_no_cookie` is left in a cleaned line.
clean_tokens-NotKey : (tokens : List Text) → All NotKey (clean_tokens tokens)
unfolding clean_tokens
clean_tokens-NotKey = clean_from-NotKey zero

clean_plain :
    (tokens rest : List Text)
    → All IsPlain tokens
    → clean_from zero (tokens ++ rest) ≡ tokens ++ clean_from zero rest
unfolding clean_from
clean_plain [] rest h = refl
clean_plain (token ∷ tokens) rest ((k, c), h) = rw (k, c, clean_plain tokens rest h)

clean_params : (p : Params) → clean_from zero (params_args p) ≡ []
unfolding clean_from is_window_key params_args text_eq
clean_params p = elim (Bool-cases (is_empty p.congctl)) [ inl e ↦ rw e | inr e ↦ rw e ]

-- A route of plain tokens that was changed with the parameters of the optimizer is read back as
-- the route before the change.
pub clean_tokens-params_args :
    (tokens : List Text) (p : Params)
    → All IsPlain tokens
    → clean_tokens (tokens ++ params_args p) ≡ tokens
unfolding clean_tokens
clean_tokens-params_args tokens p h =
    clean_plain tokens (params_args p) h ∙ rw (clean_params p, append-nil)

mtu_is_key : is_window_key (bytes "mtu") ≡ true
unfolding is_window_key
mtu_is_key = refl

clean_mtu_lock :
    (v : Text) (after : List Text)
    → IsPlain v
    → clean_from zero (bytes "mtu" ∷ bytes "lock" ∷ v ∷ after) ≡ v ∷ clean_from zero after
unfolding clean_from
clean_mtu_lock v after (k, c) = rw (mtu_is_key, k, c)

-- In a route with a locked MTU, `mtu lock v`, only the two words are dropped and `v` is left behind.
pub clean_tokens-mtu_lock :
    (before : List Text) (v : Text) (after : List Text)
    → All IsPlain before
    → IsPlain v
    → clean_tokens (before ++ (bytes "mtu" ∷ bytes "lock" ∷ v ∷ after))
      ≡ before ++ (v ∷ clean_tokens after)
unfolding clean_tokens
clean_tokens-mtu_lock before v after h p =
    clean_plain before (bytes "mtu" ∷ bytes "lock" ∷ v ∷ after) h
    ∙ ap (◌++◌ before) (clean_mtu_lock v after p)
