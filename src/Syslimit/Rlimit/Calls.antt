-- ===== src/Syslimit/Rlimit/Calls.antt =====
-- The system calls of the loop of `Apply`.
use mathlib.Core.Path.{subst}
use mathlib.Core.List.{append-nil, append_assoc}
use tcsss.Prelude.{
  ℕ, ◌≡◌, refl, sym, Bool, false, ◌&&◌, ◌||◌, All, any, none, List, [], ◌∷◌, ◌++◌, arith,
  Bool-cases, inl, inr, if◌then◌else◌, ◌==◌,
}
use tcsss.Text.Ops.{Text, text_eq}
use tcsss.Traffic.Env.{ok}
use tcsss.System.{System, SystemCall, Log, Rlimit, get_rlimit, set_rlimit, poll_context}
use tcsss.Syslimit.Rlimit.{LimitConfig, LimitsMap, counted, is_set, set_limit, set_limits}

-- The calls for one limit: the limit is set only where it differs.
abbrev calls_for : Rlimit → LimitConfig → List SystemCall
calls_for current limit =
    poll_context
    ∷ get_rlimit limit.resource
    ∷ (if (current.cur == limit.soft) && (current.max == limit.hard)
        then []
        else set_rlimit limit.resource limit.soft limit.hard ∷ [])

abbrev pub calls_of : (Text → Rlimit) → LimitsMap → List SystemCall
calls_of current [] = []
calls_of current ((key, limit) ∷ limits) =
    calls_for (current limit.resource) limit ++ calls_of current limits

set_limit-calls :
    (system : System) (current : Rlimit) (limit : LimitConfig) (log : Log)
    → system.limit (log ++ (poll_context ∷ [])) limit.resource ≡ ok current
    → (set_limit system limit (log ++ (poll_context ∷ []))).1 ≡ log ++ calls_for current limit
unfolding set_limit
set_limit-calls system current limit log h = elim (Bool-cases (is_set current limit)) [
  | inl x ↦ rw (h, x) (append_assoc log (poll_context ∷ []) (get_rlimit limit.resource ∷ []))
  | inr x ↦
      rw
        (
          h,
          x,
          append_assoc log (poll_context ∷ []) (get_rlimit limit.resource ∷ []),
          append_assoc log (poll_context ∷ get_rlimit limit.resource ∷ [])
              (set_rlimit limit.resource limit.soft limit.hard ∷ []),
        )
        refl
]

-- The call sets this resource.
abbrev pub sets : Text → SystemCall → Bool
sets resource (set_rlimit r soft hard) = text_eq r resource
sets resource _ = false

-- No resource is the key of two limits.
abbrev pub AreDistinct : LimitsMap → Type 0
AreDistinct [] = Unit
AreDistinct ((key, limit) ∷ limits) =
    All (λ e. text_eq limit.resource e.1.resource ≡ false) limits × AreDistinct limits

-- No call has set one of the limits.
abbrev pub AreUnset : Log → LimitsMap → Type 0
AreUnset log limits = All (λ e. any (sets e.1.resource) log ≡ false) limits

any-append {ℓ} :
    {A : Type ℓ} (p : A → Bool) (xs ys : List A) → any p (xs ++ ys) ≡ (any p xs || any p ys)
any-append p [] ys = refl
any-append p (x ∷ xs) ys = ground (arith, any-append p xs ys)

sets-calls_for :
    (current : Rlimit) (limit : LimitConfig) (resource : Text)
    → text_eq limit.resource resource ≡ false
    → any (sets resource) (calls_for current limit) ≡ false
sets-calls_for current limit resource h = elim (Bool-cases (is_set current limit)) [
  | inl x ↦ rw x refl
  | inr x ↦ rw (x, h) refl
]

AreUnset-step :
    (current : Rlimit) (limit : LimitConfig) (log : Log) (limits : LimitsMap)
    → All (λ e. text_eq limit.resource e.1.resource ≡ false) limits
    → AreUnset log limits
    → AreUnset (log ++ calls_for current limit) limits
AreUnset-step current limit log [] d u = tt
AreUnset-step current limit log ((key, other) ∷ limits) (d, ds) (u, us) = (
  rw (any-append (sets other.resource) log (calls_for current limit), u)
      (sets-calls_for current limit other.resource d),
  AreUnset-step current limit log limits ds us,
)

-- Where the context is not done, and a limit reads the same as long as it is not set, the loop reads each
-- limit of the map once and sets it exactly if a value differs, whatever setting another limit gave.
pub set_limits-calls :
    (system : System) (current : Text → Rlimit) (limits : LimitsMap) (applied : ℕ) (log : Log)
    → ((l : Log) → system.context_error l ≡ none)
    → ((l : Log) (resource : Text)
        → any (sets resource) l ≡ false
        → system.limit l resource ≡ ok (current resource))
    → AreDistinct limits
    → AreUnset log limits
    → (set_limits system limits applied log).1 ≡ log ++ calls_of current limits
unfolding set_limits
set_limits-calls system current [] applied log c h d u = sym (append-nil log)
set_limits-calls system current ((key, limit) ∷ limits) applied log c h (d, ds) (u, us) =
    let after = log ++ (poll_context ∷ []) in
    let (e, next) = set_limit system limit after in
    let unset = any-append (sets limit.resource) log (poll_context ∷ []) in
    let read = h after limit.resource (rw (unset, u) refl) in
    let step = set_limit-calls system (current limit.resource) limit log read in
    let fresh = AreUnset-step (current limit.resource) limit log limits d us in
    let rest =
      set_limits-calls system current limits (counted applied e) next c h ds
        (subst (λ l. AreUnset l limits) (sym step) fresh) in
    rw
      (
        c log,
        rest,
        step,
        append_assoc log (calls_for (current limit.resource) limit) (calls_of current limits),
      )
      refl
