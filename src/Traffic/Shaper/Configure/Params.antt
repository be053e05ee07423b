-- ===== src/Traffic/Shaper/Configure/Params.antt =====
-- The MTU and the queue length that a profile asks for.
use tcsss.Prelude.Int.{ℤ, pos, negsuc}
use tcsss.Prelude.{ℕ, ◌≡◌, ◌↔◌, ◌≤◌, refl, Option, none, some, [], arith}
use tcsss.Text.Ops.{Text}
use tcsss.Text.Number.{atoi}
use tcsss.Text.Number.RoundTrip.{atoi-itoa, FitsInt}
use tcsss.Traffic.Env.{LinkAttrs}
use tcsss.Traffic.Profiles.{ShapingProfile}
use tcsss.Traffic.Shaper.Configure.{
  accept, check_queue, check_mtu, parse_profile_parameters, derive_profile_parameters,
}

-- The bounds of internal/config/constants.go, as an order on numbers.
abbrev pub InRange : ℕ → ℕ → ℤ → Type 0
InRange lo hi (pos n) = (lo ≤ n) × (n ≤ hi)
InRange lo hi (negsuc n) = ⊥

check_queue-accept :
    (iface profile_name queue_length : Text) (m : ℤ) (q : Option ℤ) (a b : ℤ)
    → (check_queue iface profile_name queue_length m q ≡ accept (a, b))
      ↔ ((m ≡ a) × (q ≡ some b) × InRange 1 1000000 b)
unfolding check_queue
check_queue-accept iface profile_name queue_length m none a b = (λ h. cc, λ (x, y, z). cc)
check_queue-accept iface profile_name queue_length m (some (pos n)) a (pos k) =
    (λ h. ground arith, λ (x, y, z). ground arith)
check_queue-accept iface profile_name queue_length m (some (pos n)) a (negsuc k) =
    (λ h. ground arith, λ (x, y, z). ground arith)
check_queue-accept iface profile_name queue_length m (some (negsuc n)) a b =
    (λ h. ground arith, λ (x, y, z). ground arith)

check_mtu-accept :
    (iface profile_name mtu_str queue_length : Text) (m : Option ℤ) (a b : ℤ)
    → (check_mtu iface profile_name mtu_str queue_length m ≡ accept (a, b))
      ↔ ((m ≡ some a) × InRange 68 65535 a × (atoi queue_length ≡ some b) × InRange 1 1000000 b)
unfolding check_mtu
check_mtu-accept iface profile_name mtu_str queue_length none a b = (λ h. cc, λ (x, y, z, w). cc)
check_mtu-accept iface profile_name mtu_str queue_length (some (pos m)) (pos n) b =
    let q =
      check_queue-accept iface profile_name queue_length (pos m) (atoi queue_length) (pos n) b in
    (λ h. ground (arith, q), λ (x, y, z, w). ground (arith, q))
check_mtu-accept iface profile_name mtu_str queue_length (some (pos m)) (negsuc n) b =
    let q =
      check_queue-accept iface profile_name queue_length (pos m) (atoi queue_length) (negsuc n) b in
    (λ h. ground (arith, q), λ (x, y, z, w). absurd y)
check_mtu-accept iface profile_name mtu_str queue_length (some (negsuc m)) a b =
    (λ h. cc, λ (x, y, z, w). ground arith)

-- The parameters are accepted exactly if both texts are numbers and these are in the bounds 68 to
-- 65535 for the MTU and 1 to 1000000 for the queue length; then they are those numbers.
pub parse_profile_parameters-accept :
    (iface mtu_str queue_length profile_name : Text) (a b : ℤ)
    → (parse_profile_parameters iface mtu_str queue_length profile_name ≡ accept (a, b)) ↔ (
        (atoi mtu_str ≡ some a)
        × InRange 68 65535 a
        × (atoi queue_length ≡ some b)
        × InRange 1 1000000 b)
unfolding parse_profile_parameters
parse_profile_parameters-accept iface mtu_str queue_length profile_name a b =
    check_mtu-accept iface profile_name mtu_str queue_length (atoi mtu_str) a b

-- A profile with no MTU of its own keeps the interface's MTU, if that fits Go's int: the text that
-- is derived from it parses to it.
derive_profile_parameters-atoi :
    (attrs : LinkAttrs) (profile : ShapingProfile)
    → profile.mtu_override ≡ []
    → FitsInt attrs.mtu
    → (atoi (derive_profile_parameters attrs profile).0 ≡ some attrs.mtu)
      × ((derive_profile_parameters attrs profile).1 ≡ profile.queue_length)
unfolding derive_profile_parameters
derive_profile_parameters-atoi attrs profile e h = (rw e (atoi-itoa attrs.mtu h), refl)
