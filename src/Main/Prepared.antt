-- ===== src/Main/Prepared.antt =====
-- What `main` hands to the daemon.
use tcsss.Prelude.Int.{pos, int_eq}
use tcsss.Prelude.{
  ◌≡◌, refl, true, false, Option, [], ◌∷◌, M, ◌>>=◌, return, Option-cases, inl, inr, if◌then◌else◌,
}
use tcsss.Text.Ops.{Text, mem, is_empty}
use tcsss.Errors.{GoError}
use tcsss.Traffic.Env.{Result, ok, err}
use tcsss.System.{System, Log, ◌and_then◌, checked}
use tcsss.Double.{Double}
use tcsss.Config.Mode.{TrafficMode, TrafficInitConfig, traffic_mode_client}
use tcsss.Config.Selector.{load_traffic_init_config}
use tcsss.Config.Selector.Loaded.{
  Result-cases, IsUsable, known_modes, load_traffic_init_config-IsUsable,
}
use tcsss.Detector.Modules.{validate_kernel_modules}
use tcsss.Detector.Runtime.{validate_runtime}
use tcsss.Syslimit.Sysctl.Apply.{new_sysctl_conf_applier}
use tcsss.Syslimit.Limits.Apply.{new_limits_conf_applier}
use tcsss.Main.{Services, services, main, resolve_template_dir, chosen_mode}

-- The value of a result, if it has one, satisfies P.
abbrev pub OnValue : {A : Type 0} → (A → Type 0) → Result A → Type 0
OnValue P (ok a) = P a
OnValue P (err e) = Unit

and_then-OnValue :
    {A B : Type 0} (P : B → Type 0) (m : M Log (Result A)) (f : A → M Log (Result B))
    → ((a : A) (l : Log) → OnValue P (f a l).0)
    → (log : Log) → OnValue P ((m and_then f) log).0
and_then-OnValue P m f h log = elim (Result-cases (m log).0) [
  | inl (e, x) ↦ rw (OnValue, x) tt
  | inr (a, x) ↦ rw (OnValue, x) (h a (m log).1)
]

checked-OnValue :
    {A : Type 0} (P : A → Type 0) (m : M Log (Option GoError)) (next : M Log (Result A))
    → ((l : Log) → OnValue P (next l).0)
    → (log : Log) → OnValue P (checked m next log).0
checked-OnValue P m next h log = elim (Option-cases (m log).0) [
  | inl n ↦ rw (OnValue, n) (h (m log).1)
  | inr (e, x) ↦ rw (OnValue, x) tt
]

-- The windows that are not zero, one of the three modes, and one directory for all.
abbrev pub IsPrepared : Services → Type 0
IsPrepared s =
    (int_eq s.settings.routes.init_cwnd_bytes (pos 0) ≡ false)
    × (int_eq s.settings.routes.init_rwnd_bytes (pos 0) ≡ false)
    × (int_eq s.settings.routes.loopback_window_bytes (pos 0) ≡ false)
    × (mem s.sysctl_applier.mode known_modes ≡ true)
    × (s.limits_applier.template_dir ≡ s.sysctl_applier.template_dir)
    × (s.rlimit_dir ≡ s.sysctl_applier.template_dir)

known_or_client :
    (mode : TrafficMode)
    → mem mode known_modes ≡ true
    → mem (if is_empty mode then traffic_mode_client else mode) known_modes ≡ true
unfolding mem
known_or_client [] h = refl
known_or_client (c ∷ mode) h = h

services-IsPrepared :
    (template_dir : Text) (cfg : TrafficInitConfig)
    → IsUsable cfg
    → IsPrepared (services template_dir cfg)
unfolding services new_sysctl_conf_applier new_limits_conf_applier mem
services-IsPrepared template_dir cfg ((e, c, r, l), k) =
    (c, r, l, known_or_client cfg.mode k, refl, refl)

-- Where `main` gets to the call of `Run`, whatever the flags, the files and the environment are: none of
-- the window sizes for the routes is zero, the sysctl applier has one of the three modes, and the three
-- appliers have one template directory.
pub main-IsPrepared :
    {W : Type 0} (d : Double W) (message : GoError → Text) (system : System)
    (conf_flag mode_flag legacy_arg : Text) (log : Log)
    → OnValue IsPrepared (main d message system conf_flag mode_flag legacy_arg log).0
unfolding main
main-IsPrepared d message system conf_flag mode_flag legacy_arg log =
    let mode = chosen_mode mode_flag legacy_arg in
    let loaded : Text → M Log (Result Services) = λ dir.
      load_traffic_init_config d system dir mode >>= λ loaded.
      return (ok (services dir loaded.0)) in
    and_then-OnValue IsPrepared (resolve_template_dir system conf_flag)
      (λ dir.
        checked (validate_kernel_modules message system)
          (checked (validate_runtime message system) (loaded dir)))
      (λ dir.
        checked-OnValue IsPrepared (validate_kernel_modules message system)
          (checked (validate_runtime message system) (loaded dir))
          (checked-OnValue IsPrepared (validate_runtime message system) (loaded dir) (λ l.
            services-IsPrepared dir (load_traffic_init_config d system dir mode l).0.0
              (load_traffic_init_config-IsUsable d system dir mode l))))
      log
