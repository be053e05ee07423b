-- ===== src/Detector/Modules/Required.antt =====
-- Which modules must be there.
use tcsss.Prelude.{
  ◌≡◌, ◌↔◌, refl, Bool, true, false, Option, none, some, [], ◌∷◌, ◌++◌, arith, ◌⊎◌, inl, inr,
  Option-cases,
}
use tcsss.Text.Ops.{Text, bytes}
use tcsss.Errors.{GoError}
use tcsss.Traffic.Env.{Result, ok, err}
use tcsss.System.{System, Log, stat, command}
use tcsss.Detector.Modules.{
  ModuleInfo, module_path, issue_of, missing_modules, ensure_module, module_issues,
  validate_kernel_modules,
}

abbrev conntrack : ModuleInfo
conntrack = record {
  name = bytes "nf_conntrack";
  required = false;
  description = bytes "Connection tracking for NAT optimization";
}

abbrev ifb : ModuleInfo
ifb = record {
  name = bytes "ifb";
  required = true;
  description = bytes "Intermediate Functional Block for ingress shaping";
}

abbrev cake : ModuleInfo
cake = record {
  name = bytes "sch_cake";
  required = true;
  description = bytes "CAKE qdisc for traffic shaping";
}

-- The calls made for a module after those in `log`: its directory is looked for; where it is not
-- there, `modprobe` is run, and where that succeeds the directory is looked for again.
abbrev pub calls_for : System → Text → Log → Log
calls_for system name log =
    let looked = log ++ (stat (module_path name) ∷ []) in
    let probed = looked ++ (command (bytes "modprobe") (name ∷ []) ∷ []) in
    elim (system.status log (module_path name)) [
      | ok is_dir ↦ looked
      | err e ↦ elim (system.run looked (bytes "modprobe") (name ∷ [])).failure [
        | some x ↦ probed
        | none ↦ probed ++ (stat (module_path name) ∷ [])
      ]
    ]

-- The module is loaded, or `modprobe` succeeds and its directory is there then.
pub data CanBeHad (system : System) (name : Text) (log : Log) : Type 0 where
  loaded :
      (is_dir : Bool) → system.status log (module_path name) ≡ ok is_dir → CanBeHad system name log
  probed :
      (e : GoError) (is_dir : Bool)
      → system.status log (module_path name) ≡ err e
      → (system.run (log ++ (stat (module_path name) ∷ [])) (bytes "modprobe") (name ∷ [])).failure
        ≡ none
      → system.status
          ((log ++ (stat (module_path name) ∷ [])) ++ (command (bytes "modprobe") (name ∷ []) ∷ []))
          (module_path name)
        ≡ ok is_dir
      → CanBeHad system name log

ensure_module-calls_for :
    (system : System) (info : ModuleInfo) (log : Log)
    → (ensure_module system info log).1 ≡ calls_for system info.name log
unfolding ensure_module
ensure_module-calls_for system info log = ground arith

status-cases : (r : Result Bool) → ((b : Bool) × (r ≡ ok b)) ⊎ ((e : GoError) × (r ≡ err e))
status-cases (ok b) = inl (b, refl)
status-cases (err e) = inr (e, refl)

CanBeHad-none :
    (system : System) (info : ModuleInfo) (log : Log)
    → CanBeHad system info.name log
    → (ensure_module system info log).0 ≡ none
unfolding ensure_module
CanBeHad-none system info log (loaded is_dir h) = rw h refl
CanBeHad-none system info log (probed e is_dir h r k) = rw (h, r, k) refl

none-CanBeHad :
    (system : System) (info : ModuleInfo) (log : Log)
    → (ensure_module system info log).0 ≡ none
    → CanBeHad system info.name log
unfolding ensure_module
none-CanBeHad system info log n =
    let path = module_path info.name in
    let looked = log ++ (stat path ∷ []) in
    let run = (system.run looked (bytes "modprobe") (info.name ∷ [])).failure in
    let after = looked ++ (command (bytes "modprobe") (info.name ∷ []) ∷ []) in
    elim (status-cases (system.status log path)) [
      | inl (is_dir, h) ↦ loaded is_dir h
      | inr (e, h) ↦ elim (Option-cases run) [
        | inr (x, r) ↦ cc (rw (h, r) at n)
        | inl r ↦ elim (status-cases (system.status after path)) [
          | inl (is_dir, k) ↦ probed e is_dir h r k
          | inr (x, k) ↦ cc (rw (h, r, k) at n)
        ]
      ]
    ]

ensure_module-CanBeHad :
    (system : System) (info : ModuleInfo) (log : Log)
    → ((ensure_module system info log).0 ≡ none) ↔ CanBeHad system info.name log
ensure_module-CanBeHad system info log =
    (none-CanBeHad system info log, CanBeHad-none system info log)

-- The calls made before those for ifb, before those for sch_cake, and in all.
abbrev pub before_ifb : System → Log → Log
before_ifb system log = calls_for system (bytes "nf_conntrack") log

abbrev pub before_cake : System → Log → Log
before_cake system log = calls_for system (bytes "ifb") (before_ifb system log)

missing_required :
    (message : GoError → Text) (i k : Option GoError)
    → (missing_modules (issue_of message ifb i ++ issue_of message cake k) ≡ none)
      ↔ ((i ≡ none) × (k ≡ none))
missing_required message none none = ((λ h. (refl, refl)), (λ h. refl))
missing_required message none (some e) = ground arith
missing_required message (some e) none = ground arith
missing_required message (some e) (some f) = ground arith

missing-none :
    (message : GoError → Text) (c i k : Option GoError)
    → (missing_modules (
          (([] ++ issue_of message conntrack c) ++ issue_of message ifb i)
          ++ issue_of message cake k)
        ≡ none)
      ↔ ((i ≡ none) × (k ≡ none))
missing-none message none i k = missing_required message i k
missing-none message (some e) i k = missing_required message i k

-- ValidateKernelModules looks for nf_conntrack, ifb and sch_cake, one after the other and whatever becomes
-- of them, and makes no other call. It returns nil exactly if ifb and sch_cake are loaded or `modprobe`
-- loads them; nf_conntrack may be missing.
pub validate_kernel_modules-required :
    (message : GoError → Text) (system : System) (log : Log)
    → ((validate_kernel_modules message system log).1
        ≡ calls_for system (bytes "sch_cake") (before_cake system log))
      × (((validate_kernel_modules message system log).0 ≡ none) ↔ (
          CanBeHad system (bytes "ifb") (before_ifb system log)
          × CanBeHad system (bytes "sch_cake") (before_cake system log)))
unfolding validate_kernel_modules module_issues
validate_kernel_modules-required message system log =
    let c = ensure_module-calls_for system conntrack log in
    let i = ensure_module-calls_for system ifb (before_ifb system log) in
    let (t, f) =
      missing-none message (ensure_module system conntrack log).0
        (ensure_module system ifb (before_ifb system log)).0
        (ensure_module system cake (before_cake system log)).0 in
    let (of_ifb, to_ifb) = ensure_module-CanBeHad system ifb (before_ifb system log) in
    let (of_cake, to_cake) = ensure_module-CanBeHad system cake (before_cake system log) in
    (
      rw (c, i) (ensure_module-calls_for system cake (before_cake system log)),
      (
        (λ h. let (x, y) = t (rw (c, i) at h) in (of_ifb x, of_cake y)),
        (λ h. let (x, y) = h in rw (c, i) (f (to_ifb x, to_cake y))),
      ),
    )
