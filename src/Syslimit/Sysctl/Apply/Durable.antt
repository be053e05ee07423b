-- ===== src/Syslimit/Sysctl/Apply/Durable.antt =====
-- `Apply` returns nil: what has become of sysctl.conf.
use mathlib.Core.Path.{subst}
use tcsss.Prelude.{
  ◌≡◌, refl, sym, ap, ◌∙◌, inl, inr, Option, none, some, [], ◌∷◌, ◌++◌, M, ◌>>=◌, return,
  Bool-cases,
}
use tcsss.Text.Ops.{Text, bytes, text_eq}
use tcsss.Text.Maps.{text_eq_iff}
use tcsss.Errors.{GoError}
use tcsss.Traffic.Env.{Result, ok, err}
use tcsss.System.{System, Log, poll_context, read_file, in_context, request}
use tcsss.Config.Mode.{traffic_template_content}
use tcsss.Config.Selector.{TemplateSet, detect_template_set, or_no_templates}
use tcsss.Double.{Double}
use tcsss.Config.Tiers.{SortSlice}
use tcsss.Syslimit.Sysctl.{Params, merge_text, parse_template}
use tcsss.Syslimit.Sysctl.Apply.{
  SysctlConfApplier, write_config_and_reload, bring_in, or_empty, not_empty,
  build_template_parameters, apply_sysctl, set_transparent_hugepage, load_existing_config,
}
use tcsss.Syslimit.Sysctl.Apply.Written.{
  unless_failed-none, IsWritten, write_config-IsWritten, hugepage_calls,
}

not_empty-ok : (ps params : Params) → not_empty ps ≡ ok params → params ≡ ps
not_empty-ok [] params h = cc
not_empty-ok (p ∷ ps) params h = cc

of_role :
    (common specific : Text) (content : Result Text) (params : Params)
    → (elim (in_context (bytes "load traffic template") content) [
      | err e ↦ err e
      | ok role ↦ not_empty (parse_template (common ∷ specific ∷ role ∷ []))
    ])
      ≡ ok params
    → (role : Text) × (content ≡ ok role)
      × (params ≡ parse_template (common ∷ specific ∷ role ∷ []))
of_role common specific (err e) params h = cc
of_role common specific (ok role) params h =
    (role, refl, not_empty-ok (parse_template (common ∷ specific ∷ role ∷ [])) params h)

module _ {W : Type 0} (d : Double W) (sort_slice : SortSlice W) (system : System) where
  -- What `loadExistingConfig` gives, and what is to be in the file.
  abbrev pub existing : SysctlConfApplier → Log → Text
  existing sca log = or_empty (system.contents log sca.path)

  abbrev pub wanted : (Params → Params) → SysctlConfApplier → Params → Log → Text
  wanted visit sca params log = merge_text (existing sca log) (visit params)

  -- The file already held the merged text, and was only read; or the merged text has been written and
  -- synced and `sysctl --system` run, in this order and before all other calls.
  pub data Settled (visit : Params → Params) (sca : SysctlConfApplier) (params : Params)
      (log after : Log) : Type 0 where
    unchanged :
        existing sca log ≡ wanted visit sca params log
        → after ≡ log ++ (read_file sca.path ∷ [])
        → Settled visit sca params log after
    brought_in :
        (middle behind : Log)
        → IsWritten system sca.path
            (wanted visit sca params log)
            (log ++ (read_file sca.path ∷ []))
            middle
        → after ≡ middle ++ behind
        → Settled visit sca params log after

  bring_in-Settled :
      (visit : Params → Params) (sca : SysctlConfApplier) (params : Params) (log : Log)
      → (bring_in d sort_slice system visit sca params log).0 ≡ none
      → Settled visit sca params log (bring_in d sort_slice system visit sca params log).1
  unfolding bring_in load_existing_config
  bring_in-Settled visit sca params log h =
      let text = wanted visit sca params log in
      let opened = log ++ (read_file sca.path ∷ []) in
      elim (Bool-cases (text_eq (existing sca log) text)) [
        | inl x ↦ unchanged ((text_eq_iff (existing sca log) text).0 x) (rw x refl)
        | inr x ↦
            let hugepage : M Log (Option GoError) =
              set_transparent_hugepage system >>= λ _. return none in
            let (w, r, e) =
              unless_failed-none (write_config_and_reload system sca.path text) hugepage opened
                (rw x at h) in
            let (behind, b) =
              hugepage_calls system (write_config_and_reload system sca.path text opened).1 in
            brought_in _ behind (write_config-IsWritten system sca.path text opened w)
              (rw x (ap (λ (p : Option GoError × Log). p.1) e ∙ b))
      ]

  -- What follows the search for the parameters.
  abbrev continue :
      (Params → Params) → SysctlConfApplier → Result Params × Log → Option GoError × Log
  continue visit sca built =
      let next : M Log (Option GoError) = elim built.0 [
        | err e ↦ return (some e)
        | ok params ↦ bring_in d sort_slice system visit sca params
      ] in
      next built.1

  -- The template set that `Apply` gets, and the log then.
  abbrev detection : SysctlConfApplier → Log → TemplateSet W × Log
  detection sca log =
      let found =
        detect_template_set d sort_slice system sca.template_dir (log ++ (poll_context ∷ [])) in
      (or_no_templates d found.0, found.1)

  -- The parameters of the traffic template `role` and of the templates for the memory of the machine,
  -- which are empty where their detection fails.
  abbrev pub parameters : SysctlConfApplier → Log → Text → Params
  parameters sca log role =
      let set = (detection sca log).0 in parse_template (set.common ∷ set.specific ∷ role ∷ [])

  -- The traffic template that `Apply` reads.
  abbrev pub IsRole : SysctlConfApplier → Log → Text → Type 0
  IsRole sca log role =
      (traffic_template_content system sca.template_dir sca.mode (detection sca log).1).0 ≡ ok role

  settle :
      (visit : Params → Params) (sca : SysctlConfApplier) (log : Log) (built : Result Params × Log)
      → ((params : Params)
          → built.0 ≡ ok params
          → (role : Text) × IsRole sca log role × (params ≡ parameters sca log role))
      → (continue visit sca built).0 ≡ none
      → (role : Text) × IsRole sca log role
        × Settled visit sca (parameters sca log role) built.1 (continue visit sca built).1
  settle visit sca log (err e, after) b h = cc
  settle visit sca log (ok params, after) b h =
      let (role, r, e) = b params refl in
      (role, r, rw (← e) (bring_in-Settled visit sca params after h))

  -- Where `Apply` returns nil, it has read the mode's traffic template, and sysctl.conf already held the
  -- merge of the parameters into it and was only read; or that merge has been written to the file and
  -- synced, and then `sysctl --system` has been run, which succeeded, or failed with a text that says
  -- it cannot stat a parameter. The parameters are those of the traffic template and of the two that
  -- are detected for the machine's memory; where that detection fails, of the traffic template only.
  pub apply_sysctl-Settled :
      (visit : Params → Params) (sca : SysctlConfApplier) (log : Log)
      → (apply_sysctl d sort_slice system visit sca log).0 ≡ none
      → (role : Text) × (before : Log) × IsRole sca log role
        × Settled visit sca
            (parameters sca log role)
            before
            (apply_sysctl d sort_slice system visit sca log).1
  unfolding apply_sysctl build_template_parameters
  apply_sysctl-Settled visit sca log h =
      let poll : M Log (Option GoError) = request (λ l. system.context_error l) poll_context in
      let rest : M Log (Option GoError) =
        detect_template_set d sort_slice system sca.template_dir >>= λ templates.
        build_template_parameters d sort_slice system sca (or_no_templates d templates) >>= λ built.
        elim built [
          | err e ↦ return (some e)
          | ok params ↦ bring_in d sort_slice system visit sca params
        ] in
      let (c, r, e) = unless_failed-none poll rest log h in
      let (set, found) = detection sca log in
      let built = build_template_parameters d sort_slice system sca set found in
      let role_of =
        of_role set.common set.specific
          (traffic_template_content system sca.template_dir sca.mode found).0 in
      let (role, t, s) = settle visit sca log built role_of r in
      (
        role,
        built.1,
        t,
        subst
            (λ (p : Option GoError × Log). Settled visit sca (parameters sca log role) built.1 p.1)
            (sym e) s,
      )
