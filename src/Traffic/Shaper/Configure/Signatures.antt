-- ===== src/Traffic/Shaper/Configure/Signatures.antt =====
-- When `configureProfile` keeps a signature, and what a kept signature saves.
use tcsss.Prelude.{
  ◌≡◌, ◌≢◌, ◌⊎◌, inl, inr, refl, Bool, true, false, Option, none, some, [], ◌∷◌, ◌++◌, arith,
  Bool-cases, if◌then◌else◌,
}
use tcsss.Text.Ops.{Text, is_empty}
use tcsss.Text.Maps.{lookup, insert, text_eq_refl}
use tcsss.Errors.{GoError}
use tcsss.Traffic.Env.{Env, LinkAttrs, link_by_name, Shaper, call}
use tcsss.Traffic.Commands.{Message}
use tcsss.Traffic.Profiles.{ShapingProfile}
use tcsss.Traffic.Ifb.{ifb_of}
use tcsss.Traffic.Shaper.Steps.{ProfileContext}
use tcsss.Traffic.Shaper.Configure.{
  Checked, accept, reject, Built, skip, build, fault, is_up, same_signature, context_of,
  desired_signature, is_already_configured, build_from, build_profile_context, run_profile_steps,
  profile_steps, finish, keep_signature, configure_profile,
}

module _ (env : Env) (message : Message) (a : LinkAttrs) (profile : ShapingProfile)
    (name : Text) where
  -- What `buildProfileContext` leaves alone, and what it puts into the context.
  abbrev FromContext : Shaper → Built × Shaper → Type 0
  FromContext s (skip, t) = t.applied_signatures ≡ s.applied_signatures
  FromContext s (fault e, t) = t.applied_signatures ≡ s.applied_signatures
  FromContext s (build pc, t) =
      (t.applied_signatures ≡ s.applied_signatures)
      × (pc.iface ≡ a.name)
      × (pc.signature ≡ desired_signature a profile)

  is_already_configured-applied :
      (iface sig : Text) (s : Shaper)
      → (is_already_configured env iface sig s).1.applied_signatures ≡ s.applied_signatures
  unfolding is_already_configured
  is_already_configured-applied iface sig s =
      elim (Bool-cases (same_signature (lookup iface s.applied_signatures) sig)) [
        | inl e ↦ rw e
        | inr e ↦ rw e
      ]

  context_of-FromContext :
      (c : Checked _) (done : Bool) (s t : Shaper)
      → t.applied_signatures ≡ s.applied_signatures
      → FromContext s (if done then skip else context_of a profile name c, t)
  context_of-FromContext c true s t e = e
  context_of-FromContext (accept (m, q)) false s t e = (e, refl, refl)
  context_of-FromContext (reject x) false s t e = e

  build-FromContext :
      (s : Shaper) → FromContext s (build_profile_context env (some a) profile name s)
  unfolding build_profile_context build_from
  build-FromContext s = elim (Bool-cases (is_empty a.name)) [
    | inl e ↦ rw e refl
    | inr e ↦
        let sig = desired_signature a profile in
        let (done, t) = is_already_configured env a.name sig s in
        rw e (context_of-FromContext _ done s t (is_already_configured-applied a.name sig s))
  ]

  abbrev pub Kept : Shaper → Option GoError × Shaper → Type 0
  Kept s p =
      (p.1.applied_signatures ≡ s.applied_signatures)
      ⊎ ((p.0 ≡ none)
          × (p.1.applied_signatures
              ≡ insert a.name (desired_signature a profile) s.applied_signatures))

  keep_signature-Kept :
      (pc : ProfileContext) (s u : Shaper) (r : Option GoError)
      → u.applied_signatures ≡ s.applied_signatures
      → pc.iface ≡ a.name
      → pc.signature ≡ desired_signature a profile
      → Kept s (keep_signature env message pc r u)
  keep_signature-Kept pc s u (some x) e i g = inl e
  keep_signature-Kept pc s u none e i g = inr (refl, rw (i, g, e))

  finish-Kept : (b : Built) (s t : Shaper) → FromContext s (b, t) → Kept s (finish env message b t)
  finish-Kept skip s t e = inl e
  finish-Kept (fault x) s t e = inl e
  finish-Kept (build pc) s t (e, i, g) =
      let (r, u) = call (run_profile_steps (profile_steps env message pc)) t in
      keep_signature-Kept pc s u r e i g

  -- The signatures change in one way only: if `configureProfile` returns nil it may have recorded the
  -- signature of the profile under the interface's name. After an error they are as before.
  pub configure_profile-signatures :
      (s : Shaper) → Kept s (configure_profile env message (some a) profile name s)
  unfolding configure_profile
  configure_profile-signatures s =
      let (b, t) = build_profile_context env (some a) profile name s in
      finish-Kept b s t (build-FromContext s)

  already :
      (s : Shaper)
      → lookup a.name s.applied_signatures ≡ some (desired_signature a profile)
      → is_up (env.named s.history (ifb_of a.name)) ≡ true
      → is_already_configured env a.name (desired_signature a profile) s
        ≡ (true, record s { history = s.history ++ (link_by_name (ifb_of a.name) ∷ []) })
  unfolding is_already_configured
  already s l u = rw (l, text_eq_refl, u)

  -- Where the signature is recorded and the interface's ifb device is up, `configureProfile` returns
  -- nil after a single look-up of that device, and changes nothing.
  pub configure_profile-skip :
      (s : Shaper)
      → a.name ≢ []
      → lookup a.name s.applied_signatures ≡ some (desired_signature a profile)
      → is_up (env.named s.history (ifb_of a.name)) ≡ true
      → configure_profile env message (some a) profile name s
        ≡ (none, record s { history = s.history ++ (link_by_name (ifb_of a.name) ∷ []) })
  unfolding configure_profile build_profile_context build_from
  configure_profile-skip s ne l u = elim (Bool-cases (is_empty a.name)) [
    | inl e ↦ absurd (ne (ground arith))
    | inr e ↦ rw (e, already s l u)
  ]
