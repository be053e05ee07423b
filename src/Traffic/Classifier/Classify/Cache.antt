-- ===== src/Traffic/Classifier/Classify/Cache.antt =====
-- The cache of `isVirtualInterface`, and what it does to `Classify`.
use tcsss.Prelude.{◌≡◌, refl, Option, none, some, Bool-cases, Option-cases, inl, inr}
use tcsss.Text.Ops.{Text, is_empty}
use tcsss.Text.Maps.{lookup, lookup-insert_self}
use tcsss.Traffic.Env.{Env, LinkAttrs, Shaper, call}
use tcsss.Traffic.Classifier.Detect.{is_virtual_interface, detect_virtual_hardware}
use tcsss.Traffic.Classifier.Patterns.{has_internal_virtual_prefix}
use tcsss.Traffic.Classifier.Classify.{classify_attrs, classify}

module _ (env : Env) where
  -- Asking again gives the same answer, with no further call and no change.
  is_virtual_interface_again :
      (name : Text) (s : Shaper)
      → is_virtual_interface env name (is_virtual_interface env name s).1
        ≡ is_virtual_interface env name s
  unfolding is_virtual_interface
  is_virtual_interface_again name s = elim (Bool-cases (is_empty name)) [
    | inl e ↦ rw e
    | inr e ↦ elim (Option-cases (lookup name s.virtual_cache)) [
      | inl l ↦
          let (v, t) = call (detect_virtual_hardware env name) s in
          rw (e, l, lookup-insert_self name v t.virtual_cache)
      | inr (b, l) ↦ rw (e, l, l)
    ]
  ]

  classify_again_attrs :
      (a : LinkAttrs) (s : Shaper)
      → classify_attrs env a (classify_attrs env a s).1 ≡ classify_attrs env a s
  unfolding classify_attrs
  classify_again_attrs a s = elim (Bool-cases a.flag_loopback) [
    | inl e ↦ rw e
    | inr e ↦ elim (Bool-cases (is_empty a.name)) [
      | inl f ↦ rw (e, f)
      | inr f ↦ elim (Bool-cases (has_internal_virtual_prefix a.name)) [
        | inl g ↦ rw (e, f, g)
        | inr g ↦ rw (e, f, g, is_virtual_interface_again a.name s)
      ]
    ]
  ]

  -- Classifying a link again, right after it was classified, gives the same class, makes no call of
  -- the outside world and changes nothing.
  pub classify_again :
      (attrs : Option LinkAttrs) (s : Shaper)
      → classify env attrs (classify env attrs s).1 ≡ classify env attrs s
  unfolding classify
  classify_again none s = refl
  classify_again (some a) s = classify_again_attrs a s
