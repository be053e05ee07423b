-- ===== src/Route/Lines/Filters.antt =====
-- The filters of the jobs of `Optimize`.
use tcsss.Prelude.{◌≡◌, ◌↔◌, ◌&&◌, refl, true, false, Option, none, some, [], ◌∷◌, arith}
use tcsss.Text.Ops.{Text, bytes, has_prefix}
use tcsss.Text.Maps.{text_eq_iff}
use tcsss.Route.Lines.{extract_device, should_optimize_local, should_optimize_loopback}

-- The loopback job has exactly the lines that begin with `local ` and name the device lo; no line is
-- handled by the loopback and by the local job.
loopback_or_local :
    (line : Text)
    → ((should_optimize_loopback line ≡ true)
        ↔ ((has_prefix (bytes "local ") line ≡ true) × (extract_device line ≡ some (bytes "lo"))))
      × ((should_optimize_loopback line && should_optimize_local line) ≡ false)
unfolding should_optimize_loopback should_optimize_local
loopback_or_local [] = (unfold has_prefix in (λ h. cc, λ (h, _). cc), refl)
loopback_or_local (c ∷ cs) = on_device (extract_device (c ∷ cs)) refl
  where
    line : Text
    line = c ∷ cs

    on_device :
        (d : Option Text)
        → extract_device line ≡ d
        → ((should_optimize_loopback line ≡ true) ↔ (
            (has_prefix (bytes "local ") line ≡ true) × (extract_device line ≡ some (bytes "lo"))))
          × ((should_optimize_loopback line && should_optimize_local line) ≡ false)
    on_device none e = (ground arith, ground arith)
    on_device (some d) e =
        (ground (arith, text_eq_iff d (bytes "lo")), ground (arith, text_eq_iff d (bytes "lo")))
