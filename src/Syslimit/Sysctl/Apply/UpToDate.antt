-- ===== src/Syslimit/Sysctl/Apply/UpToDate.antt =====
-- `Apply` where sysctl.conf is what an earlier `Apply` wrote.
use tcsss.Prelude.{◌≡◌, refl, none, List, [], ◌∷◌, ◌++◌}
use tcsss.Text.Ops.{Text}
use tcsss.Text.Maps.{text_eq_refl}
use tcsss.Traffic.Env.{ok}
use tcsss.System.{System, Log, read_file}
use tcsss.Double.{Double}
use tcsss.Config.Tiers.{SortSlice}
use tcsss.Syslimit.Sysctl.{Params, merge_text, parse_template}
use tcsss.Syslimit.Sysctl.Merge.Stable.{IsOrderOf}
use tcsss.Syslimit.Sysctl.Merge.Again.{merge_text_again}
use tcsss.Syslimit.Sysctl.Apply.{SysctlConfApplier, bring_in, load_existing_config}

-- Where sysctl.conf holds what a merge of the same templates' parameters gave, in whatever order that
-- merge visited them, the rest of `Apply` reads the file and returns nil: it neither writes the file nor
-- runs sysctl.
bring_in_again :
    {W : Type 0} (d : Double W) (sort_slice : SortSlice W) (system : System)
    (visit : Params → Params) (sca : SysctlConfApplier) (templates : List Text) (before : Text)
    (ps : Params) (log : Log)
    → IsOrderOf (parse_template templates) ps
    → IsOrderOf (parse_template templates) (visit (parse_template templates))
    → system.contents log sca.path ≡ ok (merge_text before ps)
    → bring_in d sort_slice system visit sca (parse_template templates) log
      ≡ (none, log ++ (read_file sca.path ∷ []))
unfolding bring_in load_existing_config
bring_in_again d sort_slice system visit sca templates before ps log o p h =
    let again = merge_text_again templates before ps (visit (parse_template templates)) o p in
    rw (h, again, text_eq_refl (merge_text before ps)) refl
