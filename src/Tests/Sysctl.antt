-- ===== src/Tests/Sysctl.antt =====
-- The text functions of sysctl.conf on a small file.
use tcsss.Prelude.{◌≡◌, refl, List, [], ◌∷◌, All, keep}
use tcsss.Text.Ops.{Text, bytes, text_eq}
use tcsss.Text.Maps.{lookup}
use tcsss.Syslimit.Sysctl.{Params, line_key, merge_lines, parse_template}
use tcsss.Syslimit.Sysctl.Merge.{IsReadBack}
use tcsss.Syslimit.Sysctl.Merge.Foreign.{is_other, keep-merge_lines}

abbrev params : Params
params = (bytes "net.core.somaxconn", bytes "4096") ∷ (bytes "vm.swappiness", bytes "10") ∷ []

abbrev conf : List Text
conf = bytes "# local" ∷ bytes "kernel.panic = 5" ∷ bytes "vm.swappiness=60 # old" ∷ [] ∷ []

params-IsReadBack : All (IsReadBack params) params
unfolding line_key lookup text_eq
params-IsReadBack = ((refl, refl, refl), ((refl, refl, refl), tt))

merged :
    merge_lines conf params
    ≡ bytes "# local"
      ∷ bytes "kernel.panic = 5"
      ∷ bytes "vm.swappiness = 10"
      ∷ []
      ∷ []
      ∷ bytes "# tcsss managed parameters"
      ∷ bytes "net.core.somaxconn = 4096"
      ∷ []
unfolding merge_lines
merged = refl

parsed :
    parse_template (bytes "vm.swappiness = 10 # low\nrlimit.nofile = 5\nlimits=3\n" ∷ [])
    ≡ (bytes "vm.swappiness", bytes "10") ∷ []
unfolding parse_template
parsed = refl

keep-merge_lines_example :
    keep (is_other params) (merge_lines conf params) ≡ keep (is_other params) conf
keep-merge_lines_example = keep-merge_lines params params-IsReadBack conf
