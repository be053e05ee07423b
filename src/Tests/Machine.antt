-- ===== src/Tests/Machine.antt =====
-- Numbers in thousandths, and a small machine with two memory tiers and one traffic template.
use tcsss.Prelude.Int.{pos}
use tcsss.Prelude.{
  ℕ, String, ◌+◌, ◌-◌, ◌*◌, ◌/◌, Bool, true, false, ◌&&◌, none, some, List, [], ◌∷◌, if◌then◌else◌,
  ltb, leb,
}
use tcsss.Text.Ops.{Text, bytes, text_eq}
use tcsss.Errors.{plain}
use tcsss.Traffic.Env.{Result, ok, err}
use tcsss.System.{System, DirEntry}
use tcsss.Double.{Double}
use tcsss.Config.Tiers.{SortSlice}

-- The digits in front of the first other byte.
abbrev pub whole : ℕ → Text → ℕ
whole n [] = n
whole n (c ∷ cs) =
    let rest = whole (n * 10 + (c - b'0')) cs in if leb b'0' c && leb c b'9' then rest else n

abbrev pub thousandths : Double ℕ
thousandths = record {
  parse = λ s. some (1000 * whole 0 s);
  of_nat = λ n. 1000 * n;
  ratio = λ n m. (1000 * n) / m;
  mul = λ a b. (a * b) / 1000;
  div = λ a b. (1000 * a) / b;
  lt = ltb;
  le = leb;
  round = λ a. ((a + 500) / 1000) * 1000;
  to_int = λ a. pos (a / 1000);
}

abbrev put_in : {A : Type 0} → (A → A → Bool) → A → List A → List A
put_in before a [] = a ∷ []
put_in before a (b ∷ bs) =
    let rest = put_in before a bs in if before b a then b ∷ rest else a ∷ b ∷ bs

abbrev pub sorted : {A : Type 0} → (A → A → Bool) → List A → List A
sorted before [] = []
sorted before (a ∷ rest) = put_in before a (sorted before rest)

abbrev pub sort_slice : SortSlice ℕ
sort_slice before tiers = sorted before tiers

abbrev file : String → DirEntry
file name = record { name = bytes name; is_dir = false }

abbrev pub listing : List DirEntry
listing =
    file "1-Server.conf"
    ∷ file "common.conf"
    ∷ file "limits_1gb.conf"
    ∷ file "limits_512mb.conf"
    ∷ []

abbrev pub memory : Text
memory = bytes "MemTotal: 2048000 kB\n"

abbrev pub content_at : Text → Result Text
content_at path =
    if text_eq path (bytes "/proc/meminfo")
    then ok memory
    else if text_eq path (bytes "/etc/tcsss/common.conf")
    then ok (bytes "vm.swappiness = 10\nrlimit.nofile = 1024\n")
    else if text_eq path (bytes "/etc/tcsss/limits_1gb.conf")
    then ok (bytes "rlimit.nofile=65536\nrlimit.stack = 8192\n")
    else err (plain (bytes "no such file"))

-- Its traffic template has a name with a capital letter, so the file with small letters is missing.
abbrev pub linux : System
linux = record {
  contents = λ log path. content_at path;
  entries = λ log path. ok listing;
  status = λ log path. ok (text_eq path (bytes "/etc/tcsss"));
  make_dir = λ log path perm. none;
  open_file = λ log path perm. none;
  set_mode = λ log path perm. none;
  write_to = λ log path payload. none;
  sync_to = λ log path. none;
  write_whole = λ log path payload perm. none;
  run = λ log name args. record { text = []; failure = none };
  find_command = λ log name. none;
  variable = λ log name. [];
  own_path = λ log. ok (bytes "/usr/bin/tcsss");
  limit = λ log resource. ok (record { cur = 1024; max = 4096 });
  set_limit = λ log resource limit. none;
  is_not_exist = λ e. true;
  context_error = λ log. none;
}
