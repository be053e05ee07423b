-- ===== src/Sysinfo.antt =====
-- internal/sysinfo/memory.go: the memory of the machine in kilobytes.
pub mod MemTotal
use tcsss.Prelude.{
  ℕ, zero, suc, Option, none, some, List, [], ◌∷◌, ◌++◌, M, ◌>>=◌, return, if◌then◌else◌,
}
use tcsss.Text.Ops.{Text, bytes, has_prefix, fields, split}
use tcsss.Text.Number.{parse_uint}
use tcsss.Errors.{plain, wrapped}
use tcsss.Traffic.Env.{Result, ok, err}
use tcsss.System.{System, read_file, Log, request}

abbrev memory_of : Option ℕ → Result ℕ
memory_of none = err (plain (bytes "parse MemTotal value"))
memory_of (some zero) = err (plain (bytes "MemTotal is zero"))
memory_of (some (suc n)) = ok (suc n)

-- The fields of the line that begins with MemTotal.
abbrev of_fields : List Text → Result ℕ
of_fields (name ∷ value ∷ rest) = memory_of (parse_uint value)
of_fields _ = err (plain (bytes "invalid MemTotal line"))

unfoldable pub mem_total : List Text → Result ℕ
unfolding has_prefix fields
mem_total [] = err (plain (bytes "MemTotal not found"))
mem_total (line ∷ lines) =
    let rest = mem_total lines in
    if has_prefix (bytes "MemTotal:") line then of_fields (fields line) else rest

abbrev of_meminfo : Text → Result Text → Result ℕ
of_meminfo path (err e) = err (wrapped (bytes "read " ++ path) e)
of_meminfo path (ok content) = mem_total (split b'\n' content)

-- `ReadMemoryKB`
unfoldable pub read_memory_kb : System → Text → M Log (Result ℕ)
unfolding mem_total split
read_memory_kb system path =
    request (λ log. system.contents log path) (read_file path) >>= λ content.
    return (of_meminfo path content)
