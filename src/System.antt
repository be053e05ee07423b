-- ===== src/System.antt =====
-- The operating system as internal/config, internal/syslimit, internal/detector and cmd use it: files,
-- commands, the environment and the limits of the process. Each answer may depend on all calls made
-- before it.
use tcsss.Prelude.{ℕ, Bool, Option, none, some, List, [], ◌∷◌, ◌++◌, M, ◌>>=◌, return}
use tcsss.Text.Ops.{Text}
use tcsss.Errors.{GoError, wrapped}
use tcsss.Traffic.Env.{Result, ok, err, Output}

-- A call with its arguments; a number behind a path is the permissions. A resource of `getrlimit` is given by its name in the templates: the
-- constants of golang.org/x/sys/unix are distinct.
pub data SystemCall : Type 0 where
  read_file : Text → SystemCall
  read_dir : Text → SystemCall
  stat : Text → SystemCall
  mkdir_all : Text → ℕ → SystemCall
  open_truncated : Text → ℕ → SystemCall
  change_mode : Text → ℕ → SystemCall
  write_bytes : Text → Text → SystemCall
  sync : Text → SystemCall
  write_file : Text → Text → ℕ → SystemCall
  command : Text → List Text → SystemCall
  look_path : Text → SystemCall
  get_env : Text → SystemCall
  executable : SystemCall
  get_rlimit : Text → SystemCall
  set_rlimit : Text → ℕ → ℕ → SystemCall
  poll_context : SystemCall

abbrev pub Log : Type 0
Log = List SystemCall

-- `os.DirEntry`
pub record DirEntry : Type 0 where
  pub name : Text
  pub is_dir : Bool

-- `unix.Rlimit`
pub record Rlimit : Type 0 where
  pub cur : ℕ
  pub max : ℕ

pub record System : Type 0 where
  pub contents : Log → Text → Result Text
  pub entries : Log → Text → Result (List DirEntry)
  -- Whether the path is a directory.
  pub status : Log → Text → Result Bool
  pub make_dir : Log → Text → ℕ → Option GoError
  pub open_file : Log → Text → ℕ → Option GoError
  pub set_mode : Log → Text → ℕ → Option GoError
  pub write_to : Log → Text → Text → Option GoError
  pub sync_to : Log → Text → Option GoError
  pub write_whole : Log → Text → Text → ℕ → Option GoError
  pub run : Log → Text → List Text → Output
  pub find_command : Log → Text → Option GoError
  pub variable : Log → Text → Text
  pub own_path : Log → Result Text
  pub limit : Log → Text → Result Rlimit
  pub set_limit : Log → Text → Rlimit → Option GoError
  -- `os.IsNotExist`
  pub is_not_exist : GoError → Bool
  -- `ctx.Err()`
  pub context_error : Log → Option GoError

-- Makes a call: its answer, and the log with the call at the end.
abbrev pub request : {A : Type 0} → (Log → A) → SystemCall → M Log A
request answer call log = (answer log, log ++ (call ∷ []))

-- What follows where a call succeeds; its error is the result otherwise.
infixl 5 ◌and_then◌
abbrev pub ◌and_then◌ :
    {A B : Type 0} → M Log (Result A) → (A → M Log (Result B)) → M Log (Result B)
m and_then f = m >>= λ r. elim r [ err e ↦ return (err e) | ok a ↦ f a ]

-- A failed call's error, in front of which `fmt.Errorf` puts a text.
abbrev pub in_context : {A : Type 0} → Text → Result A → Result A
in_context text (err e) = err (wrapped text e)
in_context text (ok a) = ok a

-- What follows where there is no error.
abbrev pub unless_failed :
    {S : Type 0} → M S (Option GoError) → M S (Option GoError) → M S (Option GoError)
unless_failed m next = m >>= λ e. elim e [ some x ↦ return (some x) | none ↦ next ]

-- The error of a call, in front of which `fmt.Errorf` puts a text.
abbrev pub error_in_context : Text → Option GoError → Option GoError
error_in_context text none = none
error_in_context text (some e) = some (wrapped text e)

-- A call that gives an error or nil.
abbrev pub attempt : Text → (Log → Option GoError) → SystemCall → M Log (Option GoError)
attempt text answer call = request answer call >>= λ e. return (error_in_context text e)

-- What follows a check that finds no error.
abbrev pub checked : {A : Type 0} → M Log (Option GoError) → M Log (Result A) → M Log (Result A)
checked m next = m >>= λ e. elim e [ some x ↦ return (err x) | none ↦ next ]
