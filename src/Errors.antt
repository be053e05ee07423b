-- ===== src/Errors.antt =====
-- internal/errors: categorised errors with a context, and lists of errors. A Go `error` that may be
-- nil is an `Option GoError`.
pub mod Laws
pub mod Print
use tcsss.Prelude.{
  Bool, true, false, ◌||◌, Option, none, some, List, [], ◌∷◌, ◌++◌, if◌then◌else◌, String,
}
use tcsss.Text.Ops.{Text, bytes, is_empty, text_eq, join}

-- An association list for a Go map with string keys: a later entry of a key hides an earlier one.
abbrev pub Fields : Type 0
Fields = List (Text × Text)

pub record ErrorContext : Type 0 where
  pub operation : Text
  pub iface : Text
  pub profile : Text
  pub command : Text
  pub ifb : Text
  pub value : Text
  pub expected : Text
  pub actual : Text
  pub extra : Fields

abbrev pub no_context : ErrorContext
no_context = record {
  operation = [];
  iface = [];
  profile = [];
  command = [];
  ifb = [];
  value = [];
  expected = [];
  actual = [];
  extra = [];
}

abbrev pub override : Text → Text → Text
override old new = if is_empty new then old else new

-- `ErrorContext.Merge`. The entries of `other.Extra` are written after those of the receiver.
unfoldable pub merge : ErrorContext → ErrorContext → ErrorContext
merge ec other = record {
  operation = override ec.operation other.operation;
  iface = override ec.iface other.iface;
  profile = override ec.profile other.profile;
  command = override ec.command other.command;
  ifb = override ec.ifb other.ifb;
  value = override ec.value other.value;
  expected = override ec.expected other.expected;
  actual = override ec.actual other.actual;
  extra = ec.extra ++ other.extra;
}

abbrev entry : String → Text → Fields
entry key value = if is_empty value then [] else (bytes key, value) ∷ []

-- `ErrorContext.ToMap`
unfoldable pub to_map : ErrorContext → Fields
to_map ec =
    entry "operation" ec.operation
    ++ (entry "interface" ec.iface
        ++ (entry "profile" ec.profile
            ++ (entry "command" ec.command
                ++ (entry "ifb" ec.ifb
                    ++ (entry "value" ec.value
                        ++ (entry "expected" ec.expected
                            ++ (entry "actual" ec.actual ++ ec.extra)))))))

-- What a map lookup finds: the entry that was written last.
unfoldable pub find_field : Text → Fields → Option Text
unfolding text_eq
find_field k [] = none
find_field k ((j, v) ∷ m) =
    let later = find_field k m in
    elim later [ some w ↦ some w | none ↦ (if text_eq k j then some v else none) ]

pub data Category : Type 0 where
  critical recoverable optional : Category

-- `Category.String`
abbrev pub category_string : Category → Text
category_string critical = bytes "critical"
category_string recoverable = bytes "recoverable"
category_string optional = bytes "optional"

-- Go's error values: an error of other code with its message, `context.Canceled`,
-- `context.DeadlineExceeded`, `netlink.LinkNotFoundError`, `fmt.Errorf("...: %w")`, `*Error`, `*MultiError`.
mutual
  pub data GoError : Type 0 where
    plain : Text → GoError
    canceled : GoError
    deadline_exceeded : GoError
    link_not_found : GoError
    wrapped : Text → GoError → GoError
    typed : Category → GoError → ErrorContext → GoError
    multi : GoErrors → GoError

  pub data GoErrors : Type 0 where
    nil : GoErrors
    cons : GoError → GoErrors → GoErrors

-- `New`, which gives nil for a nil cause.
unfoldable pub new : Category → Option GoError → ErrorContext → Option GoError
new category none context = none
new category (some e) context = some (typed category e context)

merge_all : ErrorContext → List ErrorContext → ErrorContext
unfolding merge
merge_all ctx [] = ctx
merge_all ctx (c ∷ cs) = merge_all (merge ctx c) cs

-- `WrapRecoverable`
unfoldable pub wrap_recoverable : Option GoError → Text → List ErrorContext → Option GoError
unfolding new merge_all
wrap_recoverable none operation contexts = none
wrap_recoverable (some e) operation contexts =
    new recoverable (some e) (merge_all (record no_context { operation = operation }) contexts)

-- `InterfaceError`
unfoldable pub interface_error : Option GoError → Text → Text → Option GoError
unfolding wrap_recoverable
interface_error e iface operation =
    wrap_recoverable e operation (record no_context { iface = iface } ∷ [])

-- `(*Error).Unwrap`, and the `%w` of fmt.
unfoldable pub unwrap : GoError → Option GoError
unwrap (typed c e ctx) = some e
unwrap (wrapped t e) = some e
unwrap _ = none

abbrev pub Target : Type 0
Target = GoError → Bool

-- `errors.Is` and `errors.As` for a target that a test on one value recognises: the value itself,
-- what it wraps, and for a `MultiError` each of its errors (`MultiError.Is`, `MultiError.As`).
unfoldable mutual
  pub holds : Target → GoError → Bool
  holds p (plain t) = p (plain t)
  holds p canceled = p canceled
  holds p deadline_exceeded = p deadline_exceeded
  holds p link_not_found = p link_not_found
  holds p (wrapped t e) = p (wrapped t e) || holds p e
  holds p (typed c e ctx) = p (typed c e ctx) || holds p e
  holds p (multi es) = p (multi es) || holds_any p es

  pub holds_any : Target → GoErrors → Bool
  holds_any p nil = false
  holds_any p (cons e es) = holds p e || holds_any p es

abbrev pub is_canceled : Target
is_canceled canceled = true
is_canceled _ = false

abbrev pub is_link_not_found : Target
is_link_not_found link_not_found = true
is_link_not_found _ = false

-- `MultiError.Add`, at the end of the list.
unfoldable pub add : Option GoError → GoErrors → GoErrors
add none es = es
add (some e) nil = cons e nil
add (some e) (cons x xs) = cons x (add (some e) xs)

-- `MultiError.ErrorOrNil`
unfoldable pub error_or_nil : GoErrors → Option GoError
error_or_nil nil = none
error_or_nil (cons e es) = some (multi (cons e es))
