-- ===== src/Errors/Print.antt =====
-- internal/errors, the texts of errors: `Error.Error`, `MultiError.Error` and `MultiError.Len`. The
-- texts of the errors inside are `message`, how `fmt` prints a map is `format_map`.
use tcsss.Prelude.{◌≡◌, refl, ℕ, ◌+◌, none, some, List, [], ◌∷◌, ◌++◌, arith}
use tcsss.Text.Ops.{Text, bytes, join}
use tcsss.Errors.{
  Fields, ErrorContext, to_map, Category, category_string, GoError, GoErrors, nil, cons, add,
}

module _ (message : GoError → Text) (format_map : Fields → Text) where
  abbrev with_fields : Category → GoError → Fields → Text
  with_fields c e [] = bytes "[" ++ (category_string c ++ (bytes "] " ++ message e))
  with_fields c e (field ∷ fields) =
      bytes "["
      ++ (category_string c
          ++ (bytes "] "
              ++ (message e ++ (bytes " (context=" ++ (format_map (field ∷ fields) ++ bytes ")")))))

  -- `(*Error).Error`
  unfoldable pub error_string : Category → GoError → ErrorContext → Text
  error_string c e context = with_fields c e (to_map context)

-- The loop of `(*MultiError).Error`; the list holds no nil.
unfoldable pub messages : (GoError → Text) → GoErrors → List Text
messages message nil = []
messages message (cons e es) = message e ∷ messages message es

-- `(*MultiError).Error`
unfoldable pub multi_error_string : (GoError → Text) → GoErrors → Text
unfolding messages join
multi_error_string message es = join (bytes "; ") (messages message es)

-- `MultiError.Len`
unfoldable pub len : GoErrors → ℕ
len nil = 0
len (cons e es) = len es + 1

-- `Add` adds one to `Len`, and the text of the error behind the texts that are there, but for nil.
messages-add :
    (message : GoError → Text) (e : GoError) (es : GoErrors)
    → (messages message (add (some e) es) ≡ messages message es ++ (message e ∷ []))
      × (len (add (some e) es) ≡ len es + 1)
      × (len (add none es) ≡ len es)
unfolding messages len add
messages-add message e nil = (refl, refl, refl)
messages-add message e (cons x xs) =
    let (m, n, o) = messages-add message e xs in (cc, omega arith, refl)
