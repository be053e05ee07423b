-- ===== src/Traffic/Shaper/Report.antt =====
-- shaper_errors.go: what is written to the log about an error, by its category.
use tcsss.Prelude.{
  ◌≡◌, ◌≢◌, refl, Bool, true, Option, none, some, List, [], ◌∷◌, ◌++◌, if◌then◌else◌,
}
use tcsss.Text.Ops.{Text, bytes, is_empty}
use tcsss.Errors.{
  Fields, ErrorContext, to_map, Category, critical, recoverable, optional, category_string, GoError,
  typed, new,
}
use tcsss.Traffic.Shaper.Configure.Categorised.{IsCategorised, fine, names}

pub data Level : Type 0 where
  debug error : Level

-- An attribute of a log entry: a text, or the map of a context.
pub data Attr : Type 0 where
  text : Text → Text → Attr
  any : Text → Fields → Attr

pub record Entry : Type 0 where
  pub level : Level
  pub heading : Text
  pub attrs : List Attr

-- `err.(*terr.Error)`, with the default where the error has another type.
abbrev categorise : Category → GoError → Category × Fields
categorise default_category (typed c e context) = (c, to_map context)
categorise default_category e = (default_category, [])

abbrev level_of : Category → Level
level_of critical = error
level_of recoverable = error
level_of optional = debug

abbrev context_attr : Fields → List Attr
context_attr [] = []
context_attr (field ∷ fields) = any (bytes "context") (field ∷ fields) ∷ []

-- `message` is the method `Error` of an error, `has_logger` whether the shaper has a logger.
module _ (message : GoError → Text) (has_logger : Bool) where
  abbrev entry_for : Text → Text → GoError → Category × Fields → Entry
  entry_for heading iface e (category, context) = record {
    level = level_of category;
    heading = heading;
    attrs =
        text (bytes "category") (category_string category)
        ∷ text (bytes "error") (message e)
        ∷ ((if is_empty iface then [] else text (bytes "interface") iface ∷ [])
            ++ context_attr context);
  }

  -- `handleCategorizedError`
  unfoldable pub handle_categorized_error : Text → Text → Option GoError → Category → Option Entry
  handle_categorized_error heading iface none default_category = none
  handle_categorized_error heading iface (some e) default_category =
      if has_logger then some (entry_for heading iface e (categorise default_category e)) else none

  -- `logOptional`
  unfoldable pub log_optional : Text → Text → Option GoError → ErrorContext → Option Entry
  unfolding handle_categorized_error new
  log_optional heading iface none context = none
  log_optional heading iface (some e) context =
      handle_categorized_error heading iface (new optional (some e) context) optional

  -- An error of `configureProfile` is reported as an error, never only for debugging, whatever the
  -- category that the caller gives.
  handle_categorized_error-IsCategorised :
      {iface profile : Text} (heading : Text) (e : Option GoError) (default_category : Category)
      → IsCategorised iface profile e
      → e ≢ none
      → has_logger ≡ true
      → (entry : Entry) × (handle_categorized_error heading iface e default_category ≡ some entry)
        × (entry.level ≡ error)
  unfolding handle_categorized_error
  handle_categorized_error-IsCategorised heading e d (fine q) h l = absurd (h q)
  handle_categorized_error-IsCategorised {iface} heading e d (names cause context q i p) h l =
      rw (q, l)
        (
          entry_for heading iface (typed recoverable cause context) (recoverable, to_map context),
          refl,
          refl,
        )
