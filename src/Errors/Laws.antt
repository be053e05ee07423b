-- ===== src/Errors/Laws.antt =====
-- What wrapping, merging and collecting errors keep.
use mathlib.Core.List.{append-nil, append_assoc}
use tcsss.Errors.{
  Text, GoError, GoErrors, nil, cons, typed, recoverable, ErrorContext, no_context, override, merge,
  merge_all, new, wrap_recoverable, Target, holds, holds_any, add, find_field, Fields,
}
use tcsss.Prelude.{◌≡◌, refl, false, ◌||◌, Option, none, some, List, [], ◌∷◌, ◌++◌, arith}

override_assoc : (a b c : Text) → override (override a b) c ≡ override a (override b c)
override_assoc a b [] = refl
override_assoc a b (_ ∷ _) = refl

pub override_right : (a : Text) → override [] a ≡ a
override_right [] = refl
override_right (_ ∷ _) = refl

-- Merging contexts is associative, in every field, and the empty context is neutral on both sides.
merge_monoid :
    (a b c : ErrorContext)
    → (merge (merge a b) c ≡ merge a (merge b c))
      × (merge no_context a ≡ a)
      × (merge a no_context ≡ a)
unfolding merge
merge_monoid a b c = (simp (override_assoc, append_assoc), simp override_right, rw append-nil)

find_field-append :
    (k : Text) (xs ys : Fields)
    → find_field k (xs ++ ys) ≡ elim (find_field k ys) [ some w ↦ some w | none ↦ find_field k xs ]
unfolding find_field
find_field-append k [] ys = ground arith
find_field-append k ((j, v) ∷ xs) ys = ground (arith, find_field-append k xs ys)

-- Reading an `Extra` key of a merged context gives the value of the second context where it has
-- the key, and else that of the first.
find_field-merge :
    (k : Text) (a b : ErrorContext)
    → find_field k (merge a b).extra
      ≡ elim (find_field k b.extra) [ some w ↦ some w | none ↦ find_field k a.extra ]
unfolding merge
find_field-merge k a b = find_field-append k a.extra b.extra

-- Wrapping nil gives nil. Wrapping an error gives an error, in which `errors.Is` and `errors.As`
-- find what they find in its cause, and else at most the new error itself.
holds-wrap_recoverable :
    (p : Target) (e : GoError) (operation : Text) (contexts : List ErrorContext)
    → (w : GoError) × (wrap_recoverable (some e) operation contexts ≡ some w)
      × (holds p w ≡ (p w || holds p e))
      × (wrap_recoverable none operation contexts ≡ none)
unfolding wrap_recoverable new holds
holds-wrap_recoverable p e operation contexts = (
  typed recoverable e (merge_all (record no_context { operation = operation }) contexts),
  refl,
  refl,
  refl,
)

-- After `Add`, `errors.Is` and `errors.As` find in the list what they found in it before, and what
-- they find in the added error.
holds_any-add :
    (p : Target) (e : Option GoError) (es : GoErrors)
    → (holds_any p (add e es) ≡ (holds_any p es || elim e [ none ↦ false | some x ↦ holds p x ]))
unfolding holds add
holds_any-add p none es = ground arith
holds_any-add p (some e) nil = ground arith
holds_any-add p (some e) (cons x xs) = ground (arith, holds_any-add p (some e) xs)
