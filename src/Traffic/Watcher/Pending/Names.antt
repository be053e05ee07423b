-- ===== src/Traffic/Watcher/Pending/Names.antt =====
-- A batch of updates, and the work that `applyPending` finds after it.
use tcsss.Prelude.{
  ◌≡◌, refl, Bool, true, false, ◌||◌, Option, none, some, List, [], ◌∷◌, arith, Bool-cases, inl,
  inr, if◌then◌else◌,
}
use tcsss.Text.Ops.{Text, is_empty, text_eq, mem}
use tcsss.Text.Maps.{text_eq_iff}
use tcsss.Traffic.Env.{Link, LinkAttrs}
use tcsss.Traffic.Watcher.Pending.{
  PendingChanges, add_name, mark_all, note, add_link, Todo, nothing, everything, only, of_names,
  snapshot,
}

-- The name under which an update is noted; `none` where it has no name.
abbrev pub name_of : Option LinkAttrs → Option Text
name_of none = none
name_of (some a) = if is_empty a.name then none else some a.name

-- The updates since the last pass.
abbrev pub add_links : List Link → PendingChanges → PendingChanges
add_links [] p = p
add_links (u ∷ us) p = add_links us (add_link u p)

-- Some update has no name.
abbrev pub is_nameless : Option Text → Bool
is_nameless none = true
is_nameless (some n) = false

abbrev pub any_nameless : List Link → Bool
any_nameless [] = false
any_nameless (u ∷ us) = is_nameless (name_of u.attrs) || any_nameless us

abbrev pub is_name : Text → Option Text → Bool
is_name n none = false
is_name n (some m) = text_eq n m

abbrev pub named_in : Text → List Link → Bool
named_in n [] = false
named_in n (u ∷ us) = is_name n (name_of u.attrs) || named_in n us

-- A pass over the link of a name is due.
abbrev pub covers : Text → Todo → Bool
covers n nothing = false
covers n everything = true
covers n (only names) = mem n names

covers-of_names : (n : Text) (names : List Text) → covers n (of_names names) ≡ mem n names
unfolding mem
covers-of_names n [] = refl
covers-of_names n (m ∷ ms) = refl

covers-snapshot : (n : Text) (p : PendingChanges) → covers n (snapshot p) ≡ (p.all || mem n p.names)
unfolding snapshot
covers-snapshot n p = elim (Bool-cases p.all) [
  | inl e ↦ rw e
  | inr e ↦ rw e (covers-of_names n p.names)
]

module _ (n : Text) where
  mem-cons : (m : Text) (ms : List Text) → mem n (m ∷ ms) ≡ (text_eq n m || mem n ms)
  unfolding mem
  mem-cons m ms = refl

  -- A name that equals one of the list is in it.
  mem-text_eq : (m : Text) (ms : List Text) → mem m ms ≡ true → text_eq n m ≡ true → mem n ms ≡ true
  mem-text_eq m ms h e = rw ((text_eq_iff n m).0 e) h

  covers-add_name :
      (m : Text) (p : PendingChanges)
      → ((add_name m p).all || mem n (add_name m p).names)
        ≡ ((p.all || mem n p.names) || text_eq n m)
  unfolding add_name
  covers-add_name m p = elim (Bool-cases (mem m p.names)) [
    | inl e ↦ rw e (ground (arith, mem-text_eq m p.names e))
    | inr e ↦ rw (e, mem-cons m p.names) (ground arith)
  ]

  covers-note :
      (a : Option LinkAttrs) (p : PendingChanges)
      → ((note a p).all || mem n (note a p).names)
        ≡ ((p.all || mem n p.names) || (is_nameless (name_of a) || is_name n (name_of a)))
  unfolding mark_all
  covers-note none p = ground arith
  covers-note (some a) p = elim (Bool-cases (is_empty a.name)) [
    | inl e ↦ rw e (ground arith)
    | inr e ↦ rw e (covers-add_name a.name p)
  ]

  covers-add_link :
      (u : Link) (p : PendingChanges)
      → ((add_link u p).all || mem n (add_link u p).names) ≡ (
          (p.all || mem n p.names)
          || (is_nameless (name_of u.attrs) || is_name n (name_of u.attrs)))
  unfolding add_link
  covers-add_link u p = elim (Bool-cases p.all) [
    | inl e ↦ ground (arith, e)
    | inr e ↦ ground (arith, e, covers-note u.attrs p)
  ]

  -- After a batch of link updates the pass of `applyPending` is due for a name exactly if it was due
  -- before, or an update has that name, or an update has no name, which makes a pass over all links due.
  pub covers-add_links :
      (us : List Link) (p : PendingChanges)
      → covers n (snapshot (add_links us p))
        ≡ (covers n (snapshot p) || (any_nameless us || named_in n us))
  covers-add_links [] p = ground arith
  covers-add_links (u ∷ us) p = ground (
    arith,
    covers-add_links us (add_link u p),
    covers-snapshot n p,
    covers-snapshot n (add_link u p),
    covers-add_link u p,
  )
