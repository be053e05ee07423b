-- ===== src/Traffic/Watcher/Pending.antt =====
-- `pendingChanges`: the names that changed, or the mark that all links are to be processed.
pub mod Names
use tcsss.Prelude.Int.{ℤ}
use tcsss.Prelude.{
  Bool, true, false, Option, none, some, List, [], ◌∷◌, M, ◌>>=◌, return, if◌then◌else◌,
}
use tcsss.Text.Ops.{Text, is_empty, mem}
use tcsss.Traffic.Env.{Env, Result, ok, err, Link, LinkAttrs, attrs_of, History}
use tcsss.Traffic.Links.{safe_get_link_attrs, attrs_found}

pub record PendingChanges : Type 0 where
  pub all : Bool
  pub names : List Text

-- `newPendingChanges`, and what `clear` leaves.
abbrev pub no_changes : PendingChanges
no_changes = record { all = false; names = [] }

-- `addNameLocked`
unfoldable pub add_name : Text → PendingChanges → PendingChanges
unfolding mem
add_name name p = if mem name p.names then p else record p { names = name ∷ p.names }

-- `markAllLocked`
unfoldable pub mark_all : PendingChanges → PendingChanges
mark_all p = record { all = true; names = [] }

-- An update whose name could be found, or not.
abbrev pub note : Option LinkAttrs → PendingChanges → PendingChanges
note none p = mark_all p
note (some a) p = if is_empty a.name then mark_all p else add_name a.name p

-- `AddLink`. `update.Attrs()` is the method of the embedded link, so the second look-up of the
-- source, at `update.Link.Attrs()`, gives the same attributes.
unfoldable pub add_link : Link → PendingChanges → PendingChanges
unfolding add_name mark_all
add_link update p = if p.all then p else note update.attrs p

-- `AddAddr`
unfoldable pub add_addr : Env → ℤ → PendingChanges → M History PendingChanges
unfolding add_name mark_all safe_get_link_attrs
add_addr env link_index p =
    if p.all
    then return p
    else (safe_get_link_attrs env link_index >>= λ a. return (note (attrs_found a) p))

-- What `applyPending` is to do: nothing, all links, or the links of these names.
pub data Todo : Type 0 where
  nothing : Todo
  everything : Todo
  only : List Text → Todo

abbrev of_names : List Text → Todo
of_names [] = nothing
of_names (n ∷ ns) = only (n ∷ ns)

-- `snapshot`, with the test of `applyPending`.
unfoldable pub snapshot : PendingChanges → Todo
snapshot p = if p.all then everything else of_names p.names

-- `clear`
unfoldable pub clear : PendingChanges → PendingChanges
clear p = no_changes
