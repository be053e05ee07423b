-- ===== src/Syslimit/Sysctl/Merge/Settled.antt =====
-- What `merge` leaves in the lines of sysctl.conf.
use mathlib.Core.List.{append-nil}
use tcsss.Prelude.{◌≡◌, refl, List, [], ◌∷◌, ◌++◌, map, arith, All}
use tcsss.Text.Ops.{Text}
use tcsss.Text.Maps.{mem-append}
use tcsss.Syslimit.Sysctl.{Params, update_line, line_keys, missing_lines, block, merge_lines}
use tcsss.Syslimit.Sysctl.Merge.{
  IsReadBack, line_key-update_line, update_line_again, map-missing_lines, map-block,
  line_keys-append, line_keys-block, missing_lines-nil,
}

pub map-append : (f : Text → Text) (a b : List Text) → map f (a ++ b) ≡ map f a ++ map f b
map-append f [] b = refl
map-append f (x ∷ a) b = rw (map, map-append f a b)

module _ (ps : Params) (all : All (IsReadBack ps) ps) where
  line_keys-map : (ls : List Text) → line_keys (map (update_line ps) ls) ≡ line_keys ls
  unfolding line_keys
  line_keys-map [] = refl
  line_keys-map (l ∷ ls) = rw (map, line_key-update_line ps all l, line_keys-map ls)

  map_again :
      (ls : List Text) → map (update_line ps) (map (update_line ps) ls) ≡ map (update_line ps) ls
  map_again [] = refl
  map_again (l ∷ ls) = rw (map, map, update_line_again ps all l, map_again ls)

  map-merge_lines : (ls : List Text) → map (update_line ps) (merge_lines ls ps) ≡ merge_lines ls ps
  unfolding merge_lines
  map-merge_lines ls =
      let ms = missing_lines (line_keys ls) ps in
      rw (
        map-append (update_line ps) (map (update_line ps) ls) (block ms),
        map_again ls,
        map-block ps all ms (map-missing_lines ps all (line_keys ls) ps all),
      )

  line_keys-merge_lines :
      (ls : List Text)
      → line_keys (merge_lines ls ps) ≡ line_keys ls ++ line_keys (missing_lines (line_keys ls) ps)
  unfolding merge_lines
  line_keys-merge_lines ls =
      let ms = missing_lines (line_keys ls) ps in
      rw (
        line_keys-append (map (update_line ps) ls) (block ms),
        line_keys-map ls,
        line_keys-block ms,
      )

  missing-merge_lines : (ls : List Text) → missing_lines (line_keys (merge_lines ls ps)) ps ≡ []
  missing-merge_lines ls =
      let keys = line_keys ls in
      let added = line_keys (missing_lines keys ps) in
      rw (line_keys-merge_lines ls) (
        missing_lines-nil ps keys (keys ++ added) ps all
          (λ n m. ground (arith, mem-append n keys added, m))
          (λ n m. ground (arith, mem-append n keys added, m)))

  -- For parameters that are read back from their own lines: after a merge every line with the key of a
  -- parameter has its value, and every parameter has a line.
  pub merge_lines-settled :
      (ls : List Text)
      → (map (update_line ps) (merge_lines ls ps) ≡ merge_lines ls ps)
        × (missing_lines (line_keys (merge_lines ls ps)) ps ≡ [])
  merge_lines-settled ls = (map-merge_lines ls, missing-merge_lines ls)

  -- For such parameters a second merge changes no line, so sysctl.conf is found up to date.
  merge_lines_again : (ls : List Text) → merge_lines (merge_lines ls ps) ps ≡ merge_lines ls ps
  merge_lines_again ls =
      unfold merge_lines in rw (map-merge_lines ls, missing-merge_lines ls, append-nil)
