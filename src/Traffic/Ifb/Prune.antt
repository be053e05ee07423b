-- ===== src/Traffic/Ifb/Prune.antt =====
-- `pruneStaleIfbs`: which devices are deleted.
use tcsss.Prelude.{
  ◌≡◌, refl, Bool, false, Option, none, some, List, [], ◌∷◌, ◌++◌, Bool-cases, Option-cases, inl,
  inr, if◌then◌else◌, not, ◌&&◌,
}
use mathlib.Core.List.{append-nil, append_assoc}
use tcsss.Text.Ops.{Text, bytes, has_prefix, mem}
use tcsss.Traffic.Env.{Env, Link, LinkAttrs, Call, exec, link_del, History}
use tcsss.Traffic.Commands.{Message, ifb_prefix}
use tcsss.Traffic.Commands.Calls.{run-calls}
use tcsss.Traffic.Ifb.{is_stale, delete_link, prune_attrs, prune_stale_ifbs}

abbrev stale_attrs : List Text → Option LinkAttrs → Bool
stale_attrs required none = false
stale_attrs required (some a) = has_prefix ifb_prefix a.name && not (mem a.name required)

abbrev name_of : Option LinkAttrs → Text
name_of none = []
name_of (some a) = a.name

-- The command that deletes a device by its name.
abbrev pub ip_link_del : Text → Call
ip_link_del name = exec (bytes "ip") (bytes "link" ∷ bytes "del" ∷ name ∷ [])

module _ (env : Env) (message : Message) where
  -- The calls that delete a link: over netlink, and where that fails by the command.
  abbrev deletion : Text → Link → History → List Call
  deletion name link h =
      link_del link ∷ elim (env.delete h link) [ none ↦ [] | some e ↦ ip_link_del name ∷ [] ]

  -- The calls for a list of links, made after those in `h`: a link is deleted exactly if it has
  -- attributes, its name begins with ifb4, and the name is not required.
  unfoldable pub deletions : List Text → List Link → History → List Call
  deletions required [] h = []
  deletions required (link ∷ links) h =
      let calls : List Call =
        if stale_attrs required link.attrs then deletion (name_of link.attrs) link h else [] in
      calls ++ deletions required links (h ++ calls)

  delete_link-deletion :
      (name : Text) (link : Link) (h : History)
      → (delete_link env message name link h).1 ≡ h ++ deletion name link h
  unfolding delete_link
  delete_link-deletion name link h = elim (Option-cases (env.delete h link)) [
    | inl e ↦ rw e refl
    | inr (x, e) ↦ rw (e, run-calls) (append_assoc h (link_del link ∷ []) (ip_link_del name ∷ []))
  ]

  prune_attrs-deletion :
      (required : List Text) (link : Link) (a : Option LinkAttrs) (h : History)
      → (prune_attrs env message required link a h).1
        ≡ h ++ (if stale_attrs required a then deletion (name_of a) link h else [])
  prune_attrs-deletion required link none h = rw append-nil refl
  prune_attrs-deletion required link (some a) h = elim (Bool-cases (is_stale required a.name)) [
    | inl s ↦ rw s (delete_link-deletion a.name link h)
    | inr s ↦ rw (s, append-nil) refl
  ]

  -- The calls of a pass are exactly these: of the listed links, those whose name begins with ifb4 and
  -- is not required are deleted, each once and in order, over netlink, and where that fails by
  -- `ip link del` with the link's name. The pass returns nil whatever the deletions return.
  pub prune_stale_ifbs-deletions :
      (links : List Link) (required : List Text) (h : History)
      → prune_stale_ifbs env message links required h ≡ (none, h ++ deletions required links h)
  unfolding prune_stale_ifbs deletions
  prune_stale_ifbs-deletions [] required h = rw append-nil refl
  prune_stale_ifbs-deletions (link ∷ links) required h =
      let calls : List Call =
        if stale_attrs required link.attrs then deletion (name_of link.attrs) link h else [] in
      rw
        (
          prune_attrs-deletion required link link.attrs h,
          prune_stale_ifbs-deletions links required (h ++ calls),
          append_assoc h calls (deletions required links (h ++ calls)),
        )
        refl
