-- ===== src/Ifcfg/Provider/Delete/Trees.antt =====
-- What `del_object` of os_net_config/__init__.py does to a tree of objects.
use os_net_config.Base.{
  ◌≡◌, refl, ◌∙◌, Bool, true, false, ◌&&◌, ◌||◌, not, Option, none, some, List, [], ◌∷◌, ◌++◌,
  if◌then◌else◌, nat_eq, str_eq, option_str_eq, bind,
}
use os_net_config.Base.Str.{Str}
use os_net_config.Objects.{
  BaseOpts, Kind, Object, Members, node, route_table, nil, cons, has_members, interface, vlan,
  ovs_bridge, ovs_user_bridge, ivs_bridge, nfvswitch_bridge, linux_bond, ovs_bond, ib_interface,
  ib_child_interface, sriov_vf, sriov_pf,
}
use mathlib.Core.List.{append-nil, append_assoc}
use os_net_config.Ifcfg.Provider.{Provider}
use os_net_config.Ifcfg.Provider.Delete.{del_common, del_sriov_pf, del_object, del_members}

-- The classes that can be deleted
abbrev pub is_deletable : Kind → Bool
is_deletable (interface h l e) = true
is_deletable (vlan i d o e) = true
is_deletable (ovs_bridge o e) = true
is_deletable (ovs_user_bridge i o e) = true
is_deletable (ovs_bond o e) = true
is_deletable (linux_bond o e) = true
is_deletable (ib_interface e) = true
is_deletable (ib_child_interface parent i) = true
is_deletable (sriov_pf m e) = true
is_deletable (sriov_vf d i e) = true
is_deletable _ = false

-- Whether all objects of the tree are of such a class
unfoldable mutual
  pub all_deletable : Object → Bool
  all_deletable (route_table n i) = true
  all_deletable (node b k ms) = is_deletable k && (not (has_members k) || members_deletable ms)

  pub members_deletable : Members → Bool
  members_deletable nil = true
  members_deletable (cons o ms) = all_deletable o && members_deletable ms

-- The names that end up in `remove_iface`: members come before what holds them, except for a bond
-- of Open vSwitch.
unfoldable mutual
  pub removed_ifaces : Object → List Str
  removed_ifaces (route_table n i) = []
  removed_ifaces (node b (ovs_bond o e) ms) = b.name ∷ removed_members ms
  removed_ifaces (node b (sriov_pf m e) ms) = []
  removed_ifaces (node b k ms) =
      if has_members k then removed_members ms ++ (b.name ∷ []) else b.name ∷ []

  pub removed_members : Members → List Str
  removed_members nil = []
  removed_members (cons o ms) = removed_ifaces o ++ removed_members ms

-- The names that end up in `remove_sriov_pfs`
unfoldable mutual
  pub removed_pfs : Object → List Str
  removed_pfs (route_table n i) = []
  removed_pfs (node b (sriov_pf m e) ms) = b.name ∷ []
  removed_pfs (node b k ms) = if has_members k then removed_pfs_in ms else []

  pub removed_pfs_in : Members → List Str
  removed_pfs_in nil = []
  removed_pfs_in (cons o ms) = removed_pfs o ++ removed_pfs_in ms

-- The state with more names to remove
abbrev pub marked : Provider → List Str → List Str → Provider
marked p xs ys = record p {
  remove_iface = p.remove_iface ++ xs;
  remove_sriov_pfs = p.remove_sriov_pfs ++ ys;
}

abbrev pub outcome : Bool → Provider → List Str → List Str → Option Provider
outcome test p xs ys = if test then some (marked p xs ys) else none

marked_nothing : (p : Provider) → some p ≡ some (marked p [] [])
marked_nothing p = rw (append-nil, append-nil)

marked-del_common :
    (b : BaseOpts) (p : Provider) → some (del_common b p) ≡ some (marked p (b.name ∷ []) [])
marked-del_common b p = rw (append-nil)

marked-del_sriov_pf :
    (b : BaseOpts) (p : Provider) → some (del_sriov_pf b p) ≡ some (marked p [] (b.name ∷ []))
marked-del_sriov_pf b p = rw (append-nil)

bind-none : (o : Option Provider) → bind {B = Provider} o (λ q. none) ≡ none
bind-none none = refl
bind-none (some q) = refl

bind-outcome :
    (t u : Bool) (p : Provider) (xs ys zs ws : List Str) (o : Option Provider)
    (f : Provider → Option Provider)
    → o ≡ outcome t p xs ys
    → ((q : Provider) → f q ≡ outcome u q zs ws)
    → bind o f ≡ outcome (t && u) p (xs ++ zs) (ys ++ ws)
bind-outcome false u p xs ys zs ws o f h k = rw h
bind-outcome true false p xs ys zs ws o f h k = rw h (k (marked p xs ys))
bind-outcome true true p xs ys zs ws o f h k =
    rw h (k (marked p xs ys) ∙ (rw (append_assoc, append_assoc)))

-- A call for an object whose members are deleted before it
bind-then :
    (t : Bool) (p : Provider) (xs ys : List Str) (b : BaseOpts) (o : Option Provider)
    → o ≡ outcome t p xs ys
    → bind o (λ q. some (del_common b q)) ≡ outcome t p (xs ++ (b.name ∷ [])) ys
bind-then t p xs ys b o h =
    bind-outcome t true p xs ys (b.name ∷ []) [] o (λ q. some (del_common b q)) h
      (λ q. marked-del_common b q)
    ∙ cleaned t
  where
    cleaned :
        (u : Bool)
        → outcome (u && true) p (xs ++ (b.name ∷ [])) (ys ++ [])
          ≡ outcome u p (xs ++ (b.name ∷ [])) ys
    cleaned true = rw (append-nil)
    cleaned false = refl

-- A bond of Open vSwitch, whose members are deleted behind it
then-members :
    (t : Bool) (p : Provider) (b : BaseOpts) (xs ys : List Str) (o : Option Provider)
    → o ≡ outcome t (del_common b p) xs ys
    → o ≡ outcome t p (b.name ∷ xs) ys
then-members true p b xs ys o h = h ∙ rw (append_assoc)
then-members false p b xs ys o h = h

mutual
  unfolding del_object all_deletable removed_ifaces removed_pfs has_members

  del_tree :
      (o : Object) (p : Provider)
      → del_object o p ≡ outcome (all_deletable o) p (removed_ifaces o) (removed_pfs o)
  del_tree (route_table n i) p = marked_nothing p
  del_tree (node b (interface h l e) ms) p = marked-del_common b p
  del_tree (node b (vlan i d o e) ms) p = marked-del_common b p
  del_tree (node b (ovs_bridge o e) ms) p =
      bind-then (members_deletable ms) p (removed_members ms) (removed_pfs_in ms) b
        (del_members ms p) (del_trees ms p)
  del_tree (node b (ovs_user_bridge i o e) ms) p =
      bind-then (members_deletable ms) p (removed_members ms) (removed_pfs_in ms) b
        (del_members ms p) (del_trees ms p)
  del_tree (node b ivs_bridge ms) p = bind-none (del_members ms p)
  del_tree (node b (nfvswitch_bridge options) ms) p = bind-none (del_members ms p)
  del_tree (node b (ovs_bond o e) ms) p =
      then-members (members_deletable ms) p b (removed_members ms) (removed_pfs_in ms)
        (del_members ms (del_common b p)) (del_trees ms (del_common b p))
  del_tree (node b (linux_bond o e) ms) p =
      bind-then (members_deletable ms) p (removed_members ms) (removed_pfs_in ms) b
        (del_members ms p) (del_trees ms p)
  del_tree (node b (ib_interface e) ms) p = marked-del_common b p
  del_tree (node b (ib_child_interface parent i) ms) p = marked-del_common b p
  del_tree (node b (sriov_pf m e) ms) p = marked-del_sriov_pf b p
  del_tree (node b (sriov_vf d i e) ms) p = marked-del_common b p
  del_tree (node b k ms) p = refl

  del_trees :
      (ms : Members) (p : Provider)
      → del_members ms p ≡ outcome (members_deletable ms) p (removed_members ms) (removed_pfs_in ms)
  del_trees nil p = marked_nothing p
  del_trees (cons o ms) p =
      bind-outcome (all_deletable o) (members_deletable ms) p (removed_ifaces o) (removed_pfs o)
        (removed_members ms) (removed_pfs_in ms) (del_object o p) (del_members ms) (del_tree o p)
        (del_trees ms)

-- A call fails exactly if an object of the tree, a member included, is of a class that cannot be
-- deleted. Otherwise the names of all objects of the tree but the physical functions and the route
-- tables are appended to those of the interfaces to remove, and the names of the physical functions
-- to theirs.
pub del_object_lem :
    (o : Object) (p : Provider)
    → del_object o p ≡ outcome (all_deletable o) p (removed_ifaces o) (removed_pfs o)
del_object_lem = del_tree
