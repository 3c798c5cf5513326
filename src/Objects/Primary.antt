-- ===== src/Objects/Primary.antt =====
-- The primary interface that the constructors of os_net_config/objects.py find among the members.
use os_net_config.Base.{
  ◌≡◌, refl, ap, ◌∙◌, inl, inr, Bool, true, false, Option, none, some, List, [], ◌∷◌, if◌then◌else◌,
  Bool-cases, nat_eq, str_eq, option_str_eq, All, bind,
}
use os_net_config.Base.Str.{Str}
use os_net_config.Base.Dict.{Dict}
use os_net_config.Ifcfg.Routes.{is_empty}
use os_net_config.Objects.{
  BaseOpts, Kind, Object, Members, node, route_table, nil, cons, linux_bridge, linux_team,
}
use os_net_config.Objects.Build.{
  init_opts, take_primary, link_members, in_bridge, in_team, init_linux_bridge, init_linux_team,
}

-- The interface that a primary member stands for
unfoldable pub primary_name : BaseOpts → Str
primary_name b = if is_empty b.primary_interface_name then b.name else b.primary_interface_name

unfoldable pub primaries : Members → List Str
unfolding primary_name
primaries nil = []
primaries (cons (node b k kids) ms) =
    if b.primary then primary_name b ∷ primaries ms else primaries ms
primaries (cons (route_table n i) ms) = primaries ms

-- No member is a route table, and what a member stands for has a name.
unfoldable pub AreNamed : Members → Type 0
unfolding primary_name
AreNamed nil = Unit
AreNamed (cons (node b k kids) ms) = (is_empty (primary_name b) ≡ false) × AreNamed ms
AreNamed (cons (route_table n i) ms) = ⊥

unfoldable pub assigned : (BaseOpts → BaseOpts) → Members → Members
assigned assign nil = nil
assigned assign (cons (node b k kids) ms) = cons (node (assign b) k kids) (assigned assign ms)
assigned assign (cons (route_table n i) ms) = cons (route_table n i) (assigned assign ms)

-- At most one
abbrev pub only : List Str → Option Str
only [] = some []
only (name ∷ []) = some name
only (first ∷ second ∷ names) = none

abbrev only_from : Str → List Str → Option Str
only_from found [] = some found
only_from [] (name ∷ names) = only_from name names
only_from (c ∷ found) (name ∷ names) = none

AreNames : List Str → Type 0
AreNames = All (λ name. is_empty name ≡ false)

only_from-none :
    (name : Str) (names : List Str)
    → is_empty name ≡ false
    → only_from name names ≡ only (name ∷ names)
only_from-none [] names h = absurd cc
only_from-none (c ∷ name) [] h = refl
only_from-none (c ∷ name) (other ∷ names) h = refl

only_from-only : (names : List Str) → AreNames names → only_from [] names ≡ only names
unfolding AreNames
only_from-only [] h = refl
only_from-only (name ∷ names) (h, k) = only_from-none name names h

primaries-AreNames : (ms : Members) → AreNamed ms → AreNames (primaries ms)
unfolding primaries AreNames AreNamed
primaries-AreNames nil h = tt
primaries-AreNames (cons (node b k kids) ms) (h, m) = elim (Bool-cases b.primary) [
  | inl primary ↦ rw primary (h, primaries-AreNames ms m)
  | inr other ↦ rw other (primaries-AreNames ms m)
]
primaries-AreNames (cons (route_table n i) ms) h = absurd h

module _ (assign : BaseOpts → BaseOpts) where
  -- What the loop gives
  abbrev linked : Members → Option Str → Option (Members × Str)
  linked ms found = bind found (λ name. some (assigned assign ms, name))

  abbrev behind : Object → Members × Str → Option (Members × Str)
  behind o (l, name) = some (cons o l, name)

  with_first :
      (o : Object) (ms : Members) (found : Option Str)
      → bind (linked ms found) (behind o) ≡ bind found (λ name. behind o (assigned assign ms, name))
  with_first o ms none = refl
  with_first o ms (some name) = refl

  link_members-only_from :
      (ms : Members) (found : Str)
      → AreNamed ms
      → link_members assign ms found ≡ linked ms (only_from found (primaries ms))
  unfolding link_members assigned primaries AreNamed take_primary primary_name
  link_members-only_from nil found h = refl
  link_members-only_from (cons (route_table n i) ms) found h = absurd h
  link_members-only_from (cons (node b k kids) ms) found (h, m) =
      by_test b.primary (λ next. link_members-only_from ms next m) found
    where
      goes_on :
          ((next : Str) → link_members assign ms next ≡ linked ms (only_from next (primaries ms)))
          → (next : Str)
          → bind (link_members assign ms next) (behind (node (assign b) k kids))
            ≡ linked (cons (node b k kids) ms) (only_from next (primaries ms))
      goes_on rest next =
          ap (λ o. bind o (behind (node (assign b) k kids))) (rest next)
          ∙ with_first (node (assign b) k kids) ms (only_from next (primaries ms))

      from :
          ((next : Str) → link_members assign ms next ≡ linked ms (only_from next (primaries ms)))
          → (before : Str)
          → bind
              (if is_empty before then some (primary_name b) else none)
              (λ next. bind (link_members assign ms next) (behind (node (assign b) k kids)))
            ≡ linked (cons (node b k kids) ms) (only_from before (primary_name b ∷ primaries ms))
      from rest [] = goes_on rest (primary_name b)
      from rest (c ∷ before) = refl

      by_test :
          (test : Bool)
          → ((next : Str) → link_members assign ms next ≡ linked ms (only_from next (primaries ms)))
          → (before : Str)
          → bind
              (if test
                then if is_empty before then some (primary_name b) else none
                else some before)
              (λ next. bind (link_members assign ms next) (behind (node (assign b) k kids)))
            ≡ linked
                (cons (node b k kids) ms)
                (only_from before (if test then primary_name b ∷ primaries ms else primaries ms))
      by_test true rest before = from rest before
      by_test false rest before = goes_on rest before

  link_members_lem :
      (ms : Members) → AreNamed ms → link_members assign ms [] ≡ linked ms (only (primaries ms))
  link_members_lem ms h =
      link_members-only_from ms [] h
      ∙ ap (linked ms) (only_from-only (primaries ms) (primaries-AreNames ms h))

abbrev constructed : BaseOpts → Kind → Members × Str → Option Object
constructed opts k (l, name) = some (node (record opts { primary_interface_name = name }) k l)

ended :
    (assign : BaseOpts → BaseOpts) (opts : BaseOpts) (k : Kind) (ms : Members) (found : Option Str)
    → bind (linked assign ms found) (constructed opts k)
      ≡ bind found (λ name. constructed opts k (assigned assign ms, name))
ended assign opts k ms none = refl
ended assign opts k ms (some name) = refl

module _ (mapped_nic_names : Dict Str Str) (macs : Str → Option Str) (persist_mapping : Bool)
    (b : BaseOpts) (bonding_options : Str) (ms : Members) where
  -- A Linux bridge or team with members that are no route tables and have names is constructed unless
  -- two members are primary, where the name of the object itself can be resolved. Its primary interface
  -- is the one that the primary member stands for, if there is one. Every member gets the name from
  -- the arguments, and a member of a bridge is no port of Open vSwitch.
  pub init_linux_lem :
      (bridge_opts team_opts : BaseOpts)
      → AreNamed ms
      → init_opts mapped_nic_names macs persist_mapping (record b { primary = false })
        ≡ some bridge_opts
      → init_opts mapped_nic_names macs persist_mapping b ≡ some team_opts
      → (init_linux_bridge mapped_nic_names macs persist_mapping b ms
          ≡ bind (only (primaries ms)) (λ name. some (
              node
                (record bridge_opts { primary_interface_name = name })
                linux_bridge
                (assigned (in_bridge b.name) ms))))
        × (init_linux_team mapped_nic_names macs persist_mapping b bonding_options ms
            ≡ bind (only (primaries ms)) (λ name. some (
                node
                  (record team_opts { primary_interface_name = name })
                  (linux_team bonding_options)
                  (assigned (in_team b.name) ms))))
  unfolding init_linux_bridge init_linux_team
  init_linux_lem bridge_opts team_opts named bridge_made team_made = (
    rw (bridge_made, link_members_lem (in_bridge b.name) ms named)
        (ended (in_bridge b.name) bridge_opts linux_bridge ms (only (primaries ms))),
    rw (team_made, link_members_lem (in_team b.name) ms named)
        (ended (in_team b.name) team_opts (linux_team bonding_options) ms (only (primaries ms))),
  )
