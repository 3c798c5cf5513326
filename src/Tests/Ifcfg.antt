-- ===== src/Tests/Ifcfg.antt =====
-- The ifcfg provider on small files.
use os_net_config.Ifcfg.Apply.Bridges.{linuxbridge_loop}
use os_net_config.Ifcfg.Parse.{Files, parse_ifcfg, parse_line, parse_lines, get_file_data}
use os_net_config.Ifcfg.Changes.{
  ifcfg_requires_restart, enumerate_ifcfg_changes, Change, modified, removed, added,
}
use os_net_config.Base.Str.{
  str, Str, strip, split, lstrip, starts_with, partition, upper, is_space, decimal,
}
use os_net_config.Base.Dict.{get, Dict, put, has, UniqueKeys}
use os_net_config.Base.{
  ◌≡◌, ◌∷◌, ℕ, true, [], Bool, ◌↔◌, contains, none, list_beq, some, refl, sym, ◌∙◌, inl, inr, false,
  ◌&&◌, ◌||◌, not, List, arith, if◌then◌else◌, or_default, ◌==◌, beq_refl, nat_eq, str_eq,
  option_str_eq, select, ◌++◌, ap, Bool-cases, subst, beq→eq, beq_sym,
}
use os_net_config.Ifcfg.Changes.Laws.{change_of, get-enumerate_ifcfg_changes}
use os_net_config.Ifcfg.Commands.{
  IpCommand, cidr_of, iproute2_apply, iproute2_apply_commands, parse_ifcfg_routes, addr_add,
  addr_del, addr_flush, link_mtu,
}
use os_net_config.Ifcfg.Parse.Print.{IsPrintable}
use os_net_config.Ifcfg.Changes.Restart.{ForcesRestart, ifcfg_requires_restart_iff}
use os_net_config.Ifcfg.Commands.Address.{
  applied, iproute2_apply-IsConfigured, iproute2_apply-flushes, iproute2_apply_mask_only,
  stays_in_subnet,
}
use os_net_config.Ifcfg.Commands.Route.{
  changed, run_changes-iproute2_route_changes, RouteTool, run_changes,
}
use os_net_config.Ifcfg.Apply.{
  no_changes, ifcfg_config_path, route_config_path, route6_config_path, route_rule_config_path,
  NetConfig, Plan, note_all, diff,
}
use os_net_config.Ifcfg.Apply.Children.{child_members, Descends, child_members_iff, IsBelow}
use os_net_config.Ifcfg.Apply.Decide.{decide}
use os_net_config.Ifcfg.Apply.Updates.{files_of, wanted, Entry}
use os_net_config.Ifcfg.Apply.Quiet.{write_files, IsConsistent, decide-settles, IsQuiet}
use os_net_config.Ifcfg.Apply.Second.{decide_twice}
use os_net_config.Ifcfg.Apply.Stale.{decide_stale}
use os_net_config.Ifcfg.Commands.Link.{IpTool, IsPlainChange, IsConfigured}
use os_net_config.Ifcfg.Apply.Crossed.{route_phase, route_phase-crossed}

abbrev old_text : Str
old_text = str "# header\nDEVICE=em1\nIPADDR=1.2.3.4\nNETMASK=255.255.255.0\n"

abbrev new_text : Str
new_text = str "# header\nDEVICE=em1\nIPADDR=1.2.3.5\nNETMASK=255.255.255.0\nMTU=\"9000\"\n"

abbrev path : Str
path = str "ifcfg-em1"

abbrev fs : Files
fs = (path, old_text) ∷ []

-- The prefix length, for the masks of the tests.
abbrev bits : Str → ℕ
bits mask = if mask == str "255.255.255.0" then 24 else 16

parse_quoted : get (parse_ifcfg new_text) (str "MTU") ≡ some (str "9000")
unfolding str parse_ifcfg parse_line parse_lines split starts_with partition strip lstrip put get
    list_beq
parse_quoted = refl

commands_of_change :
    iproute2_apply_commands bits fs (str "em1") path new_text
    ≡ str "addr add 1.2.3.5/24 dev em1"
      ∷ str "addr del 1.2.3.4/24 dev em1"
      ∷ str "link set dev em1 mtu 9000"
      ∷ []
unfolding str parse_ifcfg split starts_with partition strip put get has upper get_file_data
    enumerate_ifcfg_changes iproute2_apply_commands decimal list_beq
commands_of_change = refl

-- Parsing.

abbrev entries : Dict Str Str
entries = (str "MTU", str "1500") ∷ (str "MTU", str "9000") ∷ []

entries-IsPrintable : IsPrintable entries
unfolding str strip lstrip contains
entries-IsPrintable = ((refl, refl, refl), (refl, refl), ((refl, refl, refl), (refl, refl), tt))

get-enumerate_ifcfg_changes_example :
    get (enumerate_ifcfg_changes (parse_ifcfg old_text) (parse_ifcfg new_text)) (str "MTU")
    ≡ change_of (get (parse_ifcfg old_text) (str "MTU")) (get (parse_ifcfg new_text) (str "MTU"))
get-enumerate_ifcfg_changes_example = get-enumerate_ifcfg_changes old_text new_text (str "MTU")

ifcfg_requires_restart_iff_example :
    (ifcfg_requires_restart fs path new_text ≡ true)
    ↔ ((k : Str) × ForcesRestart (get_file_data fs path) new_text k)
ifcfg_requires_restart_iff_example = ifcfg_requires_restart_iff fs path new_text

-- The `ip` command on a link whose addresses are a list in the order of their addition, all with a
-- prefix of 24 bits.

abbrev but_last : List Str → List Str
but_last [] = []
but_last (piece ∷ []) = []
but_last (piece ∷ next ∷ pieces) = piece ∷ but_last (next ∷ pieces)

abbrev in_subnet : Str → ℕ → Str → ℕ → Bool
in_subnet ip cidr j e = (cidr == e) && list_beq (but_last (split b'.' ip)) (but_last (split b'.' j))

abbrev Addresses : Type 0
Addresses = List (Str × ℕ)

unfoldable holds : Addresses → Str → ℕ → Bool
holds [] j e = false
holds ((ip, cidr) ∷ l) j e = ((ip == j) && (cidr == e)) || holds l j e

-- Whether an address is the first in the subnet of another one
unfoldable is_first : Addresses → Str → ℕ → Str → ℕ → Bool
is_first [] ip cidr j e = false
is_first ((a, b) ∷ l) ip cidr j e =
    let later = is_first l ip cidr j e in
    if in_subnet a b j e then (a == ip) && (b == cidr) else later

abbrev is_second : Addresses → Str → ℕ → Str → ℕ → Bool
is_second l ip cidr j e =
    in_subnet ip cidr j e && is_first l ip cidr j e && not ((ip == j) && (cidr == e))

unfoldable keep : (Str → ℕ → Bool) → Addresses → Addresses
keep test [] = []
keep test ((ip, cidr) ∷ l) =
    let rest = keep test l in if test ip cidr then (ip, cidr) ∷ rest else rest

holds-keep :
    (test : Str → ℕ → Bool) (l : Addresses) (j : Str) (e : ℕ)
    → holds (keep test l) j e ≡ (holds l j e && test j e)
unfolding holds keep
holds-keep test [] j e = refl
holds-keep test ((ip, cidr) ∷ l) j e = elim (Bool-cases ((ip == j) && (cidr == e))) [
  | inl here ↦
      let same : test ip cidr ≡ test j e =
        ap (λ i. test i cidr) (beq→eq ip j (ground arith))
        ∙ ap (test j) (beq→eq cidr e (ground arith)) in
      ground (arith, same, holds-keep test l j e)
  | inr other ↦ ground (arith, holds-keep test l j e)
]

holds-end :
    (l : Addresses) (ip : Str) (cidr : ℕ) (j : Str) (e : ℕ)
    → holds (l ++ ((ip, cidr) ∷ [])) j e ≡ (((ip == j) && (cidr == e)) || holds l j e)
unfolding holds
holds-end [] ip cidr j e = refl
holds-end ((a, b) ∷ l) ip cidr j e = ground (arith, holds-end l ip cidr j e)

second-end :
    (l : Addresses) (ip : Str) (cidr : ℕ) (j : Str) (e : ℕ)
    → ((i : Str) (c : ℕ) → holds l i c ≡ ((ip == i) && (cidr == c)))
    → ((ip == j) && (cidr == e)) ≡ false
    → in_subnet ip cidr j e ≡ true
    → is_second (l ++ ((j, e) ∷ [])) ip cidr j e ≡ true
unfolding holds is_first
second-end [] ip cidr j e only differ same =
    absurd (ground (arith, only ip cidr, beq_refl ip, beq_refl cidr))
second-end ((a, b) ∷ l) ip cidr j e only differ same =
    let here : ((ip == a) && (cidr == b)) ≡ true =
      ground (arith, only a b, beq_refl a, beq_refl b) in
    let same_first : in_subnet a b j e ≡ true =
      subst (λ i. in_subnet i b j e ≡ true) (beq→eq ip a (ground arith))
        (subst (λ c. in_subnet ip c j e ≡ true) (beq→eq cidr b (ground arith)) same) in
    ground (arith, beq_sym ip a, beq_sym cidr b)

regroup : (a b c : Bool) → (a && (b && c)) ≡ ((a && b) && c)
regroup a b c = ground arith

abbrev run_ip : Addresses × Str → IpCommand → Addresses × Str
run_ip (l, m) (addr_add ip cidr dev) = (l ++ ((ip, cidr) ∷ []), m)
run_ip (l, m) (addr_del ip cidr dev) =
    (keep (λ j e. not ((ip == j) && (cidr == e)) && not (is_second l ip cidr j e)) l, m)
run_ip (l, m) (addr_flush dev) = ([], m)
run_ip (l, m) (link_mtu dev n) = (l, n)

abbrev ip_tool : IpTool
ip_tool = record {
  Link = Addresses × Str;
  run = run_ip;
  has_address = λ (l, m). holds l;
  mtu = λ (l, m). m;
  promote_secondaries = false;
  same_subnet = in_subnet;
  is_secondary = λ (l, m). is_second l;
  run_add = λ (l, m) ip cidr dev j e. holds-end l ip cidr j e;
  run_del = λ (l, m) ip cidr dev j e.
      holds-keep (λ i c. not ((ip == i) && (cidr == c)) && not (is_second l ip cidr i c)) l j e
      ∙ regroup (holds l j e) (not ((ip == j) && (cidr == e))) (not (is_second l ip cidr j e));
  secondary_subnet = λ (l, m) ip cidr j e h. rw h refl;
  secondary_add =
      λ (l, m) ip cidr dev j e only differ same. second-end l ip cidr j e only differ same;
  run_flush = λ l dev j e. unfold holds in refl;
  run_mtu = λ l dev m j e. refl;
  mtu_add = λ l ip cidr dev. refl;
  mtu_del = λ l ip cidr dev. refl;
  mtu_flush = λ l dev. refl;
  mtu_set = λ l dev m. refl;
}

abbrev link_before : Addresses × Str
link_before = ((str "1.2.3.4", 24) ∷ [], str "1500")

-- An address in another subnet
abbrev moved_text : Str
moved_text = str "# header\nDEVICE=em1\nIPADDR=1.2.4.5\nNETMASK=255.255.255.0\nMTU=\"9000\"\n"

change-IsPlainChange : IsPlainChange bits old_text moved_text
unfolding str parse_ifcfg split starts_with partition strip put get upper list_beq cidr_of
change-IsPlainChange = record {
  old_mask = λ _ p. absurd (omega arith);
  same_ip = λ p. cc p;
  same_mtu = λ p. cc p;
  same_mask = λ p. refl;
}

before-IsConfigured : IsConfigured ip_tool bits old_text link_before
unfolding str parse_ifcfg split starts_with partition strip put get upper list_beq cidr_of holds
before-IsConfigured = record { addresses = λ j e. ground arith; link_mtu = refl }

leaves_subnet : stays_in_subnet ip_tool bits fs (str "em1") path moved_text ≡ false
unfolding get_file_data str parse_ifcfg split starts_with partition strip put get list_beq cidr_of
leaves_subnet = refl

iproute2_apply-IsConfigured_example :
    IsConfigured ip_tool bits moved_text
      (applied ip_tool bits fs (str "em1") path moved_text link_before)
unfolding get_file_data str get list_beq
iproute2_apply-IsConfigured_example =
    iproute2_apply-IsConfigured ip_tool bits fs (str "em1") path moved_text link_before
      change-IsPlainChange (λ _. ap not leaves_subnet) before-IsConfigured

in_same_subnet : stays_in_subnet ip_tool bits fs (str "em1") path new_text ≡ true
unfolding get_file_data str parse_ifcfg split starts_with partition strip put get list_beq cidr_of
in_same_subnet = refl

iproute2_apply-flushes_example :
    ip_tool.has_address
      (applied ip_tool bits fs (str "em1") path new_text link_before)
      (str "1.2.3.5")
      24
    ≡ false
unfolding get_file_data str get list_beq
iproute2_apply-flushes_example =
    iproute2_apply-flushes ip_tool bits fs (str "em1") path new_text link_before (str "1.2.3.5") 24
      (unfold parse_ifcfg split starts_with partition strip put upper in refl)
      (inr (refl, in_same_subnet, before-IsConfigured))

iproute2_apply_mask_only_example :
    iproute2_apply bits fs (str "em1") path (str "IPADDR=1.2.3.4\nNETMASK=255.255.0.0\n") ≡ []
iproute2_apply_mask_only_example =
    iproute2_apply_mask_only ip_tool bits fs (str "em1") path
      (str "IPADDR=1.2.3.4\nNETMASK=255.255.0.0\n")
      (unfold str parse_ifcfg split starts_with partition strip put get upper list_beq
          get_file_data in
        refl)
      (unfold str parse_ifcfg split starts_with partition strip put get upper list_beq
          get_file_data in
        refl)

-- The `ip route` command on a table that is a function.

abbrev run_route : (Str → Bool) → Str × Change → Str → Bool
run_route t (route, removed) r = t r && not (route == r)
run_route t (route, added) r = (route == r) || t r
run_route t (route, modified) r = t r

abbrev route_tool : RouteTool
route_tool = record {
  Table = Str → Bool;
  run = run_route;
  holds = λ t. t;
  run_added = λ t route r. refl;
  run_removed = λ t route r. refl;
}

abbrev route_fs : Files
route_fs = (str "route-em1", str "default via 1.2.3.1 dev em1\n") ∷ []

abbrev old_route : Str
old_route = str "default via 1.2.3.1 dev em1"

abbrev new_routes : Str
new_routes = str "default via 1.2.3.2 dev em1\n"

abbrev table_before : Str → Bool
table_before r = old_route == r

run_changes-iproute2_route_changes_example :
    route_tool.holds
      (changed route_tool route_fs (str "route-em1") new_routes table_before old_route)
      old_route
    ≡ false
unfolding str split parse_ifcfg_routes get_file_data contains list_beq strip is_space starts_with
    get select
run_changes-iproute2_route_changes_example =
    run_changes-iproute2_route_changes route_tool route_fs (str "route-em1") new_routes table_before
      old_route (λ _. refl)

-- A bond on one interface.

abbrev members : Dict Str (List Str)
members = (str "bond1", str "em1" ∷ []) ∷ []

abbrev rank : Str → ℕ
rank name = if name == str "bond1" then 1 else 0

members-Descends : Descends rank members
unfolding get contains str list_beq
members-Descends name member h = ground arith

child_members_iff_example :
    (contains (child_members 2 members (str "bond1")) (str "em1") ≡ true)
    ↔ IsBelow members (str "bond1") (str "em1")
child_members_iff_example =
    child_members_iff members rank 2 (str "bond1") (str "em1") members-Descends
      (unfold str list_beq in omega arith)

abbrev config : NetConfig
config = record {
  root_dir = [];
  interface_data = (str "em1", new_text) ∷ [];
  ivsinterface_data = [];
  nfvswitch_intiface_data = [];
  vlan_data = [];
  ib_childs_data = [];
  ib_interface_data = [];
  route_data = (str "em1", new_routes) ∷ [];
  route6_data = [];
  rule_data = [];
  bridge_data = [];
  linuxbridge_data = [];
  linuxbond_data = (str "bond1", str "DEVICE=bond1\n") ∷ [];
  linuxteam_data = [];
  member_names = members;
}

abbrev bridge_config : NetConfig
bridge_config = record config {
  interface_data = [];
  linuxbridge_data = (str "br0", str "DEVICE=br0\n") ∷ [];
}

Entry-has : (l : Dict Str Str) (p d : Str) → Entry l p d → has l p ≡ true
unfolding has
Entry-has [] p d h = absurd h
Entry-has ((q, e) ∷ l) p d (inl (same, _)) = ground (arith, beq_refl q)
Entry-has ((q, e) ∷ l) p d (inr more) = ground (arith, Entry-has l p d more)

Entry-unique : (l : Dict Str Str) (p d e : Str) → UniqueKeys l → Entry l p d → Entry l p e → d ≡ e
Entry-unique [] p d e u h k = absurd h
Entry-unique ((q, c) ∷ l) p d e (fresh, u) (inl (_, x)) (inl (_, y)) = sym x ∙ y
Entry-unique ((q, c) ∷ l) p d e (fresh, u) (inl (x, _)) (inr m) =
    absurd (ground (arith, Entry-has l p e m))
Entry-unique ((q, c) ∷ l) p d e (fresh, u) (inr m) (inl (x, _)) =
    absurd (ground (arith, Entry-has l p d m))
Entry-unique ((q, c) ∷ l) p d e (fresh, u) (inr m) (inr n) = Entry-unique l p d e u m n

config-IsConsistent : IsConsistent config
config-IsConsistent path d e = Entry-unique (wanted config) path d e (
    unfold wanted files_of has str list_beq route_config_path ifcfg_config_path route6_config_path
      route_rule_config_path in
    (refl, (refl, (refl, (refl, (refl, (refl, (refl, (refl, tt)))))))))

abbrev first_plan : Plan
first_plan = or_default (decide 2 config fs) no_changes

abbrev second_plan : Plan
second_plan = or_default (decide 2 config (write_files first_plan.update_files fs)) no_changes

decide-settles_example :
    get_file_data
      (write_files first_plan.update_files fs)
      (str "/etc/sysconfig/network-scripts/ifcfg-em1")
    ≡ new_text
unfolding ifcfg_config_path
decide-settles_example =
    decide-settles 2 config fs first_plan refl config-IsConsistent
      (unfold decide linuxbridge_loop in refl) (str "/etc/sysconfig/network-scripts/ifcfg-em1")
      new_text (unfold wanted files_of str in inl (refl, refl))

decide_twice_example : IsQuiet second_plan
decide_twice_example =
    decide_twice 2 config fs first_plan second_plan refl config-IsConsistent
      (unfold decide linuxbridge_loop in refl) (unfold decide linuxbridge_loop in refl)

decide_stale_example : decide 2 bridge_config fs ≡ none
decide_stale_example = decide_stale 2 bridge_config fs refl refl refl (λ p. cc p)

-- The IPv4 routes are in their file, the IPv6 route is new.
abbrev dual : NetConfig
dual = record config { route6_data = (str "em1", str "2001::/64 via 2001::1 dev em1\n") ∷ [] }

abbrev dual_fs : Files
dual_fs = (route_config_path (str "em1"), new_routes) ∷ []

abbrev wanted_route : Str
wanted_route = str "default via 1.2.3.2 dev em1"

route_phase-crossed_example :
    route_tool.holds
      (run_changes route_tool
        (λ r. true)
        (route_phase dual dual_fs
          (note_all dual dual_fs false (str "em1") no_changes).apply_routes))
      wanted_route
    ≡ false
unfolding select
route_phase-crossed_example =
    route_phase-crossed route_tool dual dual_fs (str "em1") no_changes refl
      (unfold diff get_file_data get str list_beq route_config_path route6_config_path in refl)
      (unfold diff get_file_data get str list_beq route_config_path route6_config_path in refl)
      (λ r. true) wanted_route
      (unfold str split parse_ifcfg_routes get contains list_beq strip is_space starts_with in refl)
      (unfold str split parse_ifcfg_routes get contains list_beq strip is_space starts_with in refl)
