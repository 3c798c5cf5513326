-- ===== src/Eni/Read/Options.antt =====
-- The lines of a stanza that os_net_config/impl_eni.py writes: which of them are options.
use os_net_config.Base.{
  ℕ, ◌≡◌, refl, ap, ◌∙◌, Bool, true, false, Option, none, some, List, [], ◌∷◌, ◌++◌, if◌then◌else◌,
  ◌==◌, list_beq, nat_eq, str_eq, option_str_eq, All,
}
use os_net_config.Base.Str.{Str, str, starts_with, partition, decimal}
use os_net_config.Base.Dict.{get}
use os_net_config.Objects.{
  Address, BaseOpts, Kind, Members, node, nil, cons, interface, vlan, ovs_bridge,
}
use os_net_config.Eni.{
  address_data, flush_lines, member_lines, start_lines, class_lines, mtu_line, extra_line,
  option_lines,
}
use os_net_config.Eni.Read.{read_line, read_lines, IsStart, IsOption}
use mathlib.Core.List.{append_assoc}

All-if :
    (P : Str → Type 0) (test : Bool) (xs ys : List Str)
    → All P xs
    → All P ys
    → All P (if test then xs else ys)
All-if P true xs ys h k = h
All-if P false xs ys h k = k

pub starts-IsStart : (b : BaseOpts) (k : Kind) → All IsStart (start_lines b k)
unfolding start_lines starts_with str
starts-IsStart b (ovs_bridge ovs_options ovs_extra) = ((refl, refl), ((refl, refl), tt))
starts-IsStart b (vlan vlan_id device ovs_options ovs_extra) =
    ((refl, refl), All-if _ b.ovs_port _ [] ((refl, refl), tt) tt)
starts-IsStart b (interface hotplug linkdelay ethtool_opts) =
    All-if _ b.ovs_port _ _ ((refl, refl), ((refl, refl), tt))
      (All-if _ hotplug _ _ ((refl, refl), tt) ((refl, refl), tt))
starts-IsStart b k = All-if _ b.ovs_port _ _ ((refl, refl), ((refl, refl), tt)) ((refl, refl), tt)

All-both : (P : Str → Type 0) (xs ys : List Str) → All P xs → All P ys → All P (xs ++ ys)
All-both P [] ys h k = k
All-both P (x ∷ xs) ys (p, h) k = (p, All-both P xs ys h k)

flush-IsOption : (ms : Members) → All IsOption (flush_lines ms)
unfolding flush_lines starts_with str
flush-IsOption nil = tt
flush-IsOption (cons (node b (interface hotplug linkdelay ethtool_opts) ms) rest) =
    ((refl, refl), flush-IsOption rest)
flush-IsOption (cons o rest) = flush-IsOption rest

class-IsOption : (b : BaseOpts) (k : Kind) (ms : Members) → All IsOption (class_lines b k ms)
unfolding class_lines member_lines starts_with str
class-IsOption b (ovs_bridge ovs_options ovs_extra) nil = ((refl, refl), tt)
class-IsOption b (ovs_bridge ovs_options ovs_extra) (cons o ms) =
    ((refl, refl), ((refl, refl), flush-IsOption (cons o ms)))
class-IsOption b (vlan vlan_id device ovs_options ovs_extra) ms =
    All-if _ b.ovs_port _ _ ((refl, refl), ((refl, refl), ((refl, refl), tt))) ((refl, refl), tt)
class-IsOption b k ms = All-if _ b.ovs_port _ [] ((refl, refl), ((refl, refl), tt)) tt

mtu-IsOption : (b : BaseOpts) → All IsOption (mtu_line b)
unfolding mtu_line starts_with str
mtu-IsOption b = All-if _ (b.mtu == 0) [] _ tt ((refl, refl), tt)

extra-IsOption : (extra : List Str) → All IsOption (extra_line extra)
unfolding starts_with str
extra-IsOption [] = tt
extra-IsOption (e ∷ extra) = ((refl, refl), tt)

address-IsOption : (a : Option Address) (ip_version : ℕ) → All IsOption (address_data a ip_version)
unfolding address_data starts_with str
address-IsOption none ip_version = tt
address-IsOption (some a) ip_version = ((refl, refl), ((refl, refl), tt))

pub options-IsOption :
    (b : BaseOpts) (k : Kind) (ms : Members) (a : Option Address) (ip_version : ℕ)
    (extra : List Str)
    → All IsOption (option_lines b k ms a ip_version extra)
unfolding option_lines
options-IsOption b k ms a ip_version extra =
    All-both IsOption (address_data a ip_version) _ (address-IsOption a ip_version) (
      All-both IsOption (class_lines b k ms) _ (class-IsOption b k ms)
        (All-both IsOption (mtu_line b) (extra_line extra) (mtu-IsOption b) (extra-IsOption extra)))

-- The address comes first among the options.
get-address_data :
    (a : Address) (ip_version : ℕ) (rest : List Str)
    → (get (read_lines (address_data (some a) ip_version ++ rest)).0 (str "address") ≡ some a.ip)
      × (get (read_lines (address_data (some a) ip_version ++ rest)).0 (str "netmask")
          ≡ some (if ip_version == 6 then decimal a.prefixlen else a.netmask))
unfolding address_data read_lines read_line starts_with partition get list_beq str
get-address_data a ip_version rest = (refl, refl)

module _ (b : BaseOpts) (k : Kind) (ms : Members) (a : Address) (ip_version : ℕ)
    (extra rest : List Str) where
  others : List Str
  others = class_lines b k ms ++ (mtu_line b ++ extra_line extra)

  pub get-option_lines :
      (get (read_lines (option_lines b k ms (some a) ip_version extra ++ rest)).0 (str "address")
        ≡ some a.ip)
      × (get (read_lines (option_lines b k ms (some a) ip_version extra ++ rest)).0 (str "netmask")
          ≡ some (if ip_version == 6 then decimal a.prefixlen else a.netmask))
  unfolding option_lines others
  get-option_lines =
      let (address, netmask) = get-address_data a ip_version (others ++ rest) in
      let order = append_assoc (address_data (some a) ip_version) others rest in
      (
        ap (λ l. get (read_lines l).0 (str "address")) order ∙ address,
        ap (λ l. get (read_lines l).0 (str "netmask")) order ∙ netmask,
      )
