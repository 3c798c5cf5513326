-- ===== src/Ifcfg/Apply/Decide.antt =====
-- The loops of `apply` one after the other.
use os_net_config.Base.{ℕ, Option, none, some, nat_eq, str_eq, option_str_eq}
use os_net_config.Ifcfg.Parse.{Files}
use os_net_config.Ifcfg.Apply.{no_changes, NetConfig, Plan}
use os_net_config.Ifcfg.Apply.Loops.{interface_loop, ivs_loop, nfvswitch_loop, ib_loop}
use os_net_config.Ifcfg.Apply.Bridges.{bridge_loop, linuxbridge_loop, team_loop, bond_loop}
use os_net_config.Ifcfg.Apply.Vlans.{vlan_loop, ib_child_loop}

module _ (fuel : ℕ) (c : NetConfig) (fs : Files) where
  -- Up to the loop over the Open vSwitch bridges.
  unfoldable pub decide_first : Plan
  decide_first = bridge_loop fuel c fs c.bridge_data (
      nfvswitch_loop c fs c.nfvswitch_intiface_data
        (ivs_loop c fs c.ivsinterface_data (interface_loop c fs c.interface_data no_changes)))

  -- From the loop over the teams on.
  unfoldable pub decide_last : Plan → Plan
  decide_last p = ib_child_loop c fs c.ib_childs_data (
      vlan_loop c fs c.vlan_data (
        ib_loop c fs c.ib_interface_data
          (bond_loop fuel c fs c.linuxbond_data (team_loop fuel c fs c.linuxteam_data p))))

  -- `none` is the error that the loop over the Linux bridges may raise.
  unfoldable pub decide : Option Plan
  unfolding decide_first decide_last
  decide = elim (linuxbridge_loop fuel c fs c.linuxbridge_data decide_first) [
    | none ↦ none
    | some p ↦ some (decide_last p)
  ]
