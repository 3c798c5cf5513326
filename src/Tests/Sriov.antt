-- ===== src/Tests/Sriov.antt =====
-- SR-IOV on small files and a small kernel.
use os_net_config.Base.{
  ℕ, ◌≡◌, refl, ap, ◌≢◌, ◌⊎◌, Bool, true, ◌||◌, Option, none, some, List, [], ◌∷◌, arith,
  if◌then◌else◌, or_default, ◌==◌, beq_refl, list_beq, nat_eq, str_eq, option_str_eq, all, contains,
}
use os_net_config.Base.Str.{
  Str, str, starts_with, contains_str, split, lstrip, strip, is_space, digits_onto, decimal,
}
use os_net_config.Base.Dict.{keys, get, has, put, UniqueKeys}
use os_net_config.Mapping.{value_eq, text}
use os_net_config.Mapping.Vf.{set_vf_fields, new_vf, set_vf, VfSettings}
use os_net_config.Sriov.Lines.{splitlines, write_lines}
use os_net_config.Sriov.Udev.{
  replace_lines, or_data, add_rule, add_udev_rule_for_legacy_sriov_pf, lines_of, IsEnded, IsRule,
  stripped, added, add_udev_rule-HasRule, HasRule,
}
use os_net_config.Sriov.Numvfs.{set_numvfs, set_numvfs-result, Sysfs}
use os_net_config.Sriov.Wait.{basename, is_created, wait_for_vfs}
use os_net_config.Sriov.Vfs.{vf_steps, expected_steps, vf_steps-set_vf, driver_after, lacks_address}
use os_net_config.Sriov.Bind.{
  PcisMap, same_set, same_values, update_sriov_bind_pcis_map, binds,
  binds-update_sriov_bind_pcis_map, BindTool,
}

abbrev rule : Str
rule = str "KERNEL==\"p1\", RUN+=\"/bin/os-net-config-sriov -n %k:4\""

abbrev pattern : Str
pattern = str "KERNEL==\"p1\", RUN+=\"/bin/os-net-config-sriov -n"

abbrev old_rules : Str
old_rules = str "# comment\nKERNEL==\"p1\", RUN+=\"/bin/os-net-config-sriov -n %k:2\"\n"

-- The number of functions in the old rule is replaced.
replaced_rule :
    add_udev_rule_for_legacy_sriov_pf (str "p1") 4 (some old_rules)
    ≡ (str "# comment\nKERNEL==\"p1\", RUN+=\"/bin/os-net-config-sriov -n %k:4\"\n", true)
unfolding add_udev_rule_for_legacy_sriov_pf add_rule strip lstrip is_space str contains_str
    splitlines split write_lines replace_lines contains list_beq decimal digits_onto starts_with
replaced_rule = refl

rule-IsRule :
    IsRule
      (stripped rule (some pattern) (some old_rules))
      (or_data (some pattern) (stripped rule (some pattern) (some old_rules)))
unfolding str strip lstrip is_space contains contains_str starts_with
rule-IsRule = (refl, refl, refl)

old_rules-IsEnded : IsEnded (some old_rules)
unfolding str write_lines splitlines split
old_rules-IsEnded = refl

add_udev_rule-HasRule_example :
    HasRule
      (stripped rule (some pattern) (some old_rules))
      (or_data (some pattern) (stripped rule (some pattern) (some old_rules)))
      (lines_of (some old_rules))
      (added rule (some pattern) (some old_rules)).0
add_udev_rule-HasRule_example =
    add_udev_rule-HasRule rule (some pattern) (some old_rules) rule-IsRule old_rules-IsEnded

-- A kernel with one interface, whose state is the number of its functions.
abbrev sysfs : Sysfs
sysfs = record {
  State = ℕ;
  read_numvfs = λ s ifname. some s;
  write_numvfs = λ s ifname n. some n;
  read_autoprobe = λ s ifname. some 1;
  write_autoprobe = λ s ifname n. some s;
  wait_for_vf_creation = λ s ifname n. s;
}

numvfs_return : set_numvfs sysfs (str "p1") 4 true 0 ≡ (4, some 4)
unfolding set_numvfs
numvfs_return = refl

abbrev four : ℕ
four = 4

set_numvfs-result_example :
    (sysfs.read_numvfs 4 (str "p1") ≡ some 4)
    × ((four ≡ 4) ⊎ ((four ≢ 0) × (sysfs.read_numvfs 0 (str "p1") ≡ some 4) × (four ≡ 0)))
set_numvfs-result_example = set_numvfs-result sysfs (str "p1") 4 4 true 0 4 numvfs_return

abbrev nics : Str → Option (List Str)
nics dev = if dev == str "/sys/x" then none else some (str "p1" ∷ [])

abbrev events : List Str
events = str "/sys/x" ∷ str "/sys/a/p1_0" ∷ str "/sys/a/p1_0" ∷ str "/sys/b/p1_1" ∷ []

two_of_two : wait_for_vfs nics (str "p1") 2 events [] ≡ (
  (str "p1_0", (str "/sys/a/p1_0", str "p1")) ∷ (str "p1_1", (str "/sys/b/p1_1", str "p1")) ∷ [],
  true,
)
unfolding wait_for_vfs is_created basename split str list_beq put has contains
two_of_two = refl

abbrev vf_settings : VfSettings
vf_settings = record {
  vlan_id = 7;
  qos = 0;
  spoofcheck = some (text (str "on"));
  trust = none;
  state = none;
  macaddr = none;
  promisc = none;
  pci_address = some (str "0000:81:00.2");
  min_tx_rate = 5;
  max_tx_rate = 0;
  driver = some (str "vfio-pci");
}

new_vf-IsDict : UniqueKeys (new_vf (str "p1") 2)
unfolding has str list_beq
new_vf-IsDict = (refl, (refl, tt))

vf_steps-set_vf_example :
    vf_steps (str "p1") 2 (set_vf (set_vf_fields (str "p1_2") vf_settings) (new_vf (str "p1") 2))
    ≡ (
      expected_steps
          (str "p1")
          2
          (str "p1_2")
          vf_settings
          (driver_after vf_settings.driver (get (new_vf (str "p1") 2) (str "driver"))),
      lacks_address vf_settings.pci_address
          (driver_after vf_settings.driver (get (new_vf (str "p1") 2) (str "driver"))),
    )
vf_steps-set_vf_example =
    vf_steps-set_vf (str "p1_2") vf_settings (new_vf (str "p1") 2) new_vf-IsDict (str "p1") 2

abbrev pcis_map : PcisMap
pcis_map = (str "mlx5_core", str "0000:81:00.2" ∷ str "0000:81:00.3" ∷ []) ∷ []

abbrev other_order : PcisMap
other_order = (str "mlx5_core", str "0000:81:00.3" ∷ str "0000:81:00.2" ∷ []) ∷ []

-- Another order of the same functions is not written.
left_as_it_was : update_sriov_bind_pcis_map (some other_order) pcis_map ≡ other_order
unfolding update_sriov_bind_pcis_map same_set same_values all contains keys get str list_beq
left_as_it_was = refl

binds-update_sriov_bind_pcis_map_example :
    binds
      (update_sriov_bind_pcis_map (some other_order) pcis_map)
      (str "mlx5_core")
      (str "0000:81:00.2")
    ≡ binds pcis_map (str "mlx5_core") (str "0000:81:00.2")
binds-update_sriov_bind_pcis_map_example =
    binds-update_sriov_bind_pcis_map (some other_order) pcis_map (str "mlx5_core")
      (str "0000:81:00.2")

abbrev bind_tool : BindTool
bind_tool = record {
  State = Str → Bool;
  has_driver = λ s pci. s pci;
  bind = λ s driver pci. some (λ other. (pci == other) || s other);
  bind_binds = λ s t driver pci h. ground (arith, ap (λ o. or_default o s pci) h, beq_refl pci);
  bind_keeps = λ s t driver pci other h k. ground (arith, ap (λ o. or_default o s other) h);
}
