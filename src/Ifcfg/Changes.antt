-- ===== src/Ifcfg/Changes.antt =====
-- What differs between two ifcfg files, and whether the difference needs a restart:
-- `enumerate_ifcfg_changes` and `ifcfg_requires_restart` of os_net_config/impl_ifcfg.py.
pub mod Laws
pub mod Restart
use os_net_config.Base.{
  ℕ, zero, suc, ◌+◌, ◌-◌, ◌*◌, ◌/◌, ◌%◌, ◌≤◌, ◌<◌, String, ◌≡◌, refl, sym, ap, ◌∙◌, subst, ◌≢◌, ◌↔◌,
  ◌⊎◌, inl, inr, Bool, true, false, ◌&&◌, ◌||◌, not, Option, none, some, List, [], ◌∷◌, ◌++◌, map,
  arith, if◌then◌else◌, ltb, leb, nat_beq, nat_beq_iff, leb→le, Bool-cases, Option-cases, is_some,
  or_default, Bool-ext, ◌==◌, beq_refl, beq→eq, ne→beq, beq→ne, beq_sym, list_beq, list_beq_iff,
  option_beq, option_beq_iff, nat_eq, str_eq, option_str_eq, Eq, length, length-append, get_elem?,
  select, any, all, All, contains, contains-append, contains-select, NodupB,
}
use os_net_config.Base.Str.{
  Str, str, newline, starts_with, contains_str, push_first, split, partition, lstrip, strip,
  is_space, is_digit, isdigit, upper, join, int_onto, int, digits_onto, decimal,
}
use os_net_config.Base.Dict.{
  Dict, keys, values, get, has, put, get-put, has-put, has-eq-is_some, contains-keys, dict_laws,
}
use os_net_config.Ifcfg.Parse.{
  Files, get_file_data, is_quote, key_value, parse_line, enter, parse_lines, parse_ifcfg,
}

pub data Change : Type 0 where
  modified removed added : Change

-- One turn of the loop over the keys of the old file, from the value in the new one.
unfoldable pub note_old : Str → Str → Option Str → Dict Str Change → Dict Str Change
note_old k v none changed = put changed k removed
note_old k v (some w) changed = if upper v == upper w then changed else put changed k modified

-- The loop over the keys of the old file.
unfoldable pub old_changes : Dict Str Str → Dict Str Str → Dict Str Change → Dict Str Change
old_changes [] new changed = changed
old_changes ((k, v) ∷ old) new changed = old_changes old new (note_old k v (get new k) changed)

-- The loop over the keys of the new file.
unfoldable pub new_changes : Dict Str Str → Dict Str Str → Dict Str Change → Dict Str Change
new_changes old [] changed = changed
new_changes old ((k, w) ∷ new) changed =
    new_changes old new (if has old k then changed else put changed k added)

unfoldable pub enumerate_ifcfg_changes : Dict Str Str → Dict Str Str → Dict Str Change
unfolding note_old old_changes new_changes
enumerate_ifcfg_changes old new = new_changes old new (old_changes old new [])

unfoldable pub permitted_changes : List Str
permitted_changes =
    str "IPADDR"
    ∷ str "NETMASK"
    ∷ str "MTU"
    ∷ str "ONBOOT"
    ∷ str "ETHTOOL_OPTS"
    ∷ str "DOMAIN"
    ∷ str "DNS1"
    ∷ str "DNS2"
    ∷ []

unfoldable pub boot_protocols : List Str
boot_protocols = str "BOOTPROTO" ∷ str "OVSBOOTPROTO" ∷ []

-- `change in new_values and new_values[change].upper() == 'DHCP'`
unfoldable pub moves_to_dhcp : Option Str → Bool
moves_to_dhcp none = false
moves_to_dhcp (some v) = upper v == str "DHCP"

-- One turn of the loop over the changes.
unfoldable pub forces_restart : Dict Str Str → Str → Bool
forces_restart new_values change =
    if contains permitted_changes change
    then false
    else if contains boot_protocols change
    then moves_to_dhcp (get new_values change)
    else true

unfoldable pub ifcfg_requires_restart : Files → Str → Str → Bool
ifcfg_requires_restart fs filename new_data =
    let file_values = parse_ifcfg (get_file_data fs filename) in
    let new_values = parse_ifcfg new_data in
    any (forces_restart new_values) (keys (enumerate_ifcfg_changes file_values new_values))
