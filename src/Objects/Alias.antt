-- ===== src/Objects/Alias.antt =====
-- Aliases of interfaces in the names of objects, as `_BaseOpts.__init__` of
-- os_net_config/objects.py resolves them.
use os_net_config.Base.{
  ℕ, ◌≡◌, refl, ap, ◌∙◌, Bool, true, false, Option, some, [], ◌∷◌, ◌++◌, nat_eq, str_eq,
  option_str_eq, contains,
}
use os_net_config.Base.Str.{Str, split, is_digit, decimal}
use os_net_config.Base.Dict.{Dict, get}
use os_net_config.Base.Str.Laws.{split-append, split_whole, contains-decimal}
use os_net_config.Objects.{BaseOpts}
use os_net_config.Objects.Build.{base_name, vlan_suffix, fresh, with_nic, init_opts}
use os_net_config.Base.Str.Digits.{isdigit-decimal}

no_digit : is_digit b'.' ≡ false
unfolding is_digit
no_digit = refl

module _ (alias : Str) (vlan_id : ℕ) (no_dot : contains alias b'.' ≡ false) where
  vlan_pieces : split b'.' (alias ++ (b'.' ∷ decimal vlan_id)) ≡ alias ∷ decimal vlan_id ∷ []
  vlan_pieces =
      split-append b'.' alias (decimal vlan_id) no_dot
      ∙ ap (λ l. alias ∷ l)
          (split_whole b'.' (decimal vlan_id) (contains-decimal vlan_id b'.' no_digit))

  vlan_base : (name : Str) → base_name name (alias ∷ decimal vlan_id ∷ []) ≡ alias
  unfolding base_name
  vlan_base name = rw (isdigit-decimal vlan_id) refl

  vlan_end : vlan_suffix (alias ∷ decimal vlan_id ∷ []) ≡ b'.' ∷ decimal vlan_id
  unfolding vlan_suffix
  vlan_end = rw (isdigit-decimal vlan_id) refl

  not_kept :
      (macs : Str → Option Str) (nic : Str) (b : BaseOpts)
      → with_nic macs false (b'.' ∷ decimal vlan_id) (some nic) b
        ≡ some (record b { name = nic ++ (b'.' ∷ decimal vlan_id) })
  unfolding with_nic
  not_kept macs nic b = refl

  kept_name :
      (macs : Str → Option Str) (nic mac : Str) (b : BaseOpts)
      → macs (nic ++ (b'.' ∷ decimal vlan_id)) ≡ some mac
      → with_nic macs true (b'.' ∷ decimal vlan_id) (some nic) b
        ≡ some (record b { hwname = nic ++ (b'.' ∷ decimal vlan_id); hwaddr = mac; renamed = true })
  unfolding with_nic
  kept_name macs nic mac b known = rw known refl

  -- The name of a VLAN on an alias, `<alias>.<vlan_id>`, where the alias has no dot and is mapped to
  -- an interface, becomes `<interface>.<vlan_id>`; with a persistent mapping the name stays and that
  -- is the interface to be renamed, by its MAC address.
  pub init_opts-vlan :
      (mapped_nic_names : Dict Str Str) (macs : Str → Option Str) (b : BaseOpts) (nic mac : Str)
      → get mapped_nic_names alias ≡ some nic
      → macs (nic ++ (b'.' ∷ decimal vlan_id)) ≡ some mac
      → b.name ≡ alias ++ (b'.' ∷ decimal vlan_id)
      → (init_opts mapped_nic_names macs false b
          ≡ some (record (fresh b) { name = nic ++ (b'.' ∷ decimal vlan_id) }))
        × (init_opts mapped_nic_names macs true b
            ≡ some (record (fresh b) {
              hwname = nic ++ (b'.' ∷ decimal vlan_id);
              hwaddr = mac;
              renamed = true;
            }))
  unfolding init_opts
  init_opts-vlan mapped_nic_names macs b nic mac found known named =
      let pieces : split b'.' b.name ≡ alias ∷ decimal vlan_id ∷ [] =
        ap (split b'.') named ∙ vlan_pieces in
      let base : get mapped_nic_names (base_name b.name (split b'.' b.name)) ≡ some nic =
        ap (λ l. get mapped_nic_names (base_name b.name l)) pieces
        ∙ ap (get mapped_nic_names) (vlan_base b.name)
        ∙ found in
      let end : vlan_suffix (split b'.' b.name) ≡ b'.' ∷ decimal vlan_id =
        ap vlan_suffix pieces ∙ vlan_end in
      let resolved : (persist : Bool)
          → init_opts mapped_nic_names macs persist b
            ≡ with_nic macs persist (b'.' ∷ decimal vlan_id) (some nic) (fresh b) =
        λ persist.
          ap
            (λ suffix.
              with_nic macs persist suffix
                (get mapped_nic_names (base_name b.name (split b'.' b.name))) (fresh b))
            end
          ∙ ap (λ o. with_nic macs persist (b'.' ∷ decimal vlan_id) o (fresh b)) base in
      (
        resolved false ∙ not_kept macs nic (fresh b),
        resolved true ∙ kept_name macs nic mac (fresh b) known,
      )
