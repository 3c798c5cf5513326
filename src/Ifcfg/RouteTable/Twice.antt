-- ===== src/Ifcfg/RouteTable/Twice.antt =====
-- What a second run of `generate_route_table_config` of os_net_config/impl_ifcfg.py gives.
use os_net_config.Base.{
  ℕ, ◌≡◌, sym, ap, ◌∙◌, some, List, [], ◌∷◌, ◌++◌, nat_eq, str_eq, option_str_eq, All, bind_inv,
}
use os_net_config.Base.Str.{Str, newline, split}
use os_net_config.Base.Dict.{Dict, keys, put}
use os_net_config.Sriov.Lines.{IsLine, write_lines, pieces-IsLine}
use os_net_config.Ifcfg.Parse.{Files, get_file_data, get_file_data-put}
use os_net_config.Ifcfg.RouteTable.{
  route_table_default, route_table_config_path, kept, sorted_ids, managed,
  generate_route_table_config,
}
use mathlib.Core.Option.{some-injective}
use os_net_config.Ifcfg.RouteTable.Lines.{
  AreOneLine, kept-IsLine, managed-AreManaged, split-data, AreKept, kept-AreKept, kept-defaults,
  default-AreDefaults, kept_again, kept-managed, default_lines,
}

module _ (route_tables : Dict ℕ Str) (names : AreOneLine route_tables) where
  kept_data :
      (old new : List Str)
      → AreKept route_tables old
      → All IsLine old
      → managed route_tables (sorted_ids (keys route_tables)) ≡ some new
      → kept route_tables
          (split newline ((route_table_default ++ write_lines old) ++ write_lines new))
        ≡ some old
  kept_data old new stays one_line h =
      let (marked, new_lines) = managed-AreManaged route_tables _ new names h in
      ap (kept route_tables) (split-data old new one_line new_lines)
      ∙ kept-defaults route_tables default_lines (old ++ (new ++ ([] ∷ []))) default-AreDefaults
      ∙ kept_again route_tables old (new ++ ([] ∷ [])) stays (kept-managed route_tables new marked)

  -- When the file that was made for some tables is there, it is made again without a change, for
  -- names without newlines.
  pub generate_twice :
      (fs : Files) (text : Str)
      → generate_route_table_config route_tables fs ≡ some text
      → generate_route_table_config route_tables (put fs route_table_config_path text) ≡ some text
  unfolding generate_route_table_config
  generate_twice fs text made =
      let config = split newline (get_file_data fs route_table_config_path) in
      let (old, h_old, k) = bind_inv (kept route_tables config) _ text made in
      let (new, h_new, m) =
        bind_inv (managed route_tables (sorted_ids (keys route_tables))) _ text k in
      let stored : kept route_tables (
            split newline
              (get_file_data (put fs route_table_config_path text) route_table_config_path))
          ≡ some old =
        ap (λ t. kept route_tables (split newline t))
          (get_file_data-put fs route_table_config_path text ∙ sym (some-injective _ _ m))
        ∙ kept_data old new (kept-AreKept route_tables config old h_old)
            (kept-IsLine route_tables config old (pieces-IsLine _) h_old) h_new in
      rw stored k
