-- ===== src/Tests/Tables.antt =====
-- Routing tables at work: an old file with a comment, a table of the user and a managed table.
use os_net_config.Base.{
  ℕ, ◌≡◌, refl, false, ◌||◌, some, List, [], ◌∷◌, ◌++◌, list_beq, nat_eq, str_eq, option_str_eq,
  any, all, All, contains, inl, inr,
}
use os_net_config.Base.Str.{
  Str, str, newline, starts_with, contains_str, split, lstrip, strip, is_space, is_digit, isdigit,
  int_onto, int, decimal,
}
use os_net_config.Base.Dict.{Dict, keys, values, get, has, put}
use os_net_config.Sriov.Lines.{write_lines}
use os_net_config.Ifcfg.Parse.{Files, get_file_data}
use os_net_config.Ifcfg.RouteTable.{
  route_table_default, route_table_config_path, rt_defaults, res_ids, res_names, keeps, is_custom,
  kept, split_words, word_pieces, insert_id, sorted_ids, managed_line, managed,
  generate_route_table_config,
}
use os_net_config.Ifcfg.RouteTable.Twice.{generate_twice}
use os_net_config.Ifcfg.RouteTable.Lines.{AreOneLine, get-All}
use os_net_config.Ifcfg.RouteTable.Merged.{generate-IsMerged, AreFree, HaveWords}
use os_net_config.Ifcfg.RouteTable.Words.{AreWords, IsWord}
use os_net_config.Ifcfg.RouteTable.Kinds.{IsMerged}

abbrev route_tables : Dict ℕ Str
route_tables = (201, str "tenant") ∷ (200, str "storage") ∷ []

abbrev files : Files
files =
    (
      route_table_config_path,
      str "255\tlocal\n# by hand\n100 custom\n200 old\n7\tgone    # os-net-config managed table\n",
    )
    ∷ []

abbrev old_lines : List Str
old_lines = str "# by hand" ∷ str "100 custom" ∷ []

abbrev generated : Str
generated =
    (route_table_default ++ write_lines old_lines)
    ++ write_lines (managed_line 200 (str "storage") ∷ managed_line 201 (str "tenant") ∷ [])

made : generate_route_table_config route_tables files ≡ some generated
unfolding generate_route_table_config kept keeps is_custom managed sorted_ids insert_id keys values
    get has get_file_data split rt_defaults res_ids res_names split_words word_pieces contains
    contains_str starts_with strip lstrip is_space is_digit isdigit all int int_onto decimal
    list_beq str
made = refl

no_newlines : All (λ (id, name). contains name newline ≡ false) route_tables
unfolding contains str
no_newlines = (refl, (refl, tt))

names : AreOneLine route_tables
names = get-All (λ id name. contains name newline ≡ false) route_tables no_newlines

generate_twice_example :
    generate_route_table_config route_tables (put files route_table_config_path generated)
    ≡ some generated
generate_twice_example = generate_twice route_tables names files generated made

are_words : AreWords route_tables
unfolding any is_space str
are_words = get-All (λ id name. IsWord name) route_tables ((λ h. cc, refl), ((λ h. cc, refl), tt))

are_free : AreFree route_tables
unfolding res_ids res_names contains decimal list_beq str
are_free =
    get-All (λ id name. (contains res_ids (decimal id) || contains res_names name) ≡ false)
      route_tables (refl, (refl, tt))

have_words : HaveWords (split newline (get_file_data files route_table_config_path))
unfolding split get_file_data get rt_defaults contains list_beq split_words word_pieces is_space str
have_words =
    (inl refl, (inr (λ h. cc), (inr (λ h. cc), (inr (λ h. cc), (inr (λ h. cc), (inl refl, tt))))))

generate-IsMerged_example :
    (text : Str) × (generate_route_table_config route_tables files ≡ some text)
    × IsMerged route_tables
        (split newline (get_file_data files route_table_config_path))
        (split newline text)
generate-IsMerged_example = generate-IsMerged route_tables files are_words are_free have_words
