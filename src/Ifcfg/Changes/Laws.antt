-- ===== src/Ifcfg/Changes/Laws.antt =====
-- The changes, key by key.
use os_net_config.Base.{
  ◌≡◌, refl, ◌∙◌, ◌&&◌, not, Option, none, some, List, [], ◌∷◌, arith, if◌then◌else◌, ◌==◌, beq→eq,
  nat_eq, str_eq, option_str_eq,
}
use os_net_config.Base.Str.{Str, newline, split, upper}
use os_net_config.Base.Dict.{
  Dict, get, has, put, get-put, has-eq-is_some, UniqueKeys, put-UniqueKeys,
}
use os_net_config.Ifcfg.Parse.{parse_line, enter, parse_lines, parse_ifcfg}
use os_net_config.Ifcfg.Changes.{
  old_changes, new_changes, enumerate_ifcfg_changes, Change, modified, removed, added, note_old,
}

-- What the values of one key in the old and in the new file say of the key.
abbrev pub change_of : Option Str → Option Str → Option Change
change_of none none = none
change_of none (some w) = some added
change_of (some v) none = some removed
change_of (some v) (some w) = if upper v == upper w then none else some modified

parse_lines-UniqueKeys :
    (lines : List Str) (d : Dict Str Str) → UniqueKeys d → UniqueKeys (parse_lines lines d)
unfolding parse_lines
parse_lines-UniqueKeys [] d u = u
parse_lines-UniqueKeys (line ∷ lines) d u =
    parse_lines-UniqueKeys lines _ (enter-UniqueKeys (parse_line line))
  where
    enter-UniqueKeys : (e : Option (Str × Str)) → UniqueKeys (enter d e)
    enter-UniqueKeys none = u
    enter-UniqueKeys (some (k, v)) = put-UniqueKeys d k v u

pub parse_ifcfg-UniqueKeys : (ifcfg_data : Str) → UniqueKeys (parse_ifcfg ifcfg_data)
unfolding parse_ifcfg
parse_ifcfg-UniqueKeys ifcfg_data = parse_lines-UniqueKeys (split newline ifcfg_data) [] tt

-- What one loop writes over what was there.
over : Option Change → Option Change → Option Change
over none c = c
over (some c) _ = some c

get-note_old :
    (j v : Str) (o : Option Str) (c : Dict Str Change) (k : Str)
    → get (note_old j v o c) k ≡ (if j == k then over (change_of (some v) o) (get c k) else get c k)
unfolding note_old over
get-note_old j v none c k = get-put c j removed k
get-note_old j v (some w) c k = ground (arith, get-put c j modified k)

get-old_changes :
    (old new : Dict Str Str) (c : Dict Str Change) (k : Str)
    → UniqueKeys old
    → get (old_changes old new c) k
      ≡ (if has old k then over (change_of (get old k) (get new k)) (get c k) else get c k)
unfolding old_changes get has
get-old_changes [] new c k u = refl
get-old_changes ((j, v) ∷ old) new c k (fresh, u) =
    get-old_changes old new (note_old j v (get new j) c) k u
    ∙ rw get-note_old (ground (arith, beq→eq j k))

get-new_changes :
    (old new : Dict Str Str) (c : Dict Str Change) (k : Str)
    → get (new_changes old new c) k ≡ (if has new k && not (has old k) then some added else get c k)
unfolding new_changes has
get-new_changes old [] c k = refl
get-new_changes old ((j, w) ∷ new) c k =
    get-new_changes old new (if has old j then c else put c j added) k
    ∙ ground (arith, beq→eq j k, get-put c j added k)

get-enumerate_dicts :
    (old new : Dict Str Str) (k : Str)
    → UniqueKeys old
    → get (enumerate_ifcfg_changes old new) k ≡ change_of (get old k) (get new k)
unfolding enumerate_ifcfg_changes over
get-enumerate_dicts old new k u =
    get-new_changes old new (old_changes old new []) k
    ∙ rw (get-old_changes old new [] k u, has-eq-is_some, has-eq-is_some)
        (unfold get in ground arith)

-- For every key, the changes hold what its two values say, and nothing for a key of neither.
pub get-enumerate_ifcfg_changes :
    (old new : Str) (k : Str)
    → get (enumerate_ifcfg_changes (parse_ifcfg old) (parse_ifcfg new)) k
      ≡ change_of (get (parse_ifcfg old) k) (get (parse_ifcfg new) k)
get-enumerate_ifcfg_changes old new k =
    get-enumerate_dicts (parse_ifcfg old) (parse_ifcfg new) k (parse_ifcfg-UniqueKeys old)
