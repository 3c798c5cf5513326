-- ===== src/Ifcfg/Provider/Tree.antt =====
-- `add_object` over trees of objects: the files of all members, and when it raises no error.
use os_net_config.Base.{
  ◌≡◌, refl, sym, ap, ◌∙◌, Bool, true, false, Option, none, some, List, [], ◌∷◌, ◌++◌,
  if◌then◌else◌, nat_eq, str_eq, option_str_eq, bind,
}
use os_net_config.Base.Str.{Str}
use os_net_config.Objects.{Object, Members, node, route_table, nil, cons, names_of, has_members}
use os_net_config.Base.Dict.{Dict, put, update}
use os_net_config.Ifcfg.Provider.{
  Provider, Slot, data_of, add_one, add_object, add_members, add_objects,
}
use os_net_config.Ifcfg.Provider.Files.{
  Leaves, own_file, files_in, files_of_members, add_one-Leaves,
}

update_nil : (d : Dict Str Str) → d ≡ update d []
unfolding update
update_nil d = refl

update-append : (xs ys d : Dict Str Str) → update d (xs ++ ys) ≡ update (update d xs) ys
unfolding update
update-append [] ys d = refl
update-append ((k, v) ∷ xs) ys d = update-append xs ys (put d k v)

module _ (slot : Slot) where
  Leaves-after :
      (p q : Provider) (xs ys : Dict Str Str) (r : Option Provider)
      → data_of q.config slot ≡ update (data_of p.config slot) xs
      → Leaves slot q ys r
      → Leaves slot p (xs ++ ys) r
  Leaves-after p q xs ys none h k = tt
  Leaves-after p q xs ys (some r) h k =
      k ∙ ap (λ d. update d ys) h ∙ sym (update-append xs ys (data_of p.config slot))

  Leaves-bind :
      (p : Provider) (xs ys : Dict Str Str) (o : Option Provider) (f : Provider → Option Provider)
      → Leaves slot p xs o
      → ((q : Provider) → Leaves slot q ys (f q))
      → Leaves slot p (xs ++ ys) (bind o f)
  Leaves-bind p xs ys none f h k = tt
  Leaves-bind p xs ys (some q) f h k = Leaves-after p q xs ys (f q) h (k q)

  Leaves-if :
      (test : Bool) (ys : Dict Str Str) (rest : Provider → Option Provider)
      → ((q : Provider) → Leaves slot q ys (rest q))
      → (q : Provider) → Leaves slot q (if test then ys else []) ((if test then rest else some) q)
  Leaves-if true ys rest h q = h q
  Leaves-if false ys rest h q = unfold update in refl

-- The files of several objects
abbrev pub all_files : (Str → Option Str) → Slot → List Object → Dict Str Str
all_files macs slot [] = []
all_files macs slot (o ∷ objs) = files_in macs slot o ++ all_files macs slot objs

mutual
  unfolding add_object files_in

  add_object-Leaves :
      (macs : Str → Option Str) (slot : Slot) (o : Object) (p : Provider)
      → Leaves slot p (files_in macs slot o) (add_object macs o p)
  add_object-Leaves macs slot (node b k ms) p =
      Leaves-bind slot p (own_file macs slot b k (names_of ms))
        (if has_members k then files_of_members macs slot ms else [])
        (add_one macs p b k (names_of ms)) (if has_members k then add_members macs ms else some)
        (add_one-Leaves macs slot b (names_of ms) p k)
        (Leaves-if slot (has_members k) (files_of_members macs slot ms) (add_members macs ms)
          (add_members-Leaves macs slot ms))
  add_object-Leaves macs slot (route_table n i) p = update_nil (data_of p.config slot)

  add_members-Leaves :
      (macs : Str → Option Str) (slot : Slot) (ms : Members) (p : Provider)
      → Leaves slot p (files_of_members macs slot ms) (add_members macs ms p)
  add_members-Leaves macs slot nil p = update_nil (data_of p.config slot)
  add_members-Leaves macs slot (cons o ms) p =
      Leaves-bind slot p (files_in macs slot o) (files_of_members macs slot ms)
        (add_object macs o p) (add_members macs ms) (add_object-Leaves macs slot o p)
        (add_members-Leaves macs slot ms)

pub add_objects-Leaves :
    (macs : Str → Option Str) (slot : Slot) (objs : List Object) (p : Provider)
    → Leaves slot p (all_files macs slot objs) (add_objects macs objs p)
unfolding add_objects
add_objects-Leaves macs slot [] p = update_nil (data_of p.config slot)
add_objects-Leaves macs slot (o ∷ objs) p =
    Leaves-bind slot p (files_in macs slot o) (all_files macs slot objs) (add_object macs o p)
      (add_objects macs objs) (add_object-Leaves macs slot o p) (add_objects-Leaves macs slot objs)
