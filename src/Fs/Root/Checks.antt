-- ===== src/Fs/Root/Checks.antt =====
-- The directory of three containers.
use neofs_mount.Prelude.{
  ◌≡◌, refl, Text, codes, true, Option, none, some, [], text_eq, if◌then◌else◌, inl,
}
use neofs_mount.Prelude.Counts.{In}
use neofs_mount.Fs.Containers.{Named, contains, containers}
use neofs_mount.Fs.Containers.Checks.{
  network, keep, name_in_network, network_once, each_id, same_order,
}
use neofs_mount.Fs.Root.{Network, new_root, root_name, root_list, look_up, readdir, container}
use neofs_mount.Fs.Root.Finds.{is_some, IsPlainNetwork, look_up-readdir}

abbrev decode : Text → Option Text
unfolding contains text_eq
decode s = if contains s network then some s else none

abbrev net : Network
net = record {
  trim_space = keep;
  sort_ids = λ l. l;
  sort_names = λ l. l;
  get = name_in_network;
  decode = decode;
  ignore = [];
  listed = containers network;
}

net-IsPlainNetwork : IsPlainNetwork net network
unfolding contains text_eq root_name
net-IsPlainNetwork = record {
  permutes = same_order;
  names = record {
    once = network_once;
    valid = each_id (λ id. is_some (decode id) ≡ true) refl refl refl;
    own =
        each_id
          (λ id.
            is_some (decode (root_name keep name_in_network id)) ≡ true
            → root_name keep name_in_network id ≡ id)
          (λ e. cc) (λ e. cc) (λ e. cc);
  };
  decodes = each_id (λ id. decode id ≡ some id) refl refl refl;
}

abbrev films : Named
films = record { id = codes "A1"; name = codes "films" }

films_shown : In films (root_list net network)
unfolding root_list contains text_eq
films_shown = inl refl

look_up-readdir_example :
    ((look_up net 1 5 (codes "films") new_root).1 ≡ container (codes "A1"))
    × ((look_up net 8 9 (codes "films") (readdir net 5 6 new_root).0).1 ≡ container (codes "A1"))
look_up-readdir_example =
    look_up-readdir net network films 1 5 6 8 9 net-IsPlainNetwork refl films_shown
