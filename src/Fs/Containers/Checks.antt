-- ===== src/Fs/Containers/Checks.antt =====
-- Three containers, two of them with one name.
use neofs_mount.Prelude.{
  ◌≤◌, ◌≡◌, refl, Text, codes, Bool, true, Option, some, List, [], ◌∷◌, text_eq, text_eq_iff,
  if◌then◌else◌, arith, inl, inr,
}
use neofs_mount.Prelude.Counts.{count, In}
use neofs_mount.Fs.Containers.{
  Named, contains, containers, listed, ui_name, alias_of, list_containers_for_ui,
}
use neofs_mount.Fs.Containers.Unique.{Permutes}
use neofs_mount.Fs.Containers.Resolve.{AreContainers, Leads, list_containers_for_ui-Leads}

abbrev pub network : List Text
network = codes "A1" ∷ codes "B2" ∷ codes "C3" ∷ []

abbrev pub keep : Text → Text
keep s = s

abbrev pub is_id : Text → Bool
unfolding contains text_eq
is_id s = contains s network

abbrev pub name_in_network : Text → Option Text
unfolding text_eq
name_in_network id =
    if text_eq id (codes "A1")
    then some (codes "/films")
    else if text_eq id (codes "B2")
    then some (codes "a:b")
    else some (codes "a:b")

pub same_order : {A : Type 0} → Permutes {A = A} (λ l. l)
same_order = record { counts = λ p l. refl; members = λ a l m. m }

-- What every one of the three ids meets.
pub each_id :
    (P : Text → Type 0)
    → P (codes "A1")
    → P (codes "B2")
    → P (codes "C3")
    → (id : Text) → In id network
    → P id
each_id P a b c id (inl e) = rw (← e) a
each_id P a b c id (inr (inl e)) = rw (← e) b
each_id P a b c id (inr (inr (inl e))) = rw (← e) c
each_id P a b c id (inr (inr (inr m))) = elim m [ ]

pub network_once : (id : Text) → count (λ i. text_eq i id) network ≤ 1
network_once id =
    ground
      (arith, text_eq_iff (codes "A1") id, text_eq_iff (codes "B2") id, text_eq_iff (codes "C3") id)

network-AreContainers : AreContainers is_id (ui_name keep name_in_network) network
unfolding contains text_eq ui_name
network-AreContainers = record {
  once = network_once;
  valid = each_id (λ id. is_id id ≡ true) refl refl refl;
  own =
      each_id
        (λ id.
          is_id (ui_name keep name_in_network id) ≡ true → ui_name keep name_in_network id ≡ id)
        (λ e. cc) (λ e. cc) (λ e. cc);
}

abbrev shown : List Named
shown =
    record { id = codes "A1"; name = codes "films" }
    ∷ record { id = codes "B2"; name = codes "B2" }
    ∷ record { id = codes "C3"; name = codes "C3" }
    ∷ []

shown_network :
    list_containers_for_ui keep (λ l. l) (λ l. l) name_in_network [] (containers network)
    ≡ listed shown (alias_of shown [])
unfolding list_containers_for_ui contains text_eq
shown_network = refl

list_containers_for_ui-Leads_example : Leads is_id text_eq [] network shown (alias_of shown [])
list_containers_for_ui-Leads_example =
    list_containers_for_ui-Leads keep (λ l. l) (λ l. l) name_in_network is_id text_eq [] network
      {rows = shown} {table = alias_of shown []} same_order network-AreContainers shown_network
