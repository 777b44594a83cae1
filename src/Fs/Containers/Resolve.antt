-- ===== src/Fs/Containers/Resolve.antt =====
-- `ListContainersForUI` and `ResolveContainerSegment` together.
use neofs_mount.Prelude.{
  ◌≤◌, ◌≡◌, ◌⊎◌, refl, ap, sym, ◌∙◌, Text, Bool, true, false, Option, some, List, [], ◌∷◌, map,
  text_eq, Map, lookup, arith, Bool-cases, inl, inr,
}
use neofs_mount.Prelude.Counts.{count, In, In-map}
use neofs_mount.Fs.Containers.{
  Named, name_is, rename, unique_names, alias_of, named_list, contains, containers, listed, ui_name,
  list_containers_for_ui, resolve_container_segment,
}
use neofs_mount.Fs.Containers.Unique.{
  id_is, Permutes, IsPlainList, rename-id, rename-cases, unique_names-count, alias_of-lookup,
}

-- Different ids, each of which decodes, and no name that decodes but that of the id itself.
pub record AreContainers (is_id : Text → Bool) (name_of : Text → Text) (ids : List Text)
    : Type 0 where
  pub once : (id : Text) → count (λ i. text_eq i id) ids ≤ 1
  pub valid : (id : Text) → In id ids → is_id id ≡ true
  pub own : (id : Text) → In id ids → is_id (name_of id) ≡ true → name_of id ≡ id

-- What is known of an entry of the list.
abbrev Comes : (Text → Text) → List Text → List Text → Named → Type 0
Comes name_of ignore ids it =
    In it.id ids × (it.name ≡ name_of it.id) × (contains it.id ignore ≡ false)

Comes-first :
    (name_of : Text → Text) (ignore ids : List Text) (id : Text) (it : Named)
    → contains id ignore ≡ false
    → record { id = id; name = name_of id } ≡ it
    → Comes name_of ignore (id ∷ ids) it
Comes-first name_of ignore ids id it t e = (
  inl (ap (λ x. x.id) e),
  ap (λ x. x.name) (sym e) ∙ ap (λ x. name_of x.id) e,
  ap (λ x. contains x.id ignore) (sym e) ∙ t,
)

Comes-later :
    (name_of : Text → Text) (ignore ids : List Text) (it : Named) (id : Text)
    → Comes name_of ignore ids it
    → Comes name_of ignore (id ∷ ids) it
Comes-later name_of ignore ids it id (a, b, c) = (inr a, b, c)

In-named_list :
    (name_of : Text → Text) (ignore ids : List Text) (it : Named)
    → In it (named_list name_of ignore ids)
    → Comes name_of ignore ids it
unfolding named_list
In-named_list name_of ignore [] it m = elim m [ ]
In-named_list name_of ignore (id ∷ ids) it m = elim (Bool-cases (contains id ignore)) [
  | inl t ↦ Comes-later name_of ignore ids it id (In-named_list name_of ignore ids it (rw t at m))
  | inr t ↦
      let k : (record { id = id; name = name_of id } ≡ it) ⊎ In it (named_list name_of ignore ids) =
        rw t at m in
      elim k [
        | inl e ↦ Comes-first name_of ignore ids id it t e
        | inr n ↦ Comes-later name_of ignore ids it id (In-named_list name_of ignore ids it n)
      ]
]

named_list-count :
    (name_of : Text → Text) (ignore ids : List Text) (id : Text)
    → count (id_is id) (named_list name_of ignore ids) ≤ count (λ i. text_eq i id) ids
unfolding named_list
named_list-count name_of ignore [] id = omega arith
named_list-count name_of ignore (i ∷ ids) id =
    ground (arith, named_list-count name_of ignore ids id)

module _ {is_id : Text → Bool} {name_of : Text → Text} {ids : List Text}
    (ok : AreContainers is_id name_of ids) (ignore : List Text) where
  named_list-IsPlainList : IsPlainList (named_list name_of ignore ids)
  named_list-IsPlainList = record {
    ids = λ id. omega (arith, named_list-count name_of ignore ids id, ok.once id);
    names = λ a b m n e.
        (let (i, p, _) = In-named_list name_of ignore ids a m in
          let (j, _, _) = In-named_list name_of ignore ids b n in
          let decodes : is_id (name_of a.id) ≡ true = ap is_id (sym p ∙ e) ∙ ok.valid b.id j in
          sym (ok.own a.id i decodes) ∙ sym p ∙ e);
  }

  -- A name that decodes is the id.
  renamed_own :
      (a : Named)
      → In a (named_list name_of ignore ids)
      → is_id (rename (named_list name_of ignore ids) a).name ≡ true
      → (rename (named_list name_of ignore ids) a).name ≡ a.id
  renamed_own a m d =
      let (i, p, _) = In-named_list name_of ignore ids a m in
      elim (rename-cases (named_list name_of ignore ids) a) [
        | inr q ↦ q
        | inl (q, c) ↦ q ∙ p ∙ ok.own a.id i (ap is_id (sym (q ∙ p)) ∙ d)
      ]

-- What the list of the containers promises: every row's name stands once and resolves to the row's
-- container, which is not ignored and is one of those that were listed.
pub record Leads (is_id : Text → Bool) (equal_fold : Text → Text → Bool) (ignore ids : List Text)
    (rows : List Named) (table : Map Text) : Type 0 where
  pub once : (name : Text) → count (name_is name) rows ≤ 1
  pub back :
      (it : Named)
      → In it rows
      → resolve_container_segment is_id equal_fold it.name (some table) ≡ some it.id
  pub known : (it : Named) → In it rows → In it.id ids × (contains it.id ignore ≡ false)

resolve-table :
    (is_id : Text → Bool) (equal_fold : Text → Text → Bool) (it : Named) (table : Map Text)
    → (is_id it.name ≡ true → it.name ≡ it.id)
    → lookup it.name table ≡ some it.id
    → resolve_container_segment is_id equal_fold it.name (some table) ≡ some it.id
unfolding resolve_container_segment
resolve-table is_id equal_fold it table own e = elim (Bool-cases (is_id it.name)) [
  | inl t ↦ rw (resolve_container_segment, t) (ap some (own t))
  | inr t ↦ rw (resolve_container_segment, t, e) refl
]

module _ {is_id : Text → Bool} {name_of : Text → Text} {ids : List Text}
    (ok : AreContainers is_id name_of ids) (equal_fold : Text → Text → Bool)
    (sort : List Named → List Named) (permutes : Permutes sort) (ignore : List Text) where
  pub sorted_unique :
      (name : Text) → count (name_is name) (sort (unique_names (named_list name_of ignore ids))) ≤ 1
  sorted_unique name = omega (
    arith,
    permutes.counts (name_is name) (unique_names (named_list name_of ignore ids)),
    unique_names-count (named_list-IsPlainList ok ignore) name,
  )

  -- Where a row comes from.
  pub row_origin :
      (it : Named)
      → In it (sort (unique_names (named_list name_of ignore ids)))
      → (is_id it.name ≡ true → it.name ≡ it.id) × In it.id ids × (contains it.id ignore ≡ false)
  unfolding unique_names
  row_origin it m =
      let l = named_list name_of ignore ids in
      let (a, n, e) = In-map (rename l) l it (permutes.members it (map (rename l) l) m) in
      let same : a.id ≡ it.id = sym (rename-id l a) ∙ ap (λ x. x.id) e in
      let (i, _, c) = In-named_list name_of ignore ids a n in
      (
        (λ d.
            ap (λ x. x.name) (sym e)
            ∙ renamed_own ok ignore a n (ap (λ x. is_id x.name) e ∙ d)
            ∙ same),
        rw (← same) i,
        ap (λ x. contains x ignore) (sym same) ∙ c,
      )

  sorted-Leads :
      Leads is_id equal_fold ignore ids
        (sort (unique_names (named_list name_of ignore ids)))
        (alias_of (sort (unique_names (named_list name_of ignore ids))) [])
  sorted-Leads =
      let rows = sort (unique_names (named_list name_of ignore ids)) in
      record {
        once = sorted_unique;
        back = λ it m.
            resolve-table is_id equal_fold it (alias_of rows []) (row_origin it m).0
              (alias_of-lookup rows [] it sorted_unique m);
        known = λ it m. ((row_origin it m).1, (row_origin it m).2);
      }

-- For sorts that move entries only, and containers with different ids that decode, none of which is
-- named by something that decodes but its own id: of the list that ListContainersForUI returns every
-- name stands once, every name is resolved by ResolveContainerSegment to the container of its row,
-- and the rows' containers are among those of the network and not ignored.
pub list_containers_for_ui-Leads :
    (trim_space : Text → Text) (sort_ids : List Text → List Text)
    (sort_names : List Named → List Named) (get : Text → Option Text) (is_id : Text → Bool)
    (equal_fold : Text → Text → Bool) (ignore ids : List Text) {rows : List Named}
    {table : Map Text}
    → Permutes sort_names
    → AreContainers is_id (ui_name trim_space get) (sort_ids ids)
    → list_containers_for_ui trim_space sort_ids sort_names get ignore (containers ids)
      ≡ listed rows table
    → Leads is_id equal_fold ignore (sort_ids ids) rows table
unfolding list_containers_for_ui
list_containers_for_ui-Leads trim_space sort_ids sort_names get is_id equal_fold ignore ids {rows}
      {table} permutes ok e =
    let found =
      sort_names (unique_names (named_list (ui_name trim_space get) ignore (sort_ids ids))) in
    let r : found ≡ rows = cc in
    let t : alias_of found [] ≡ table = cc in
    rw (← t, ← r) (sorted-Leads ok equal_fold sort_names permutes ignore)
