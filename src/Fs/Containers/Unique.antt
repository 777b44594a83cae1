-- ===== src/Fs/Containers/Unique.antt =====
-- The names of the containers: every name is given once, and leads back to its container.
use neofs_mount.Prelude.{
  ◌≤◌, ◌≡◌, ◌⊎◌, refl, ap, sym, ◌∙◌, Text, Bool, true, some, List, [], ◌∷◌, text_eq, text_eq_iff,
  text_eq_refl, ltb, Map, lookup, insert, lookup-insert, arith, Bool-cases, inl, inr,
}
use neofs_mount.Prelude.Counts.{count, In, count-le, count-cases, eq_of_count, count-map}
use neofs_mount.Fs.Containers.{Named, name_is, rename, unique_names, alias_of}

abbrev pub id_is : Text → Named → Bool
id_is id it = text_eq it.id id

-- A sort of the list by name moves the entries, no more.
pub record Permutes {A : Type 0} (sort : List A → List A) : Type 0 where
  pub counts : (p : A → Bool) (l : List A) → count p (sort l) ≡ count p l
  pub members : (a : A) (l : List A) → In a (sort l) → In a l

-- Containers with different ids, none of which is named like the id of another.
pub record IsPlainList (l : List Named) : Type 0 where
  pub ids : (id : Text) → count (id_is id) l ≤ 1
  pub names : (a b : Named) → In a l → In b l → a.name ≡ b.id → a.id ≡ b.id

pub rename-id : (whole : List Named) (it : Named) → (rename whole it).id ≡ it.id
unfolding rename
rename-id whole it = ground arith

-- A container keeps its name if nothing else has it, and else goes by its id.
pub rename-cases :
    (whole : List Named) (it : Named)
    → (((rename whole it).name ≡ it.name) × (count (name_is it.name) whole ≤ 1))
      ⊎ ((rename whole it).name ≡ it.id)
unfolding rename
rename-cases whole it = elim (Bool-cases (ltb 1 (count (name_is it.name) whole))) [
  | inl t ↦ inr (rw (rename, t) refl)
  | inr t ↦ inl (rw (rename, t) refl, ground arith)
]

module _ {l : List Named} (plain : IsPlainList l) where
  -- Two containers that end up with one name are one.
  eq_of_rename :
      (a b : Named) → In a l → In b l → (rename l a).name ≡ (rename l b).name → a.id ≡ b.id
  eq_of_rename a b m n e = elim (rename-cases l a) [
    | inr p ↦ elim (rename-cases l b) [
      | inr q ↦ sym p ∙ e ∙ q
      | inl (q, c) ↦ sym (plain.names b a n m (sym q ∙ sym e ∙ p))
    ]
    | inl (p, c) ↦ elim (rename-cases l b) [
      | inr q ↦ plain.names a b m n (sym p ∙ e ∙ q)
      | inl (q, d) ↦
          ap (λ it. it.id)
            (eq_of_count (name_is a.name) l a b c m n (text_eq_refl a.name)
              ((text_eq_iff b.name a.name).1 (sym q ∙ sym e ∙ p)))
    ]
  ]

  -- Every name is given once.
  pub unique_names-count : (name : Text) → count (name_is name) (unique_names l) ≤ 1
  unfolding unique_names
  unique_names-count name = elim (count-cases (λ it. name_is name (rename l it)) l) [
    | inl n ↦ omega (arith, count-map (name_is name) (rename l) l, n)
    | inr (a, m, h) ↦
        let same : (x : Named) → In x l → name_is name (rename l x) ≡ true → id_is a.id x ≡ true =
          λ x k q. (text_eq_iff x.id a.id).1 (
            eq_of_rename x a k m (
              (text_eq_iff (rename l x).name name).0 q
              ∙ sym ((text_eq_iff (rename l a).name name).0 h))) in
        omega (
          arith,
          count-map (name_is name) (rename l) l,
          count-le (λ it. name_is name (rename l it)) (id_is a.id) l same,
          plain.ids a.id,
        )
  ]

-- The table of a list in which every name stands once leads from each name to its id.
alias_of-absent :
    (name : Text) (l : List Named) (m : Map Text)
    → count (name_is name) l ≡ 0
    → lookup name (alias_of l m) ≡ lookup name m
unfolding alias_of
alias_of-absent name [] m h = refl
alias_of-absent name (it ∷ l) m h =
    alias_of-absent name l (insert it.name it.id m) (ground arith)
    ∙ ground (arith, lookup-insert it.name name it.id m)

pub alias_of-lookup :
    (l : List Named) (m : Map Text) (it : Named)
    → ((name : Text) → count (name_is name) l ≤ 1)
    → In it l
    → lookup it.name (alias_of l m) ≡ some it.id
unfolding alias_of
alias_of-lookup [] m it u k = elim k [ ]
alias_of-lookup (x ∷ l) m it u (inl e) =
    let none_left : count (name_is it.name) l ≡ 0 =
      (let q : text_eq x.name it.name ≡ true = rw e (text_eq_refl it.name) in
        ground (arith, q, u it.name)) in
    alias_of-absent it.name l (insert x.name x.id m) none_left
    ∙ rw e (ground (arith, lookup-insert it.name it.name it.id m, text_eq_refl it.name))
alias_of-lookup (x ∷ l) m it u (inr k) =
    alias_of-lookup l (insert x.name x.id m) it (λ name. ground (arith, u name)) k
