-- ===== src/Auth/Users/Creation.antt =====
-- Which lists of projects `CreateUser` and `UpdateUser` accept, and what `CreateUser` stores.
use argo_messaging.Base.{
  Text, text_eq, Result, ok, err, panic, true, false, not, none, List, [], ◌∷◌, ◌++◌, map, filter,
  contains, contains_iff, is_empty, All, In, In-append, Distinct, ◌≡◌, refl, ap, sym, ◌∙◌, ◌↔◌, inl,
  inr, Bool-cases, Option-cases,
}
use argo_messaging.Stores.Models.{QProjectRoles}
use argo_messaging.Stores.Times.{Zulu}
use argo_messaging.Stores.Interface.{Store}
use argo_messaging.Projects.{get_uuid_by_name}
use argo_messaging.Auth.{invalid_role, is_role_valid}
use argo_messaging.Auth.Users.{ProjectRoles, take_project, prepared}

-- The entries that name a project.
abbrev pub named : List ProjectRoles → List ProjectRoles
named = filter (λ p. not (is_empty p.project))

abbrev pub names : List ProjectRoles → List Text
names ps = map (λ p. p.project) (named ps)

lacks-snoc :
    (x : Text) (seen ns : List Text)
    → All (λ n. ¬ In n (seen ++ (x ∷ []))) ns ↔ (All (λ n. ¬ In n seen) ns × (¬ In x ns))
lacks-snoc x seen [] = ((λ h. (tt, λ i. i)), λ h. tt)
lacks-snoc x seen (n ∷ ns) =
    let (to, from) = lacks-snoc x seen ns in
    let (split, join) = In-append n seen (x ∷ []) in
    (
      (λ h. (
        ((λ i. h.0 (join (inl i))), (to h.1).0),
        λ i. elim i [ inl e ↦ h.0 (join (inr (inl (sym e)))) | inr j ↦ (to h.1).1 j ],
      )),
      λ h. (
        (λ i. elim (split i) [
          | inl j ↦ h.0.0 j
          | inr (inl e) ↦ h.1 (inl (sym e))
          | inr (inr j) ↦ j
        ]),
        from (h.0.1, λ j. h.1 (inr j)),
      ),
    )

module _ {S : Type 0} (z : Zulu) (store : Store S) (s : S) (valid : List Text) where
  pub invalid_role-none :
      (roles : List Text) → (invalid_role store valid roles ≡ none) ↔ All (λ r. In r valid) roles
  unfolding invalid_role is_role_valid
  invalid_role-none [] = ((λ h. tt), λ h. refl)
  invalid_role-none (r ∷ rs) =
      let (to, from) = invalid_role-none rs in
      let (has, in_valid) = contains_iff r valid in
      elim (Bool-cases (contains r valid)) [
        | inl v ↦ rw v ((λ h. (has v, to h)), λ h. from h.1)
        | inr v ↦ rw v ((λ h. cc), λ h. let c : contains r valid ≡ true = in_valid h.0 in cc)
      ]

  -- A project of that name is in the store, and all roles are valid.
  abbrev pub IsKnown : ProjectRoles → Type 0
  IsKnown p =
      (is_empty (get_uuid_by_name store p.project s) ≡ false) × All (λ r. In r valid) p.roles

  abbrev pub entry : ProjectRoles → QProjectRoles
  entry p = record { project_uuid = get_uuid_by_name store p.project s; roles = p.roles }

  abbrev pub IsFine : List Text → List ProjectRoles → List QProjectRoles → Type 0
  IsFine seen ps qs =
      Distinct (names ps)
      × All (λ n. ¬ In n seen) (names ps)
      × All IsKnown (named ps)
      × (qs ≡ map entry (named ps))

  -- A round succeeds where the project is new and known, and the later rounds succeed.
  abbrev Accepts :
      List Text → ProjectRoles → Result (List QProjectRoles) → List QProjectRoles → Type 0
  Accepts seen p rest qs =
      (¬ In p.project seen)
      × IsKnown p
      × ((qs' : List QProjectRoles) × (rest ≡ ok qs') × (qs ≡ entry p ∷ qs'))

  abbrev after : ProjectRoles → Result (List QProjectRoles) → Result (List QProjectRoles)
  after p (ok qs) = ok (entry p ∷ qs)
  after p (err e) = err e
  after p panic = panic

  accepted :
      (p : ProjectRoles) (rest : Result (List QProjectRoles)) (qs : List QProjectRoles)
      → (after p rest ≡ ok qs)
        ↔ ((qs' : List QProjectRoles) × (rest ≡ ok qs') × (qs ≡ entry p ∷ qs'))
  accepted p (ok qs') qs = ((λ h. (qs', refl, cc)), λ (r, e, e'). cc)
  accepted p (err e) qs = ((λ h. cc), λ (r, e, e'). cc)
  accepted p panic qs = ((λ h. cc), λ (r, e, e'). cc)

  take_project-Accepts :
      (seen : List Text) (p : ProjectRoles) (rest : Result (List QProjectRoles))
      (qs : List QProjectRoles)
      → (take_project z store valid seen p s rest ≡ ok qs) ↔ Accepts seen p rest qs
  unfolding take_project
  take_project-Accepts seen p rest qs =
      let (has, in_seen) = contains_iff p.project seen in
      let (valid_roles, no_role) = invalid_role-none p.roles in
      elim (Bool-cases (contains p.project seen)) [
        | inl old ↦ rw old ((λ h. cc), λ h. absurd (h.0 (has old)))
        | inr new ↦
            let is_new : ¬ In p.project seen = λ i. let c = in_seen i in cc in
            elim (Bool-cases (is_empty (get_uuid_by_name store p.project s))) [
              | inl unknown ↦ rw (new, unknown) ((λ h. cc), λ h. cc)
              | inr known ↦ elim (Option-cases (invalid_role store valid p.roles)) [
                | inl fine ↦
                    let e : take_project z store valid seen p s rest ≡ after p rest =
                      rw (new, known, fine) refl in
                    let (to, from) = accepted p rest qs in
                    ((λ h. (is_new, (known, valid_roles fine), to (sym e ∙ h))), λ h. e ∙ from h.2)
                | inr (r, bad) ↦ rw (new, known, bad) ((λ h. cc), λ h. let e = no_role h.1.1 in cc)
              ]
            ]
      ]

  -- The loop of `CreateUser` and `UpdateUser` over a list of projects, after those named in `seen`,
  -- gives a list exactly if no two entries name one project, none names one of `seen`, each project
  -- named is in the store, and each of its roles is valid; the list has the uuids and the roles of the
  -- entries that name a project, in their order.
  pub prepared-IsFine :
      (seen : List Text) (ps : List ProjectRoles) (qs : List QProjectRoles)
      → (prepared z store valid seen ps s ≡ ok qs) ↔ IsFine seen ps qs
  unfolding prepared
  prepared-IsFine seen [] qs = ((λ h. (tt, tt, tt, cc)), λ h. ap ok (sym h.3))
  prepared-IsFine seen (p ∷ ps) qs = elim (Bool-cases (is_empty p.project)) [
    | inl skip ↦ rw skip (prepared-IsFine seen ps qs)
    | inr there ↦ rw there (
        let later = seen ++ (p.project ∷ []) in
        let (to, from) = take_project-Accepts seen p (prepared z store valid later ps s) qs in
        let (apart, together) = lacks-snoc p.project seen (names ps) in
        (
          (λ h.
              let (new, known, (qs', r, e)) = to h in
              let (distinct, lacks, rest_known, same) = (prepared-IsFine later ps qs').0 r in
              let (old, once) = apart lacks in
              ((once, distinct), (new, old), (known, rest_known), e ∙ ap (λ l. entry p ∷ l) same)),
          λ h.
              let rest =
                (prepared-IsFine later ps (map entry (named ps))).1
                  (h.0.1, together (h.1.1, h.0.0), h.2.1, refl) in
              from (h.1.0, h.2.0, (map entry (named ps), rest, h.3)),
        ))
  ]
