-- ===== src/Config/ExclusiveGroups/Collected.antt =====
-- crates/rshome-config/src/stages/s11_exclusive_groups.rs: what the table of groups holds.
use zt_edge.Common.{
  ◌≤◌, true, ◌≡◌, ◌≢◌, refl, sym, ap, subst, ◌↔◌, inl, inr, none, some, String, List, [], ◌∷◌, ◌++◌,
  lookup, insert, lookup-insert, has, has-cons, has-cons_self, length, length-append, text_discrete,
  Option-cases, Bool-cases, All, arith,
}
use zt_edge.Common.Sort.{Unique}
use zt_edge.Config.ExclusiveGroups.{Groups, add_member, group_of, collect_groups, group_errors}
use zt_edge.Schema.Registry.{ComponentRegistry}

abbrev IsSingle : Groups → Type 0
IsSingle = All (λ e. length e.1 ≤ 1)

-- Every group that is noted has a member.
abbrev IsFilled : Groups → Type 0
IsFilled groups =
    (g : String) (members : List String)
    → lookup text_discrete g groups ≡ some members
    → 1 ≤ length members

pub group_errors-eq-nil : (groups : Groups) → (group_errors groups ≡ []) ↔ IsSingle groups
unfolding group_errors
group_errors-eq-nil [] = (λ e. tt, λ h. refl)
group_errors-eq-nil ((g, ms) ∷ rest) =
    let more = group_errors-eq-nil rest in
    (λ e. ground (arith, more.0), λ h. ground (arith, more.1))

IsSingle-insert :
    (g id : String) (groups : Groups)
    → lookup text_discrete g groups ≡ none
    → IsSingle (insert text_discrete g (id ∷ []) groups) ↔ IsSingle groups
unfolding lookup insert
IsSingle-insert g id [] e = (λ h. tt, λ h. omega arith)
IsSingle-insert g id ((k, ms) ∷ rest) e =
    let more = IsSingle-insert g id rest in (λ h. ground (arith, more), λ h. ground (arith, more))

IsSingle-insert_second :
    (g : String) (members : List String) (groups : Groups)
    → 2 ≤ length members
    → ¬ IsSingle (insert text_discrete g members groups)
unfolding insert
IsSingle-insert_second g members [] l h = omega (arith, h.0)
IsSingle-insert_second g members ((k, ms) ∷ rest) l h =
    ground (arith, IsSingle-insert_second g members rest)

pub has-cons_other :
    (x k : String) (xs : List String) → x ≢ k → has (x ∷ xs) k ≡ true → has xs k ≡ true
unfolding has
has-cons_other x k xs n h = ground arith

module _ (registry : ComponentRegistry) where
  -- The groups of some components, with repetitions.
  unfoldable pub groups_of : List String → List String
  groups_of [] = []
  groups_of (id ∷ ids) = elim (group_of registry id) [
    | none ↦ groups_of ids
    | some g ↦ g ∷ groups_of ids
  ]

  pub groups_none :
      (id : String) (ids : List String)
      → group_of registry id ≡ none
      → groups_of (id ∷ ids) ≡ groups_of ids
  unfolding groups_of
  groups_none id ids e = rw (e, groups_of) refl

  pub groups_some :
      (id g : String) (ids : List String)
      → group_of registry id ≡ some g
      → groups_of (id ∷ ids) ≡ g ∷ groups_of ids
  unfolding groups_of
  groups_some id g ids e = rw (e, groups_of) refl

  IsFilled-insert :
      (g id : String) (xs : List String) (groups : Groups)
      → IsFilled groups
      → IsFilled (insert text_discrete g (xs ++ (id ∷ [])) groups)
  IsFilled-insert g id xs groups f k ms e = elim (text_discrete g k) [
    | yes same ↦
        let entry : xs ++ (id ∷ []) ≡ ms =
          ground (arith, lookup-insert text_discrete g k (xs ++ (id ∷ [])) groups) in
        omega (arith, ap length entry, length-append xs (id ∷ []))
    | no other ↦ f k ms (ground (arith, lookup-insert text_discrete g k (xs ++ (id ∷ [])) groups))
  ]

  -- No group of the components is noted before, or twice among them.
  pub record Apart (ids : List String) (groups : Groups) : Type 0 where
    pub single : IsSingle groups
    pub unique : Unique (groups_of ids)
    pub new : (g : String) → has (groups_of ids) g ≡ true → lookup text_discrete g groups ≡ none

  Apart-subst :
      (ids jds : List String) (groups : Groups)
      → groups_of ids ≡ groups_of jds
      → Apart ids groups
      → Apart jds groups
  Apart-subst ids jds groups e a = record {
    single = a.single;
    unique = subst Unique e a.unique;
    new = λ g h. a.new g (rw e h);
  }

  module _ (g id : String) (ids : List String) (groups : Groups)
      (same : groups_of (id ∷ ids) ≡ g ∷ groups_of ids)
      (free : lookup text_discrete g groups ≡ none) where
    Apart-more : Apart ids (insert text_discrete g (id ∷ []) groups) → Apart (id ∷ ids) groups
    Apart-more a = record {
      single = (IsSingle-insert g id groups free).0 a.single;
      unique = rw same (
        elim (Bool-cases (has (groups_of ids) g)) [
          | inl again ↦
              absurd
                (ground (arith, a.new g again, lookup-insert text_discrete g g (id ∷ []) groups))
          | inr once ↦ once
        ],
        a.unique,
      );
      new = λ k h. elim (text_discrete g k) [
        | yes e ↦ subst (λ x. lookup text_discrete x groups ≡ none) e free
        | no other ↦
            let later : has (groups_of ids) k ≡ true =
              has-cons_other g k (groups_of ids) other (rw same at h) in
            ground (arith, a.new k later, lookup-insert text_discrete g k (id ∷ []) groups)
      ];
    }

    Apart-less : Apart (id ∷ ids) groups → Apart ids (insert text_discrete g (id ∷ []) groups)
    Apart-less a =
        let apart = subst Unique same a.unique in
        record {
          single = (IsSingle-insert g id groups free).1 a.single;
          unique = apart.1;
          new = λ k h. elim (text_discrete g k) [
            | yes e ↦
                absurd
                  (ground (arith, subst (λ x. has (groups_of ids) x ≡ true) (sym e) h, apart.0))
            | no other ↦ ground (
              arith,
              a.new k (rw same (has-cons g k (groups_of ids) h)),
              lookup-insert text_discrete g k (id ∷ []) groups,
            )
          ];
        }

  pub collect_groups-IsSingle :
      (ids : List String) (groups : Groups)
      → IsFilled groups
      → IsSingle (collect_groups registry ids groups) ↔ Apart ids groups
  unfolding collect_groups add_member
  collect_groups-IsSingle [] groups f = (
    λ h.
        unfold groups_of in
        unfold has in record { single = h; unique = tt; new = λ g e. absurd (cc e) },
    λ a. a.single,
  )
  collect_groups-IsSingle (id ∷ ids) groups f = elim (Option-cases (group_of registry id)) [
    | inl e ↦
        let rest = collect_groups-IsSingle ids groups f in
        let same = groups_none id ids e in
        rw (e, collect_groups)
          (
            λ h. Apart-subst ids (id ∷ ids) groups (sym same) (rest.0 h),
            λ a. rest.1 (Apart-subst (id ∷ ids) ids groups same a),
          )
    | inr (g, e) ↦
        let same = groups_some id g ids e in
        elim (Option-cases (lookup text_discrete g groups)) [
          | inl free ↦
              let rest =
                collect_groups-IsSingle ids (insert text_discrete g (id ∷ []) groups)
                  (IsFilled-insert g id [] groups f) in
              rw (e, free, collect_groups, add_member)
                (
                  λ h. Apart-more g id ids groups same free (rest.0 h),
                  λ a. rest.1 (Apart-less g id ids groups same free a),
                )
          | inr (ms, taken) ↦
              let rest =
                collect_groups-IsSingle ids (insert text_discrete g (ms ++ (id ∷ [])) groups)
                  (IsFilled-insert g id ms groups f) in
              rw (e, taken, collect_groups, add_member)
                (
                  λ h. absurd (
                      IsSingle-insert_second g (ms ++ (id ∷ [])) groups
                        (omega (arith, f g ms taken, length-append ms (id ∷ [])))
                        (rest.0 h).single),
                  λ a. absurd (cc (a.new g (rw same (has-cons_self g (groups_of ids))), taken)),
                )
        ]
  ]
