-- ===== src/Config/ExclusiveGroups/Groups.antt =====
-- crates/rshome-config/src/stages/s11_exclusive_groups.rs: which configurations pass the stage.
use zt_edge.Common.{
  true, false, ◌≡◌, refl, sym, ap, subst, ◌∙◌, ◌↔◌, inl, inr, some, String, List, [], ◌∷◌, lookup,
  has, has-cons, has-cons_self, text_discrete, Option-cases, Bool-cases, arith,
}
use zt_edge.Common.Sort.{Unique, IsSorted-Unique}
use zt_edge.Config.Raw.{RawConfig}
use zt_edge.Config.ExclusiveGroups.{
  group_of, collect_groups, selected, stage_11_check_exclusive_groups,
}
use zt_edge.Schema.Registry.{ComponentRegistry}
use zt_edge.Schema.Registry.Expand.{Needed, resolve_auto_load_lem}
use zt_edge.Config.ExclusiveGroups.Collected.{
  group_errors-eq-nil, has-cons_other, groups_of, groups_none, groups_some, collect_groups-IsSingle,
}

module _ (registry : ComponentRegistry) where
  has-groups_of :
      (ids : List String) (g : String)
      → has (groups_of registry ids) g ≡ true
      → (id : String) × (has ids id ≡ true) × (group_of registry id ≡ some g)
  unfolding groups_of has
  has-groups_of [] g h = absurd (cc h)
  has-groups_of (x ∷ ids) g h = elim (Option-cases (group_of registry x)) [
    | inl e ↦
        let (id, m, k) = has-groups_of ids g (rw (e, groups_of) at h) in
        (id, has-cons x id ids m, k)
    | inr (f, e) ↦ elim (text_discrete f g) [
      | yes same ↦ (x, has-cons_self x ids, e ∙ ap some same)
      | no other ↦
          let (id, m, k) =
            has-groups_of ids g
              (has-cons_other f g (groups_of registry ids) other (rw (e, groups_of) at h)) in
          (id, has-cons x id ids m, k)
    ]
  ]

  groups_of-has :
      (ids : List String) (id g : String)
      → has ids id ≡ true
      → group_of registry id ≡ some g
      → has (groups_of registry ids) g ≡ true
  unfolding groups_of has
  groups_of-has [] id g h e = absurd (cc h)
  groups_of-has (x ∷ ids) id g h e = elim (text_discrete x id) [
    | yes same ↦
        let head : group_of registry x ≡ some g = ap (group_of registry) same ∙ e in
        rw (head, groups_of) (has-cons_self g (groups_of registry ids))
    | no other ↦
        let later = groups_of-has ids id g (has-cons_other x id ids other h) e in
        elim (Option-cases (group_of registry x)) [
          | inl n ↦ rw (n, groups_of) later
          | inr (f, n) ↦ rw (n, groups_of) (has-cons f g (groups_of registry ids) later)
        ]
  ]

  -- No two of the components are in one group.
  abbrev Exclusive : List String → Type 0
  Exclusive ids =
      (a b g : String)
      → has ids a ≡ true
      → has ids b ≡ true
      → group_of registry a ≡ some g
      → group_of registry b ≡ some g
      → a ≡ b

  head_alone :
      (x g : String) (ids : List String)
      → group_of registry x ≡ some g
      → Unique (groups_of registry (x ∷ ids))
      → has (groups_of registry ids) g ≡ false
  head_alone x g ids e u = (subst Unique (groups_some registry x g ids e) u).0

  tail_Unique :
      (x : String) (ids : List String)
      → Unique (groups_of registry (x ∷ ids))
      → Unique (groups_of registry ids)
  tail_Unique x ids u = elim (Option-cases (group_of registry x)) [
    | inl e ↦ subst Unique (groups_none registry x ids e) u
    | inr (g, e) ↦ (subst Unique (groups_some registry x g ids e) u).1
  ]

  exclude :
      (x b g : String) (ids : List String)
      → Unique (groups_of registry (x ∷ ids))
      → group_of registry x ≡ some g
      → has ids b ≡ true
      → ¬ (group_of registry b ≡ some g)
  exclude x b g ids u e n f = cc (head_alone x g ids e u, groups_of-has ids b g n f)

  Exclusive-cons :
      (x : String) (ids : List String)
      → Unique (groups_of registry (x ∷ ids))
      → Exclusive ids
      → Exclusive (x ∷ ids)
  Exclusive-cons x ids u rest a b g m n e f = elim (text_discrete x a) [
    | yes p ↦ elim (text_discrete x b) [
      | yes q ↦ sym p ∙ q
      | no q ↦
          absurd (exclude x b g ids u (ap (group_of registry) p ∙ e) (has-cons_other x b ids q n) f)
    ]
    | no p ↦ elim (text_discrete x b) [
      | yes q ↦
          absurd (exclude x a g ids u (ap (group_of registry) q ∙ f) (has-cons_other x a ids p m) e)
      | no q ↦ rest a b g (has-cons_other x a ids p m) (has-cons_other x b ids q n) e f
    ]
  ]

  groups_of-Unique :
      (ids : List String)
      → Unique ids
      → (Unique (groups_of registry ids) → Exclusive ids)
        × (Exclusive ids → Unique (groups_of registry ids))
  groups_of-Unique [] u =
      (λ h. λ a b g m n e f. absurd (unfold has in cc m), λ x. unfold groups_of in tt)
  groups_of-Unique (x ∷ ids) u =
      let (read, write) = groups_of-Unique ids u.1 in
      (
        λ h. Exclusive-cons x ids h (read (tail_Unique x ids h)),
        λ ex.
            let rest =
              write (λ a b g m n e f. ex a b g (has-cons x a ids m) (has-cons x b ids n) e f) in
            elim (Option-cases (group_of registry x)) [
              | inl e ↦ rw (groups_none registry x ids e) rest
              | inr (g, e) ↦ rw (groups_some registry x g ids e) (
                elim (Bool-cases (has (groups_of registry ids) g)) [
                  | inr once ↦ once
                  | inl again ↦
                      let (id, m, k) = has-groups_of ids g again in
                      let same = ex x id g (has-cons_self x ids) (has-cons x id ids m) e k in
                      absurd (cc (same, m, u.0))
                ],
                rest,
              )
            ],
      )

-- The stage has no diagnostic exactly when two needed components of one exclusive group are always
-- the same component.
pub stage_11_check_exclusive_groups-eq-nil :
    (config : RawConfig) (registry : ComponentRegistry)
    → (stage_11_check_exclusive_groups config registry ≡ some []) ↔ (
        (a b g : String)
        → Needed registry (selected config) a
        → Needed registry (selected config) b
        → group_of registry a ≡ some g
        → group_of registry b ≡ some g
        → a ≡ b)
unfolding stage_11_check_exclusive_groups
stage_11_check_exclusive_groups-eq-nil config registry =
    let (out, e, sorted, members) = resolve_auto_load_lem registry (selected config) in
    let clean = group_errors-eq-nil (collect_groups registry out []) in
    let single =
      collect_groups-IsSingle registry out [] (λ g ms h. absurd (unfold lookup in cc h)) in
    let (read, write) = groups_of-Unique registry out (IsSorted-Unique out sorted) in
    rw (e, stage_11_check_exclusive_groups)
      (
        λ h a b g m n.
            read (single.0 (clean.0 (ground arith))).unique a b g ((members a).1 m)
              ((members b).1 n),
        λ ex. ap some (
            clean.1 (
              single.1 (record {
                single = tt;
                unique = write (λ a b g m n. ex a b g ((members a).0 m) ((members b).0 n));
                new = λ g h. unfold lookup in refl;
              }))),
      )
