-- ===== src/Config/Directives/Loop.antt =====
-- crates/rshome-config/src/stages/s3_extend_remove.rs: the rounds of the loop, and what is left of
-- the directives.
use zt_edge.Common.{
  ℕ, zero, suc, ◌-◌, ◌≤◌, ◌<◌, ◌≡◌, refl, sym, ap, ◌∙◌, some, String, List, [], ◌∷◌, ◌++◌, length,
  take, drop, length-append, length-take, length-drop, text_discrete, Option-cases, List-cases, inl,
  inr, map, arith,
}
use zt_edge.Config.Raw.{ComponentConfig, directive_target}
use zt_edge.Config.Value.{Value}
use zt_edge.Config.Directives.{
  extend_first, remove_first, process_extend, process_remove, process_entry, process_loop,
}

abbrev pub Components : Type 0
Components = List ComponentConfig

abbrev pub types : List ComponentConfig → List String
types = map (λ c. c.component_type)

pub length-types : (cs : Components) → length (types cs) ≡ length cs
length-types [] = refl
length-types (c ∷ cs) = cc (length-types cs)

extend_first-types :
    (target : String) (src : Value) (cs out : Components)
    → extend_first target src cs ≡ some out
    → types out ≡ types cs
unfolding extend_first
extend_first-types target src [] out e = absurd (cc e)
extend_first-types target src (c ∷ cs) out e = elim (text_discrete c.component_type target) [
  | yes same ↦ ground arith
  | no other ↦ elim (Option-cases (extend_first target src cs)) [
    | inl g ↦ ground arith
    | inr (rest, g) ↦ ground (arith, extend_first-types target src cs rest g)
  ]
]

pub process_extend-types :
    (c : ComponentConfig) (rest : Components) → types (process_extend c rest).0 ≡ types rest
unfolding process_extend
process_extend-types c rest = elim (Option-cases (directive_target c)) [
  | inl e ↦ rw (e, process_extend) refl
  | inr (target, e) ↦ elim (Option-cases (extend_first target c.config rest)) [
    | inl g ↦ rw (e, g, process_extend) refl
    | inr (out, g) ↦ rw (e, g, process_extend) (extend_first-types target c.config rest out g)
  ]
]

length-process_extend :
    (c : ComponentConfig) (rest : Components) → length (process_extend c rest).0 ≡ length rest
length-process_extend c rest =
    sym (length-types (process_extend c rest).0)
    ∙ ap length (process_extend-types c rest)
    ∙ length-types rest

length-remove_first :
    (target : String) (cs out : Components)
    → remove_first target cs ≡ some out
    → length out ≤ length cs
unfolding remove_first
length-remove_first target [] out e = absurd (cc e)
length-remove_first target (c ∷ cs) out e = elim (text_discrete c.component_type target) [
  | yes same ↦ ground arith
  | no other ↦ elim (Option-cases (remove_first target cs)) [
    | inl g ↦ ground arith
    | inr (rest, g) ↦ ground (arith, length-remove_first target cs rest g)
  ]
]

length-process_remove :
    (c : ComponentConfig) (rest : Components) → length (process_remove c rest).0 ≤ length rest
unfolding process_remove
length-process_remove c rest = elim (Option-cases (directive_target c)) [
  | inl e ↦ rw (e, process_remove) (omega arith)
  | inr (target, e) ↦ elim (Option-cases (remove_first target rest)) [
    | inl g ↦ rw (e, g, process_remove) (omega arith)
    | inr (out, g) ↦ rw (e, g, process_remove) (length-remove_first target rest out g)
  ]
]

-- Every round brings the end closer.
pub process_entry_measure :
    (i : ℕ) (cs : Components) (c : ComponentConfig) (after : Components)
    → drop i cs ≡ c ∷ after
    → length (process_entry c (take i cs ++ after) i cs).1
        - (process_entry c (take i cs ++ after) i cs).0
      < length cs - i
unfolding process_entry
process_entry_measure i cs c after e =
    let rest = take i cs ++ after in
    ground (
      arith,
      ap length e,
      length-drop i cs,
      length-take i cs,
      length-append (take i cs) after,
      length-process_extend c rest,
      length-process_remove c rest,
    )

-- The loop ends: more fuel than entries that are left changes nothing.
pub process_loop_fuel :
    (fuel more i : ℕ) (cs : List ComponentConfig)
    → length cs - i < fuel
    → length cs - i < more
    → process_loop fuel i cs ≡ process_loop more i cs
unfolding process_loop
process_loop_fuel zero more i cs h k = absurd (omega arith)
process_loop_fuel (suc fuel) zero i cs h k = absurd (omega arith)
process_loop_fuel (suc fuel) (suc more) i cs h k = elim (List-cases (drop i cs)) [
  | inl e ↦ rw (e, process_loop) refl
  | inr (c, after, e) ↦
      let next = process_entry c (take i cs ++ after) i cs in
      let less = process_entry_measure i cs c after e in
      rw (e, process_loop, process_loop_fuel fuel more next.0 next.1 (omega arith) (omega arith))
        refl
]
