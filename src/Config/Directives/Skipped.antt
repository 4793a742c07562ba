-- ===== src/Config/Directives/Skipped.antt =====
-- crates/rshome-config/src/stages/s3_extend_remove.rs: a `!remove` directive whose target stands
-- in front of it.
use zt_edge.Common.{
  ℕ, suc, true, false, ◌≡◌, refl, some, List, [], ◌∷◌, ◌++◌, drop, take, ap, ◌∙◌, text_discrete,
  arith,
}
use zt_edge.Config.Diagnostic.{ValidationError}
use zt_edge.Config.Raw.{RawConfig, ComponentConfig, is_extend, is_remove, directive_target}
use zt_edge.Config.Directives.{
  remove_first, process_remove, process_entry, process_loop, stage_3_process_extend_remove,
}

-- A round whose outcome is known.
loop_step :
    (fuel i j : ℕ) (cs left : List ComponentConfig) (c : ComponentConfig)
    (after : List ComponentConfig) (own : List ValidationError)
    → drop i cs ≡ c ∷ after
    → process_entry c (take i cs ++ after) i cs ≡ (j, left, own)
    → process_loop (suc fuel) i cs
      ≡ ((process_loop fuel j left).0, own ++ (process_loop fuel j left).1)
unfolding process_loop
loop_step fuel i j cs left c after own e g =
    rw (e, process_loop)
      (ap (λ p. ((process_loop fuel p.0 p.1).0, p.2 ++ (process_loop fuel p.0 p.1).1)) g)

module _ (c r d : ComponentConfig) where
  passed :
      is_extend c ≡ false
      → is_remove c ≡ false
      → process_entry c (r ∷ d ∷ []) 0 (c ∷ r ∷ d ∷ []) ≡ (1, c ∷ r ∷ d ∷ [], [])
  unfolding process_entry
  passed ce cr = rw (ce, cr, process_entry) refl

  removed :
      directive_target r ≡ some c.component_type → process_remove r (c ∷ d ∷ []) ≡ (d ∷ [], [])
  unfolding process_remove remove_first
  removed t = elim (text_discrete c.component_type c.component_type) [
    | yes same ↦ rw (t, process_remove) (ground arith)
    | no other ↦ absurd (other refl)
  ]

  taken :
      is_extend r ≡ false
      → is_remove r ≡ true
      → directive_target r ≡ some c.component_type
      → process_entry r (c ∷ d ∷ []) 1 (c ∷ r ∷ d ∷ []) ≡ (1, d ∷ [], [])
  unfolding process_entry
  taken re rr t = rw (re, rr, process_entry, removed t) refl

  loop_skips :
      is_extend c ≡ false
      → is_remove c ≡ false
      → is_extend r ≡ false
      → is_remove r ≡ true
      → directive_target r ≡ some c.component_type
      → process_loop 4 0 (c ∷ r ∷ d ∷ []) ≡ (d ∷ [], [])
  loop_skips ce cr re rr t =
      loop_step 3 0 1 (c ∷ r ∷ d ∷ []) _ c (r ∷ d ∷ []) [] refl (passed ce cr)
      ∙ loop_step 2 1 1 (c ∷ r ∷ d ∷ []) (d ∷ []) r (d ∷ []) [] refl (taken re rr t)
      ∙ unfold process_loop in refl

-- If a component that is no directive is followed by a `!remove` directive for its type and one
-- more entry, the stage leaves this entry as it is, without a diagnostic, also when it is a
-- directive.
pub stage_3_process_extend_remove-skips :
    (config : RawConfig) (c r d : ComponentConfig)
    → config.components ≡ c ∷ r ∷ d ∷ []
    → is_extend c ≡ false
    → is_remove c ≡ false
    → is_extend r ≡ false
    → is_remove r ≡ true
    → directive_target r ≡ some c.component_type
    → ((stage_3_process_extend_remove config).0.components ≡ d ∷ [])
      × ((stage_3_process_extend_remove config).1 ≡ [])
unfolding stage_3_process_extend_remove
stage_3_process_extend_remove-skips config c r d e ce cr re rr t =
    rw (e, loop_skips c r d ce cr re rr t) (refl, refl)
