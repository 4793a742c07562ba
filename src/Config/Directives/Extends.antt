-- ===== src/Config/Directives/Extends.antt =====
-- crates/rshome-config/src/stages/s3_extend_remove.rs: a configuration whose only directives are
-- `!extend` entries.
use text.Mathlib.Text.{starts_with}
use mathlib.Core.List.{append-nil}
use zt_edge.Common.{
  ℕ, zero, suc, ◌-◌, ◌≤◌, ◌<◌, true, false, some, ◌≡◌, refl, sym, ap, subst, ◌∙◌, String, List, [],
  ◌∷◌, ◌++◌, length, take, drop, take-append-drop, Bool-cases, List-cases, inl, inr, All, arith,
}
use zt_edge.Config.Raw.{
  RawConfig, ComponentConfig, is_extend, is_remove, directive_target, second_word,
}
use zt_edge.Config.Directives.{
  process_extend, process_entry, process_loop, stage_3_process_extend_remove,
}
use zt_edge.Config.Directives.Merged.{
  directives, merged, IsAimed, merged-process_extend, merged-drop, merged_plain,
  directives-plain_append, directives-cons,
}
use zt_edge.Config.Directives.Loop.{types, process_extend-types, process_entry_measure}

abbrev pub NoRemove : List String → Type 0
NoRemove = All (λ t. starts_with t "!remove" ≡ false)

-- Each `!extend` directive that names a target names one that is no directive.
abbrev pub Aimed : List String → Type 0
Aimed = All (λ k.
    starts_with k "!extend" ≡ true
    → (t : String) → second_word k ≡ some t
    → starts_with t "!extend" ≡ false)

abbrev Plain : List String → Type 0
Plain = All (λ t. starts_with t "!extend" ≡ false)

Plain-append_one :
    (ts : List String) (t : String)
    → Plain ts
    → starts_with t "!extend" ≡ false
    → Plain (ts ++ (t ∷ []))
Plain-append_one [] t h k = (k, tt)
Plain-append_one (x ∷ ts) t h k = (h.0, Plain-append_one ts t h.1 k)

IsAimed-of :
    (c : ComponentConfig)
    → is_extend c ≡ true
    → ((t : String) → second_word c.component_type ≡ some t → starts_with t "!extend" ≡ false)
    → IsAimed c
unfolding directive_target
IsAimed-of c e h t g = h t (rw (e, directive_target) at g)

types-append : (xs ys : List ComponentConfig) → types (xs ++ ys) ≡ types xs ++ types ys
types-append [] ys = refl
types-append (x ∷ xs) ys = cc (types-append xs ys)

types-take : (n : ℕ) (cs : List ComponentConfig) → types (take n cs) ≡ take n (types cs)
types-take zero cs = refl
types-take (suc n) [] = refl
types-take (suc n) (c ∷ cs) = cc (types-take n cs)

types-drop : (n : ℕ) (cs : List ComponentConfig) → types (drop n cs) ≡ drop n (types cs)
types-drop zero cs = refl
types-drop (suc n) [] = refl
types-drop (suc n) (c ∷ cs) = types-drop n cs

-- Beyond a prefix that is cut off and put back.
cut_back :
    {A : Type 0} (i : ℕ) (xs ys : List A)
    → i ≤ length xs
    → (take i (take i xs ++ ys) ≡ take i xs) × (drop i (take i xs ++ ys) ≡ ys)
cut_back zero xs ys h = (refl, refl)
cut_back (suc i) [] ys h = absurd (omega arith)
cut_back (suc i) (x ∷ xs) ys h =
    let both = cut_back i xs ys (omega arith) in (ap (◌∷◌ x) both.0, both.1)

drop_next :
    {A : Type 0} (i : ℕ) (xs : List A) (y : A) (ys : List A)
    → drop i xs ≡ y ∷ ys
    → (take (suc i) xs ≡ take i xs ++ (y ∷ [])) × (drop (suc i) xs ≡ ys) × (i < length xs)
drop_next zero [] y ys e = absurd (cc e)
drop_next zero (x ∷ xs) y ys e = (cc e, cc e, omega arith)
drop_next (suc i) [] y ys e = absurd (cc e)
drop_next (suc i) (x ∷ xs) y ys e =
    let more = drop_next i xs y ys e in (ap (◌∷◌ x) more.0, more.1, omega (arith, more.2))

module _ (i : ℕ) (cs : List ComponentConfig) (c : ComponentConfig) (after : List ComponentConfig)
    (e : drop i cs ≡ c ∷ after) where
  abbrev next : ℕ × List ComponentConfig
  next = let p = process_entry c (take i cs ++ after) i cs in (p.0, p.1)

  drop-types : drop i (types cs) ≡ c.component_type ∷ types after
  drop-types = sym (types-drop i cs) ∙ ap types e

  extended_types :
      types (process_extend c (take i cs ++ after)).0 ≡ take i (types cs) ++ types after
  extended_types =
      process_extend-types c (take i cs ++ after)
      ∙ types-append (take i cs) after
      ∙ ap (λ ts. ts ++ types after) (types-take i cs)

  whole : take i cs ++ (c ∷ after) ≡ cs
  whole = ap (λ r. take i cs ++ r) (sym e) ∙ take-append-drop i cs

  -- What one round needs, for the next.
  record Ready (j : ℕ) (ds : List ComponentConfig) : Type 0 where
    done : Plain (take j (types ds))
    no_remove : NoRemove (drop j (types ds))
    aimed : Aimed (drop j (types ds))
    same : merged (directives ds) [] ds ≡ merged (directives cs) [] cs

  -- A round carries a directive out, or passes an entry.
  round :
      Plain (take i (types cs))
      → NoRemove (drop i (types cs))
      → Aimed (drop i (types cs))
      → Ready next.0 next.1
  unfolding process_entry is_extend is_remove
  round plain h aimed =
      let step = drop_next i (types cs) c.component_type (types after) drop-types in
      let back = cut_back i (types cs) (types after) (omega (arith, step.2)) in
      let mild = subst NoRemove drop-types h in
      let aims = subst Aimed drop-types aimed in
      let done = subst Plain (sym (types-take i cs)) plain in
      elim (Bool-cases (is_extend c)) [
        | inl x ↦
            let (put, kept) =
              merged-process_extend c (directives (take i cs ++ after)) (take i cs ++ after)
                (IsAimed-of c x (aims.0 x)) in
            let list : directives cs ≡ c ∷ directives (take i cs ++ after) =
              ap directives (sym whole)
              ∙ directives-plain_append (take i cs) (c ∷ after) done
              ∙ directives-cons c after x
              ∙ ap (◌∷◌ c) (sym (directives-plain_append (take i cs) after done)) in
            rw (x, process_entry)
              record {
                done = rw (extended_types, back.0) plain;
                no_remove = rw (extended_types, back.1) mild.1;
                aimed = rw (extended_types, back.1) aims.1;
                same =
                    rw kept put
                    ∙ ap (λ ds. merged ds [] (take i cs ++ after)) (sym list)
                    ∙ sym (merged-drop (directives cs) [] (take i cs) c after x)
                    ∙ ap (merged (directives cs) []) whole;
              }
        | inr x ↦
            rw (x, mild.0, process_entry)
              record {
                done = rw step.0 (Plain-append_one (take i (types cs)) c.component_type plain x);
                no_remove = rw step.1 mild.1;
                aimed = rw step.1 aims.1;
                same = refl;
              }
      ]

process_loop-merged :
    (fuel i : ℕ) (cs : List ComponentConfig)
    → length cs - i < fuel
    → Plain (take i (types cs))
    → NoRemove (drop i (types cs))
    → Aimed (drop i (types cs))
    → (process_loop fuel i cs).0 ≡ merged (directives cs) [] cs
unfolding process_loop
process_loop-merged zero i cs h p n a = absurd (omega arith)
process_loop-merged (suc fuel) i cs h p n a = elim (List-cases (drop i cs)) [
  | inl e ↦
      let rest : drop i (types cs) ≡ [] = sym (types-drop i cs) ∙ ap types e in
      let all : take i (types cs) ≡ types cs =
        sym (append-nil _)
        ∙ ap (λ r. take i (types cs) ++ r) (sym rest)
        ∙ take-append-drop i (types cs) in
      let plain = subst Plain all p in
      rw (e, process_loop)
        (sym
          (ap (λ ds. merged ds [] cs) (merged_plain [] cs plain).1 ∙ (merged_plain [] cs plain).0))
  | inr (c, after, e) ↦
      let r = round i cs c after e p n a in
      let less = process_entry_measure i cs c after e in
      rw (e, process_loop)
        (process_loop-merged fuel (next i cs c after e).0 (next i cs c after e).1 (omega arith)
            r.done r.no_remove r.aimed
          ∙ r.same)
]

-- If no entry is a `!remove` directive and no `!extend` directive names one as its target, the
-- stage leaves the entries that are no directives, in their order. The first of each type has the
-- documents of all directives for its type merged into its own, one after the other; else the
-- entries are as they were.
pub stage_3_process_extend_remove-merged :
    (config : RawConfig)
    → NoRemove (types config.components)
    → Aimed (types config.components)
    → (stage_3_process_extend_remove config).0.components
      ≡ merged (directives config.components) [] config.components
unfolding stage_3_process_extend_remove
stage_3_process_extend_remove-merged config h a =
    process_loop-merged (suc (length config.components)) 0 config.components (omega arith) tt h a
