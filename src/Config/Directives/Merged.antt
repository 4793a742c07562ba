-- ===== src/Config/Directives/Merged.antt =====
-- crates/rshome-config/src/stages/s3_extend_remove.rs: what the `!extend` directives of a list
-- make of its other entries.
use text.Mathlib.Text.{starts_with}
use zt_edge.Common.{
  true, false, ◌≡◌, refl, sym, ap, ◌∙◌, ◌≢◌, none, some, String, List, [], ◌∷◌, ◌++◌, has,
  text_discrete, Option-cases, Bool-cases, inl, inr, All, arith, if◌then◌else◌, ite,
}
use zt_edge.Config.Value.{Value}
use zt_edge.Config.Raw.{ComponentConfig, is_extend, directive_target}
use zt_edge.Config.Merge.{deep_merge}
use zt_edge.Config.Directives.{extend_first, process_extend}
use zt_edge.Config.Directives.Loop.{types}

unfoldable pub directives : List ComponentConfig → List ComponentConfig
directives [] = []
directives (c ∷ cs) = let rest = directives cs in if is_extend c then c ∷ rest else rest

-- The documents of the directives for a type.
unfoldable pub extensions : String → List ComponentConfig → List Value
extensions kind [] = []
extensions kind (d ∷ ds) =
    let rest = extensions kind ds in
    elim (directive_target d) [
      | none ↦ rest
      | some target ↦ ite (text_discrete target kind) (d.config ∷ rest) rest
    ]

unfoldable pub merge_all : Value → List Value → Value
merge_all value [] = value
merge_all value (src ∷ rest) = merge_all (deep_merge src value) rest

-- The entries that are no directives. The first of each type takes the documents of the directives
-- for it in, one after the other; `before` are the types that have come already.
unfoldable pub merged :
    List ComponentConfig → List String → List ComponentConfig → List ComponentConfig
merged ds before [] = []
merged ds before (c ∷ cs) =
    let rest = merged ds before cs in
    let later = merged ds (c.component_type ∷ before) cs in
    let extended = record c { config = merge_all c.config (extensions c.component_type ds) } in
    if is_extend c then rest else (if has before c.component_type then c else extended) ∷ later

extensions_other :
    (kind : String) (d : ComponentConfig) (ds : List ComponentConfig)
    → (directive_target d ≢ some kind)
    → extensions kind (d ∷ ds) ≡ extensions kind ds
unfolding extensions
extensions_other kind d ds n = elim (Option-cases (directive_target d)) [
  | inl e ↦ rw (e, extensions) refl
  | inr (t, e) ↦ elim (text_discrete t kind) [
    | yes same ↦ absurd (n (e ∙ ap some same))
    | no other ↦ ground (arith, e)
  ]
]

-- A directive for no type that is still to come changes nothing.
abbrev Missed : ComponentConfig → List String → List ComponentConfig → Type 0
Missed d before cs =
    (t : String)
    → directive_target d ≡ some t
    → has before t ≡ false
    → extend_first t d.config cs ≡ none

merged-Missed :
    (d : ComponentConfig) (ds : List ComponentConfig) (before : List String)
    (cs : List ComponentConfig)
    → Missed d before cs
    → merged (d ∷ ds) before cs ≡ merged ds before cs
unfolding merged extend_first has
merged-Missed d ds before [] m = refl
merged-Missed d ds before (c ∷ cs) m =
    let same = merged-Missed d ds before cs (λ t e h. ground (arith, m t e h)) in
    let later =
      merged-Missed d ds (c.component_type ∷ before) cs (λ t e h. ground (arith, m t e)) in
    elim (Bool-cases (has before c.component_type)) [
      | inl old ↦ ground (arith, same, later, old)
      | inr new ↦
          let away : directive_target d ≢ some c.component_type =
            λ e. ground (arith, m c.component_type e new) in
          ground (arith, same, later, new, extensions_other c.component_type d ds away)
    ]

extensions_own :
    (kind : String) (d : ComponentConfig) (ds : List ComponentConfig)
    → directive_target d ≡ some kind
    → extensions kind (d ∷ ds) ≡ d.config ∷ extensions kind ds
unfolding extensions
extensions_own kind d ds e = rw (e, extensions) (ground arith)

-- The entry that takes the document in, at the head of the list.
merged_head :
    (d : ComponentConfig) (ds : List ComponentConfig) (before : List String) (c : ComponentConfig)
    (cs : List ComponentConfig)
    → directive_target d ≡ some c.component_type
    → is_extend c ≡ false
    → has before c.component_type ≡ false
    → merged ds before (record c { config = deep_merge d.config c.config } ∷ cs)
      ≡ merged (d ∷ ds) before (c ∷ cs)
unfolding merged merge_all is_extend has
merged_head d ds before c cs e plain new =
    let missed : Missed d (c.component_type ∷ before) cs = λ t f h. ground (arith, e, f, h) in
    rw (plain, new, merged, extensions_own c.component_type d ds e)
      (ap
        (λ rest.
          record c {
            config = merge_all (deep_merge d.config c.config) (extensions c.component_type ds);
          }
          ∷ rest)
        (sym (merged-Missed d ds (c.component_type ∷ before) cs missed)))

-- The first entry of the type takes the document in.
merged_found :
    (d : ComponentConfig) (ds : List ComponentConfig) (t : String) (before : List String)
    (cs out : List ComponentConfig)
    → directive_target d ≡ some t
    → starts_with t "!extend" ≡ false
    → has before t ≡ false
    → extend_first t d.config cs ≡ some out
    → merged ds before out ≡ merged (d ∷ ds) before cs
unfolding merged extend_first has
merged_found d ds t before [] out e plain h f = absurd (cc f)
merged_found d ds t before (c ∷ cs) out e plain h f = elim (text_discrete c.component_type t) [
  | yes same ↦
      let is : record c { config = deep_merge d.config c.config } ∷ cs ≡ out = ground arith in
      rw (← is) (
        merged_head d ds before c cs (e ∙ ap some (sym same))
          (unfold is_extend in ap (λ k. starts_with k "!extend") same ∙ plain)
          (ap (has before) same ∙ h))
  | no other ↦ elim (Option-cases (extend_first t d.config cs)) [
    | inl none_here ↦ absurd (ground (arith, none_here))
    | inr (rest, g) ↦
        let is : c ∷ rest ≡ out = ground (arith, g) in
        let apart : directive_target d ≢ some c.component_type = λ x. ground (arith, e, x) in
        rw (← is) (
          ground (
            arith,
            merged_found d ds t before cs rest e plain h g,
            merged_found d ds t (c.component_type ∷ before) cs rest e plain (ground arith) g,
            extensions_other c.component_type d ds apart,
          ))
  ]
]

directives-extend_first :
    (t : String) (src : Value) (cs out : List ComponentConfig)
    → starts_with t "!extend" ≡ false
    → extend_first t src cs ≡ some out
    → directives out ≡ directives cs
unfolding directives extend_first is_extend
directives-extend_first t src [] out plain f = absurd (cc f)
directives-extend_first t src (c ∷ cs) out plain f = elim (text_discrete c.component_type t) [
  | yes same ↦
      let now : starts_with c.component_type "!extend" ≡ false =
        ap (λ k. starts_with k "!extend") same ∙ plain in
      let is : record c { config = deep_merge src c.config } ∷ cs ≡ out = ground arith in
      rw (← is) (ground (arith, now))
  | no other ↦ elim (Option-cases (extend_first t src cs)) [
    | inl none_here ↦ absurd (ground (arith, none_here))
    | inr (rest, g) ↦
        let is : c ∷ rest ≡ out = ground (arith, g) in
        rw (← is) (ground (arith, directives-extend_first t src cs rest plain g))
  ]
]

-- A directive whose target is no directive.
abbrev pub IsAimed : ComponentConfig → Type 0
IsAimed d = (t : String) → directive_target d ≡ some t → starts_with t "!extend" ≡ false

-- To carry out a directive is to put it in front of the others.
pub merged-process_extend :
    (d : ComponentConfig) (ds cs : List ComponentConfig)
    → IsAimed d
    → (merged ds [] (process_extend d cs).0 ≡ merged (d ∷ ds) [] cs)
      × (directives (process_extend d cs).0 ≡ directives cs)
unfolding process_extend
merged-process_extend d ds cs aimed = elim (Option-cases (directive_target d)) [
  | inl e ↦
      rw (e, process_extend) (sym (merged-Missed d ds [] cs (λ t f h. absurd (cc (e, f)))), refl)
  | inr (t, e) ↦ elim (Option-cases (extend_first t d.config cs)) [
    | inl g ↦
        let missed : Missed d [] cs = λ k f h.
          let same : t ≡ k = ground (arith, e, f) in
          ap (λ x. extend_first x d.config cs) (sym same) ∙ g in
        rw (e, g, process_extend) (sym (merged-Missed d ds [] cs missed), refl)
    | inr (out, g) ↦
        rw (e, g, process_extend)
          (
            merged_found d ds t [] cs out e (aimed t e) (unfold has in refl) g,
            directives-extend_first t d.config cs out (aimed t e) g,
          )
  ]
]

-- A directive in the list is no entry.
pub merged-drop :
    (ds : List ComponentConfig) (before : List String) (xs : List ComponentConfig)
    (d : ComponentConfig) (ys : List ComponentConfig)
    → is_extend d ≡ true
    → merged ds before (xs ++ (d ∷ ys)) ≡ merged ds before (xs ++ ys)
unfolding merged
merged-drop ds before [] d ys e = rw (e, merged) refl
merged-drop ds before (x ∷ xs) d ys e =
    rw (merged-drop ds before xs d ys e, merged-drop ds (x.component_type ∷ before) xs d ys e) refl

-- Without directives, nothing is changed.
pub merged_plain :
    (before : List String) (cs : List ComponentConfig)
    → All (λ t. starts_with t "!extend" ≡ false) (types cs)
    → (merged [] before cs ≡ cs) × (directives cs ≡ [])
unfolding merged directives extensions merge_all is_extend
merged_plain before [] h = (refl, refl)
merged_plain before (c ∷ cs) h =
    let rest = merged_plain (c.component_type ∷ before) cs h.1 in
    (
      elim (Bool-cases (has before c.component_type)) [
        | inl e ↦ rw (h.0, e, merged) (ap (◌∷◌ c) rest.0)
        | inr e ↦ rw (h.0, e, merged) (ap (◌∷◌ c) rest.0)
      ],
      rw (h.0, directives) rest.1,
    )

pub directives-plain_append :
    (xs ys : List ComponentConfig)
    → All (λ t. starts_with t "!extend" ≡ false) (types xs)
    → directives (xs ++ ys) ≡ directives ys
unfolding directives is_extend
directives-plain_append [] ys h = refl
directives-plain_append (x ∷ xs) ys h = rw (h.0, directives) (directives-plain_append xs ys h.1)

pub directives-cons :
    (d : ComponentConfig) (ds : List ComponentConfig)
    → is_extend d ≡ true
    → directives (d ∷ ds) ≡ d ∷ directives ds
unfolding directives
directives-cons d ds e = rw (e, directives) refl
