-- ===== src/Config/Substitutions/Resolve.antt =====
-- crates/rshome-config/src/stages/s2_substitutions.rs: what `resolve_string` makes of a text.
use text.Mathlib.TextLemmas.{nil-append, cons-append}
use zt_edge.Common.{
  ◌<>◌, ℕ, zero, suc, ◌<◌, ◌≡◌, refl, ap, ◌∙◌, none, some, String, List, [], ◌∷◌, ◌++◌, Dict, All,
  Option-cases, inl, inr, arith,
}
use zt_edge.Common.Cut.{cut, size, cut_lt, cut_pair-append, cut_char-append}
use zt_edge.Config.Diagnostic.{ValidationError}
use zt_edge.Config.Substitutions.{placeholder, resolve_loop, resolve_string}

open-append : (s : String) → "${" <> s ≡ String.◌∷◌ "$" (String.◌∷◌ "{" s)
open-append s =
    cons-append "$" "{" s
    ∙ ap (String.◌∷◌ "$") (cons-append "{" "" s ∙ ap (String.◌∷◌ "{") (nil-append s))

close-append : (s : String) → "}" <> s ≡ String.◌∷◌ "}" s
close-append s = cons-append "}" "" s ∙ ap (String.◌∷◌ "}") (nil-append s)

open_found :
    (before rest : String)
    → cut "${" before ≡ none
    → cut "${" (before <> "${" <> rest) ≡ some (before, rest)
open_found before rest h =
    ap (λ t. cut "${" (before <> t)) (open-append rest) ∙ cut_pair-append "$" "{" before rest refl h

close_found :
    (expr rest : String) → cut "}" expr ≡ none → cut "}" (expr <> "}" <> rest) ≡ some (expr, rest)
close_found expr rest h =
    ap (λ t. cut "}" (expr <> t)) (close-append rest) ∙ cut_char-append "}" expr rest h

-- Texts between placeholders, each with the expression that follows it.
abbrev pub Parts : Type 0
Parts = List (String × String)

unfoldable pub print : Parts → String → String
print [] tail = tail
print ((before, expr) ∷ parts) tail = before <> "${" <> expr <> "}" <> print parts tail

-- No text holds an opening and no expression a closing mark.
abbrev pub IsPlain : Parts → String → Type 0
IsPlain parts tail =
    All (λ p. (cut "${" p.0 ≡ none) × (cut "}" p.1 ≡ none)) parts × (cut "${" tail ≡ none)

module _ (subs : Dict String String) (path : String) where
  -- Each placeholder replaced on its own, and all else kept.
  unfoldable pub fill : Parts → String → String × List ValidationError
  fill [] tail = (tail, [])
  fill ((before, expr) ∷ parts) tail =
      let (value, own) = placeholder subs path expr in
      let (result, errors) = fill parts tail in (before <> value <> result, own ++ errors)

  abbrev resolve : ℕ → String → String × List ValidationError
  resolve fuel s = resolve_loop subs fuel path s

  resolve_fuel :
      (fuel more : ℕ) (s : String) → size s < fuel → size s < more → resolve fuel s ≡ resolve more s
  unfolding resolve_loop
  resolve_fuel zero more s h k = absurd (omega arith)
  resolve_fuel (suc fuel) zero s h k = absurd (omega arith)
  resolve_fuel (suc fuel) (suc more) s h k = elim (Option-cases (cut "${" s)) [
    | inl e ↦ rw (e, resolve_loop) refl
    | inr ((before, rest), e) ↦
        let short : size rest < size s = cut_lt "$" "{" s before rest e in
        elim (Option-cases (cut "}" rest)) [
          | inl g ↦
              rw (e, g, resolve_loop, resolve_fuel fuel more rest (omega arith) (omega arith)) refl
          | inr ((expr, after), g) ↦
              let shorter : size after < size rest = cut_lt "}" "" rest expr after g in
              rw (e, g, resolve_loop, resolve_fuel fuel more after (omega arith) (omega arith)) refl
        ]
  ]

  resolve_plain : (fuel : ℕ) (s : String) → cut "${" s ≡ none → resolve (suc fuel) s ≡ (s, [])
  unfolding resolve_loop
  resolve_plain fuel s h = rw (h, resolve_loop) refl

  resolve_placeholder :
      (before expr rest : String)
      → cut "${" before ≡ none
      → cut "}" expr ≡ none
      → resolve_string subs path (before <> "${" <> expr <> "}" <> rest) ≡ (
        before <> (placeholder subs path expr).0 <> (resolve_string subs path rest).0,
        (placeholder subs path expr).1 ++ (resolve_string subs path rest).1,
      )
  unfolding resolve_string resolve_loop
  resolve_placeholder before expr rest h k =
      let found = open_found before (expr <> "}" <> rest) h in
      let closed = close_found expr rest k in
      let short = cut_lt "$" "{" _ _ _ found in
      let shorter = cut_lt "}" "" _ _ _ closed in
      rw
        (
          found,
          closed,
          resolve_loop,
          resolve_fuel (size (before <> "${" <> expr <> "}" <> rest)) (suc (size rest)) rest
              (omega arith) (omega arith),
        )
        refl

  -- In a text whose placeholders are closed, each placeholder is replaced by its value on its own,
  -- what stands between them stays, and no value is read for placeholders again.
  pub resolve_string-print :
      (parts : Parts) (tail : String)
      → IsPlain parts tail
      → resolve_string subs path (print parts tail) ≡ fill parts tail
  unfolding print fill
  resolve_string-print [] tail h = unfold resolve_string in resolve_plain (size tail) tail h.1
  resolve_string-print ((before, expr) ∷ parts) tail h =
      rw
        (
          resolve_placeholder before expr (print parts tail) h.0.0.0 h.0.0.1,
          resolve_string-print parts tail (h.0.1, h.1),
        )
        refl
