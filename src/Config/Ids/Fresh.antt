-- ===== src/Config/Ids/Fresh.antt =====
-- crates/rshome-config/src/stages/s8_id_resolution.rs: the search of `make_unique`.
use text.Mathlib.TextLemmas.{append_cancel_left}
use zt_edge.Common.{
  ◌<>◌, ℕ, zero, suc, ◌≤◌, ◌<◌, ◌≡◌, ◌≢◌, refl, sym, ◌∙◌, none, some, String, [], ◌∷◌, lookup,
  remove, lookup-remove, length, length-remove, text_discrete, Option-cases, inl, inr, ite, if_neg,
  arith,
}
use zt_edge.Common.Decimal.{decimal, decimal-injective}
use zt_edge.Config.Ids.{IdEntry, IdTable, candidate, unique_loop, make_unique}

candidate_apart : (base : String) (m n : ℕ) → m < n → candidate base m ≢ candidate base n
candidate_apart base m n h e =
    let same = decimal-injective m n (
      append_cancel_left "_" (decimal m) (decimal n)
        (append_cancel_left base ("_" <> decimal m) ("_" <> decimal n) e)) in
    omega arith

length-remove_lt :
    (k : String) (v : IdEntry) (m : IdTable)
    → lookup text_discrete k m ≡ some v
    → length (remove text_discrete k m) < length m
unfolding lookup remove
length-remove_lt k v [] e = absurd (cc e)
length-remove_lt k v ((j, w) ∷ m) e =
    ground (arith, length-remove_lt k v m, length-remove text_discrete k m)

other_entry :
    (base : String) (n m : ℕ) (left : IdTable)
    → n < m
    → ite
        (text_discrete (candidate base n) (candidate base m))
        none
        (lookup text_discrete (candidate base m) left)
      ≡ lookup text_discrete (candidate base m) left
other_entry base n m left h =
    if_neg (text_discrete (candidate base n) (candidate base m)) (candidate_apart base n m h) _ _

-- The candidates from `n` on are in the table only as far as they are in a shorter one.
unique_loop_free :
    (fuel n : ℕ) (base : String) (table left : IdTable)
    → length left ≤ fuel
    → ((m : ℕ)
        → n ≤ m
        → lookup text_discrete (candidate base m) left
          ≡ lookup text_discrete (candidate base m) table)
    → lookup text_discrete (unique_loop fuel n base table) table ≡ none
unfolding unique_loop
unique_loop_free zero n base table [] h same = sym (same n (omega arith)) ∙ unfold lookup in refl
unique_loop_free zero n base table (x ∷ left) h same = absurd (omega arith)
unique_loop_free (suc fuel) n base table left h same =
    elim (Option-cases (lookup text_discrete (candidate base n) table)) [
      | inl free ↦ rw (free, unique_loop) free
      | inr (v, taken) ↦
          let there = same n (omega arith) ∙ taken in
          rw (taken, unique_loop)
            (unique_loop_free fuel (suc n) base table (remove text_discrete (candidate base n) left)
              (omega (arith, length-remove_lt (candidate base n) v left there))
              (λ m le.
                lookup-remove text_discrete (candidate base n) (candidate base m) left
                ∙ other_entry base n m left (omega arith)
                ∙ same m (omega arith)))
    ]

-- The search ends, and what it finds is no key of the table.
pub make_unique-none :
    (base : String) (table : IdTable) → lookup text_discrete (make_unique base table) table ≡ none
unfolding make_unique
make_unique-none base table = elim (Option-cases (lookup text_discrete base table)) [
  | inl free ↦ rw (free, make_unique) free
  | inr (v, taken) ↦
      rw (taken, make_unique)
        (unique_loop_free (length table) 2 base table table (omega arith) (λ m le. refl))
]
