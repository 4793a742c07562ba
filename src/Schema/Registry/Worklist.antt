-- ===== src/Schema/Registry/Worklist.antt =====
-- crates/rshome-schema/src/registry.rs: the two sets that `resolve_auto_load` works on.
use zt_edge.Common.{
  ◌+◌, ◌≤◌, ◌≡◌, refl, inl, inr, ◌||◌, true, some, String, List, [], ◌∷◌, length, has, has-cons,
  has-cons_self, has-append, missing, missing-cons_lt, lookup, Bool-cases, All, arith,
}
use zt_edge.Common.Sort.{Unique}
use zt_edge.Schema.Registry.{
  ComponentDefinition, ComponentRegistry, get, push_new, collect_set, stack_of, auto_loads,
}

-- Termination: what is left to do falls with every round.
pub get-auto_loads :
    (r : ComponentRegistry) (id : String) (def : ComponentDefinition) (k : String)
    → get r id ≡ some def
    → has def.auto_load k ≡ true
    → has (auto_loads r) k ≡ true
unfolding get lookup auto_loads
get-auto_loads [] id def k e h = cc
get-auto_loads ((j, d) ∷ r) id def k e h =
    ground (arith, has-append d.auto_load (auto_loads r) k, get-auto_loads r id def k)

abbrev Within : List String → List String → Type 0
Within xs ys = All (λ x. has ys x ≡ true) xs

pub Within-of :
    (xs ys : List String) → ((k : String) → has xs k ≡ true → has ys k ≡ true) → Within xs ys
Within-of [] ys h = tt
Within-of (x ∷ xs) ys h =
    (h x (has-cons_self x xs), Within-of xs ys (λ k e. h k (has-cons x k xs e)))

pub push_new_measure :
    (all deps result worklist : List String)
    → Within deps all
    → let (result', worklist') = push_new deps result worklist in
      length worklist' + missing all result' ≤ length worklist + missing all result
unfolding push_new
push_new_measure all [] result worklist h = omega arith
push_new_measure all (dep ∷ deps) result worklist h = ground (
  arith,
  missing-cons_lt all result dep,
  push_new_measure all deps result worklist,
  push_new_measure all deps (dep ∷ result) (dep ∷ worklist),
)

-- What `push_new` does to the two sets.
pub push_new-result :
    (deps result worklist : List String) (k : String)
    → has (push_new deps result worklist).0 k ≡ (has result k || has deps k)
unfolding push_new has
push_new-result [] result worklist k = ground arith
push_new-result (dep ∷ deps) result worklist k = ground (
  arith,
  push_new-result deps result worklist k,
  push_new-result deps (dep ∷ result) (dep ∷ worklist) k,
)

pub push_new_keeps :
    (deps result worklist : List String) (k : String)
    → has worklist k ≡ true
    → has (push_new deps result worklist).1 k ≡ true
unfolding push_new has
push_new_keeps [] result worklist k h = h
push_new_keeps (dep ∷ deps) result worklist k h = ground (
  arith,
  push_new_keeps deps result worklist k,
  push_new_keeps deps (dep ∷ result) (dep ∷ worklist) k,
)

-- What is new in the result is on the worklist, and what is new on the worklist in the result.
pub push_new_pending :
    (deps result worklist : List String) (k : String)
    → (has (push_new deps result worklist).0 k || has worklist k)
      ≡ (has result k || has (push_new deps result worklist).1 k)
unfolding push_new has
push_new_pending [] result worklist k = refl
push_new_pending (dep ∷ deps) result worklist k = ground (
  arith,
  push_new_pending deps result worklist k,
  push_new_pending deps (dep ∷ result) (dep ∷ worklist) k,
  push_new_keeps deps (dep ∷ result) (dep ∷ worklist) k,
  push_new-result deps (dep ∷ result) (dep ∷ worklist) k,
)

pub push_new-Unique :
    (deps result worklist : List String) → Unique result → Unique (push_new deps result worklist).0
unfolding push_new
push_new-Unique [] result worklist u = u
push_new-Unique (dep ∷ deps) result worklist u = elim (Bool-cases (has result dep)) [
  | inl old ↦ rw old (push_new-Unique deps result worklist u)
  | inr new ↦ rw new (push_new-Unique deps (dep ∷ result) (dep ∷ worklist) (new, u))
]

-- The start: the selection as a set and as a stack.
pub has-collect_set :
    (xs set : List String) (k : String) → has (collect_set xs set) k ≡ (has set k || has xs k)
unfolding collect_set has
has-collect_set [] set k = ground arith
has-collect_set (x ∷ xs) set k =
    ground (arith, has-collect_set xs set k, has-collect_set xs (x ∷ set) k)

pub collect_set-Unique : (xs set : List String) → Unique set → Unique (collect_set xs set)
unfolding collect_set
collect_set-Unique [] set u = u
collect_set-Unique (x ∷ xs) set u = elim (Bool-cases (has set x)) [
  | inl old ↦ rw old (collect_set-Unique xs set u)
  | inr new ↦ rw new (collect_set-Unique xs (x ∷ set) (new, u))
]

pub has-stack_of :
    (xs stack : List String) (k : String) → has (stack_of xs stack) k ≡ (has stack k || has xs k)
unfolding stack_of has
has-stack_of [] stack k = ground arith
has-stack_of (x ∷ xs) stack k = ground (arith, has-stack_of xs (x ∷ stack) k)

pub length-stack_of :
    (xs stack : List String) → length (stack_of xs stack) ≡ length xs + length stack
unfolding stack_of
length-stack_of [] stack = omega arith
length-stack_of (x ∷ xs) stack = omega (arith, length-stack_of xs (x ∷ stack))

pub missing_all : (xs : List String) → missing xs [] ≡ length xs
unfolding missing has
missing_all [] = refl
missing_all (x ∷ xs) = omega (arith, missing_all xs)
