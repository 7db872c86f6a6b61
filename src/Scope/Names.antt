-- ===== src/Scope/Names.antt =====
-- Names: the search ends, an inserted name is found, and no other name changes.
use nib_lang.Base.{
  ℕ, zero, suc, ◌<◌, Bool, true, false, ◌||◌, List, [], ◌∷◌, ◌++◌, Option, none, some, ◌≡◌, ◌≢◌,
  refl, ◌∙◌, ◌⊎◌, inl, inr, arith, length, get_elem?, All, Bytes, eq_text, eq_text_refl, Bool-cases,
  Option-cases,
}
use nib_lang.Scope.{NamedBinding, Scope, ScopeManager, scope_at, is_function_instance}
use nib_lang.Scope.Tree.{Ordered, IsTree}
use nib_lang.Scope.Lookup.{
  ScopeToCheck, check_current, check_function, check_closure, check_all, find_idx, own_binding,
  search_ends, find_loop, search_from, find_binding_for, with_binding,
}

ends_at_root :
    (check : ScopeToCheck) (seen : Bool) (s : Scope) (id : ℕ)
    → search_ends check seen s id ≡ false
    → (id ≢ 0) ⊎ (s.parent_scope_id ≢ 0)
unfolding search_ends
ends_at_root check_current seen s id e = cc
ends_at_root check_function seen s id e = ground arith
ends_at_root check_closure seen s id e = ground arith
ends_at_root check_all seen s id e = ground arith

find_loop-ends :
    (f : ℕ) (name : Bytes) (check : ScopeToCheck) (seen : Bool) (xs : List Scope) (id : ℕ)
    → Ordered xs
    → id < length xs
    → id < f
    → (r : Option NamedBinding) × (find_loop f name check seen xs id ≡ some r)
unfolding find_loop
find_loop-ends zero name check seen xs id o h k = absurd (omega arith)
find_loop-ends (suc f) name check seen xs id o h k =
    elim (Option-cases (own_binding name (scope_at xs id))) [
      | inr (b, e) ↦ (some b, rw (e, find_loop) refl)
      | inl e ↦ elim (Bool-cases (search_ends check seen (scope_at xs id) id)) [
        | inl t ↦ (none, rw (e, t, find_loop) refl)
        | inr t ↦
            let p = (scope_at xs id).parent_scope_id in
            let lt : p < id = elim (o id h) [
              | inl l ↦ l
              | inr (z, y) ↦ absurd (elim (ends_at_root check seen (scope_at xs id) id t) [
                | inl n ↦ n z
                | inr n ↦ n y
              ])
            ] in
            let (r, found) =
              find_loop-ends f name check (is_function_instance (scope_at xs id).scope_type || seen)
                xs p o (omega arith) (omega arith) in
            (r, rw (e, t, find_loop) found)
      ]
    ]

-- The search of names ends in every mode, from every scope there is, the active one included.
pub find_binding_for-ends :
    (name : Bytes) (check : ScopeToCheck) (from : Option ℕ) (m : ScopeManager)
    → IsTree m
    → search_from from m < length m.scopes
    → (r : Option NamedBinding) × (find_binding_for name check from m ≡ some r)
unfolding find_binding_for
find_binding_for-ends name check from m t h =
    find_loop-ends (suc (search_from from m)) name check false m.scopes (search_from from m)
      t.ordered h (omega arith)

-- The indices of a scope's names point into its bindings.
abbrev pub Indexed : Scope → Type 0
Indexed s = All (λ (e : Bytes × ℕ). e.1 < length s.bindings_for_scope) s.binding_lookup

get_elem?-last :
    (bs : List NamedBinding) (b : NamedBinding) → get_elem? (bs ++ b ∷ []) (length bs) ≡ some b
get_elem?-last [] b = refl
get_elem?-last (x ∷ bs) b = get_elem?-last bs b

get_elem?-before :
    (bs cs : List NamedBinding) (i : ℕ) → i < length bs → get_elem? (bs ++ cs) i ≡ get_elem? bs i
get_elem?-before [] cs i h = absurd (omega arith)
get_elem?-before (x ∷ bs) cs zero h = refl
get_elem?-before (x ∷ bs) cs (suc i) h = get_elem?-before bs cs i (omega arith)

find_idx-below :
    (name : Bytes) (n : ℕ) (table : List (Bytes × ℕ)) (i : ℕ)
    → All (λ (e : Bytes × ℕ). e.1 < n) table
    → find_idx name table ≡ some i
    → i < n
unfolding find_idx
find_idx-below name n [] i a e = cc
find_idx-below name n ((key, idx) ∷ table) i (b, bs) e =
    go (eq_text key name) e (find_idx-below name n table i bs)
  where
    go :
        (c : Bool)
        → (elim c [ true ↦ some idx | false ↦ find_idx name table ]) ≡ some i
        → (find_idx name table ≡ some i → i < n)
        → i < n
    go true k r = let same : idx ≡ i = cc in omega arith
    go false k r = r k

pub own_binding-new :
    (b : NamedBinding) (s : Scope) → own_binding b.name.text (with_binding b s) ≡ some b
unfolding own_binding find_idx
own_binding-new b s =
    rw (eq_text_refl b.name.text, find_idx) (get_elem?-last s.bindings_for_scope b)

pub own_binding-other :
    (other : Bytes) (b : NamedBinding) (s : Scope)
    → Indexed s
    → eq_text b.name.text other ≡ false
    → own_binding other (with_binding b s) ≡ own_binding other s
unfolding own_binding find_idx
own_binding-other other b s x e = elim (Option-cases (find_idx other s.binding_lookup)) [
  | inl k ↦ rw (e, k, find_idx) refl
  | inr (i, k) ↦
      rw (e, k, find_idx)
        (get_elem?-before s.bindings_for_scope (b ∷ []) i
          (find_idx-below other (length s.bindings_for_scope) s.binding_lookup i x k))
]

-- The search for `name` meets the same in both lists.
pub record SameSearch (name : Bytes) (xs ys : List Scope) : Type 0 where
  pub own : (i : ℕ) → own_binding name (scope_at ys i) ≡ own_binding name (scope_at xs i)
  pub parents : (i : ℕ) → (scope_at ys i).parent_scope_id ≡ (scope_at xs i).parent_scope_id
  pub types : (i : ℕ) → (scope_at ys i).scope_type ≡ (scope_at xs i).scope_type

search_ends-eq :
    (check : ScopeToCheck) (seen : Bool) (s t : Scope) (id : ℕ)
    → t.parent_scope_id ≡ s.parent_scope_id
    → t.scope_type ≡ s.scope_type
    → search_ends check seen t id ≡ search_ends check seen s id
unfolding search_ends
search_ends-eq check_current seen s t id p e = refl
search_ends-eq check_function seen s t id p e = rw (p, e)
search_ends-eq check_closure seen s t id p e = rw (p, e)
search_ends-eq check_all seen s t id p e = rw p

pub find_loop-SameSearch :
    (f : ℕ) (name : Bytes) (check : ScopeToCheck) (seen : Bool) (xs ys : List Scope) (id : ℕ)
    → SameSearch name xs ys
    → find_loop f name check seen ys id ≡ find_loop f name check seen xs id
unfolding find_loop
find_loop-SameSearch zero name check seen xs ys id s = refl
find_loop-SameSearch (suc f) name check seen xs ys id s =
    elim (Option-cases (own_binding name (scope_at xs id))) [
      | inr (b, e) ↦ rw (s.own id ∙ e, e, find_loop) refl
      | inl e ↦
          let same =
            search_ends-eq check seen (scope_at xs id) (scope_at ys id) id (s.parents id)
              (s.types id) in
          elim (Bool-cases (search_ends check seen (scope_at xs id) id)) [
            | inl t ↦ rw (s.own id ∙ e, e, same ∙ t, t, find_loop) refl
            | inr t ↦
                rw (s.own id ∙ e, e, same ∙ t, t, s.parents id, s.types id, find_loop)
                  (find_loop-SameSearch f name check
                    (is_function_instance (scope_at xs id).scope_type || seen) xs ys
                    (scope_at xs id).parent_scope_id s)
          ]
    ]
