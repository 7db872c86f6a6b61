-- ===== src/Scope/Consistent.antt =====
-- A consistent manager: a tree of scopes whose names point to their bindings. Entering scopes and
-- inserting names keep it consistent.
use mathlib.Core.Path.{subst}
use nib_lang.Base.{
  ℕ, zero, suc, ◌+◌, ◌<◌, List, [], ◌∷◌, ◌++◌, Option, some, ◌≡◌, refl, ap, sym, ◌∙◌, ◌⊎◌, inl, inr,
  arith, ◌==◌, ltb, ltb→lt, length, set, All, Bytes, Bool-cases, Option-cases, length-append,
  length-set, get_or-set_self, get_or-set_ne, get_or-beyond,
}
use nib_lang.Errors.{commit}
use nib_lang.Scope.{
  ScopeType, root_scope, Kind, SpannedText, NamedBinding, Scope, ScopeManager, new_scope, scope_at,
  create_scope, enter_scope,
}
use nib_lang.Scope.Tree.{Ordered, IsTree, SameShape, Enclosing-SameShape}
use nib_lang.Scope.Nesting.{set-SameShape, enter_scope-IsTree}
use nib_lang.Scope.Lookup.{
  own_binding, with_binding, new_binding, conflict_error, insert_name_into_scope,
}
use nib_lang.Scope.Names.{Indexed}
use nib_lang.Scope.Insert.{with_inserted, find_current}

abbrev nowhere : Scope
nowhere = new_scope root_scope 0 []

pub record IsConsistent (m : ScopeManager) : Type 0 where
  pub tree : IsTree m
  pub indexed : (i : ℕ) → Indexed (scope_at m.scopes i)

set-Indexed :
    (xs : List Scope) (i : ℕ) (s : Scope)
    → ((j : ℕ) → Indexed (scope_at xs j))
    → Indexed s
    → (j : ℕ) → Indexed (scope_at (set xs i s) j)
set-Indexed xs i s all one j = elim (Bool-cases (i == j)) [
  | inr e ↦ subst Indexed (sym (get_or-set_ne xs i j s nowhere (λ c. ground arith))) (all j)
  | inl e ↦
      let same : i ≡ j = ground arith in
      elim (Bool-cases (ltb i (length xs))) [
        | inl k ↦
            subst (λ (l : ℕ). Indexed (scope_at (set xs i s) l)) same
              (subst Indexed (sym (get_or-set_self xs i s nowhere (ltb→lt _ _ k))) one)
        | inr k ↦
            let len = length-set xs i s in
            subst Indexed (sym (get_or-beyond (set xs i s) j nowhere (ground arith))) tt
      ]
]

append-Indexed :
    (xs : List Scope) (s : Scope)
    → ((j : ℕ) → Indexed (scope_at xs j))
    → Indexed s
    → (j : ℕ) → Indexed (scope_at (xs ++ s ∷ []) j)
append-Indexed [] s all one zero = one
append-Indexed [] s all one (suc j) = tt
append-Indexed (x ∷ xs) s all one zero = all 0
append-Indexed (x ∷ xs) s all one (suc j) = append-Indexed xs s (λ k. all (suc k)) one j

-- Entering a scope keeps the manager consistent.
pub enter_scope-IsConsistent :
    (type : ScopeType) (name : Bytes) (m : ScopeManager)
    → IsConsistent m
    → IsConsistent (enter_scope type name m)
unfolding enter_scope create_scope
enter_scope-IsConsistent type name m c =
    let s = new_scope type m.active_scope_id name in
    let all = append-Indexed m.scopes s c.indexed tt in
    record {
      tree = enter_scope-IsTree type name m c.tree;
      indexed = set-Indexed (m.scopes ++ s ∷ []) m.active_scope_id _ all (all m.active_scope_id);
    }

below_more :
    (n : ℕ) (table : List (Bytes × ℕ))
    → All (λ (e : Bytes × ℕ). e.1 < n) table
    → All (λ (e : Bytes × ℕ). e.1 < n + 1) table
below_more n [] a = tt
below_more n (x ∷ table) (b, a) = (omega arith, below_more n table a)

with_binding-Indexed : (b : NamedBinding) (s : Scope) → Indexed s → Indexed (with_binding b s)
with_binding-Indexed b s a =
    let len : length s.bindings_for_scope + 1 ≡ length (s.bindings_for_scope ++ b ∷ []) =
      omega (arith, length-append s.bindings_for_scope (b ∷ [])) in
    subst (λ (n : ℕ). All (λ (e : Bytes × ℕ). e.1 < n) (with_binding b s).binding_lookup) len
      (omega arith, below_more (length s.bindings_for_scope) s.binding_lookup a)

Ordered-set :
    (xs : List Scope) (i : ℕ) (s : Scope)
    → SameShape (length xs) xs (set xs i s)
    → Ordered xs
    → Ordered (set xs i s)
Ordered-set xs i s shape o j h =
    let len = length-set xs i s in
    let lt : j < length xs = omega arith in
    subst (λ (p : ℕ). (p < j) ⊎ ((j ≡ 0) × (p ≡ 0))) (sym (shape.parents j lt)) (o j lt)

inserted-IsConsistent :
    (b : NamedBinding) (m : ScopeManager) → IsConsistent m → IsConsistent (with_inserted b m)
inserted-IsConsistent b m c =
    let s = with_binding b (scope_at m.scopes m.active_scope_id) in
    let active = c.tree.active in
    let shape = set-SameShape (length m.scopes) m.active_scope_id m.scopes s refl refl active in
    let len = length-set m.scopes m.active_scope_id s in
    record {
      tree = record {
        ordered = Ordered-set m.scopes m.active_scope_id s shape c.tree.ordered;
        active = omega arith;
        enclosing =
            Enclosing-SameShape m.scopes (set m.scopes m.active_scope_id s) m.active_scope_id
              m.function_scope_id c.tree.ordered shape active c.tree.enclosing;
      };
      indexed = set-Indexed m.scopes m.active_scope_id s c.indexed (
          with_binding-Indexed b (scope_at m.scopes m.active_scope_id)
            (c.indexed m.active_scope_id));
    }

-- Inserting a name returns, and leaves a consistent manager, whether the name is new or not.
pub insert_name_into_scope-IsConsistent :
    (name : SpannedText) (kind : Kind) (type_id : ℕ) (symbol_id idx parent_type_id : Option ℕ)
    (m : ScopeManager)
    → IsConsistent m
    → (b : NamedBinding) × (q : ScopeManager) × (insert_name_into_scope name kind type_id symbol_id
          idx parent_type_id m
        ≡ some (b, q))
      × IsConsistent q
unfolding insert_name_into_scope
insert_name_into_scope-IsConsistent name kind type_id symbol_id idx parent_type_id m c =
    let current = find_current name.text m in
    elim (Option-cases (own_binding name.text (scope_at m.scopes m.active_scope_id))) [
      | inr (old, e) ↦ (
        old,
        record m { errors = commit (conflict_error name old) m.errors },
        rw (current ∙ ap some e, insert_name_into_scope) refl,
        record {
          tree = record {
            ordered = c.tree.ordered;
            active = c.tree.active;
            enclosing = c.tree.enclosing;
          };
          indexed = c.indexed;
        },
      )
      | inl e ↦
          let b = new_binding name kind type_id symbol_id idx parent_type_id m.next_binding_id in
          (
            b,
            with_inserted b m,
            rw (current ∙ ap some e, insert_name_into_scope) refl,
            inserted-IsConsistent b m c,
          )
    ]
