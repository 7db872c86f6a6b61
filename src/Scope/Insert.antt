-- ===== src/Scope/Insert.antt =====
-- `InsertNameIntoScope`: a new name is found from then on, a name that was there stays.
use nib_lang.Base.{
  ℕ, suc, ◌<◌, false, List, [], Option, none, some, ◌≡◌, refl, ap, sym, ◌∙◌, ◌⊎◌, inl, inr, arith,
  ◌==◌, length, set, Bytes, eq_text, Bool-cases, Option-cases, get_or-set_self, get_or-set_ne,
}
use nib_lang.Errors.{commit}
use nib_lang.Scope.{
  root_scope, Kind, SpannedText, NamedBinding, Scope, ScopeManager, new_scope, scope_at,
}
use nib_lang.Scope.Tree.{IsTree}
use nib_lang.Scope.Lookup.{
  ScopeToCheck, check_current, own_binding, find_loop, search_ends, find_binding_for, with_binding,
  new_binding, conflict_error, insert_name_into_scope,
}
use nib_lang.Scope.Names.{
  Indexed, own_binding-new, own_binding-other, SameSearch, find_loop-SameSearch,
}

abbrev nowhere : Scope
nowhere = new_scope root_scope 0 []

-- What inserting `b`, a new name of the active scope, does to the searches.
pub record Inserts (b : NamedBinding) (m q : ScopeManager) : Type 0 where
  pub found : (check : ScopeToCheck) → find_binding_for b.name.text check none q ≡ some (some b)
  pub others :
      (other : Bytes) (check : ScopeToCheck) (from : Option ℕ)
      → eq_text b.name.text other ≡ false
      → find_binding_for other check from q ≡ find_binding_for other check from m
  pub fresh : (b.binding_id ≡ m.next_binding_id) × (q.next_binding_id ≡ suc m.next_binding_id)
  pub errors_eq : q.errors ≡ m.errors

set-SameSearch :
    (other : Bytes) (b : NamedBinding) (xs : List Scope) (i : ℕ)
    → i < length xs
    → Indexed (scope_at xs i)
    → eq_text b.name.text other ≡ false
    → SameSearch other xs (set xs i (with_binding b (scope_at xs i)))
set-SameSearch other b xs i h x e = record {
  own = λ j. at_scope j (own_binding other) (own_binding-other other b (scope_at xs i) x e);
  parents = λ j. at_scope j (λ (s : Scope). s.parent_scope_id) refl;
  types = λ j. at_scope j (λ (s : Scope). s.scope_type) refl;
}
  where
    at_scope :
        {A : Type 0} (j : ℕ) (f : Scope → A)
        → f (with_binding b (scope_at xs i)) ≡ f (scope_at xs i)
        → f (scope_at (set xs i (with_binding b (scope_at xs i))) j) ≡ f (scope_at xs j)
    at_scope j f p = elim (Bool-cases (i == j)) [
      | inl k ↦
          let same : i ≡ j = ground arith in
          let self = get_or-set_self xs i (with_binding b (scope_at xs i)) nowhere h in
          ap (λ (l : ℕ). f (scope_at (set xs i (with_binding b (scope_at xs i))) l)) (sym same)
          ∙ ap f self
          ∙ p
          ∙ ap (λ (l : ℕ). f (scope_at xs l)) same
      | inr k ↦
          ap f (get_or-set_ne xs i j (with_binding b (scope_at xs i)) nowhere (λ c. ground arith))
    ]

abbrev pub with_inserted : NamedBinding → ScopeManager → ScopeManager
with_inserted b m = record m {
  scopes = set m.scopes m.active_scope_id (with_binding b (scope_at m.scopes m.active_scope_id));
  next_binding_id = suc m.next_binding_id;
}

find-with_inserted :
    (b : NamedBinding) (m : ScopeManager) (other : Bytes) (check : ScopeToCheck) (from : Option ℕ)
    → SameSearch other m.scopes (with_inserted b m).scopes
    → find_binding_for other check from (with_inserted b m) ≡ find_binding_for other check from m
unfolding find_binding_for
find-with_inserted b m other check none s =
    find_loop-SameSearch (suc m.active_scope_id) other check false m.scopes _ m.active_scope_id s
find-with_inserted b m other check (some id) s =
    find_loop-SameSearch (suc id) other check false m.scopes _ id s

inserted-Inserts :
    (b : NamedBinding) (m : ScopeManager)
    → IsTree m
    → Indexed (scope_at m.scopes m.active_scope_id)
    → b.binding_id ≡ m.next_binding_id
    → Inserts b m (with_inserted b m)
unfolding find_binding_for find_loop
inserted-Inserts b m t x e =
    let s = scope_at m.scopes m.active_scope_id in
    let self = get_or-set_self m.scopes m.active_scope_id (with_binding b s) nowhere t.active in
    record {
      found = λ check. rw (ap (own_binding b.name.text) self ∙ own_binding-new b s, find_loop) refl;
      others = λ other check from d.
          find-with_inserted b m other check from
            (set-SameSearch other b m.scopes m.active_scope_id t.active x d);
      fresh = (e, refl);
      errors_eq = refl;
    }

pub find_current :
    (name : Bytes) (m : ScopeManager)
    → find_binding_for name check_current none m
      ≡ some (own_binding name (scope_at m.scopes m.active_scope_id))
unfolding find_binding_for find_loop search_ends
find_current name m = elim (Option-cases (own_binding name (scope_at m.scopes m.active_scope_id))) [
  | inl e ↦ rw (e, find_loop) refl
  | inr (b, e) ↦ rw (e, find_loop) refl
]

-- `InsertNameIntoScope` always returns. A name that the active scope has already keeps its binding,
-- which is returned, and one error is added, nothing else; a new name gets a binding of a fresh
-- identity, which every search from the active scope finds from then on, whatever its mode, while
-- every search for another name, from any scope, has the result it had.
pub insert_name_into_scope-Inserts :
    (name : SpannedText) (kind : Kind) (type_id : ℕ) (symbol_id idx parent_type_id : Option ℕ)
    (m : ScopeManager)
    → IsTree m
    → Indexed (scope_at m.scopes m.active_scope_id)
    → (b : NamedBinding) × (q : ScopeManager) × (insert_name_into_scope name kind type_id symbol_id
          idx parent_type_id m
        ≡ some (b, q))
      × ((find_binding_for name.text check_current none m ≡ some (some b))
            × (q ≡ record m { errors = commit (conflict_error name b) m.errors })
          ⊎ (find_binding_for name.text check_current none m ≡ some none)
            × (b.name ≡ name)
            × Inserts b m q)
unfolding insert_name_into_scope
insert_name_into_scope-Inserts name kind type_id symbol_id idx parent_type_id m t x =
    let current = find_current name.text m in
    elim (Option-cases (own_binding name.text (scope_at m.scopes m.active_scope_id))) [
      | inr (old, e) ↦ (
        old,
        record m { errors = commit (conflict_error name old) m.errors },
        rw (current ∙ ap some e, insert_name_into_scope) refl,
        inl (current ∙ ap some e, refl),
      )
      | inl e ↦
          let b = new_binding name kind type_id symbol_id idx parent_type_id m.next_binding_id in
          (
            b,
            with_inserted b m,
            rw (current ∙ ap some e, insert_name_into_scope) refl,
            inr (current ∙ ap some e, refl, inserted-Inserts b m t x refl),
          )
    ]
