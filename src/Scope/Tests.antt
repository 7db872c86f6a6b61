-- ===== src/Scope/Tests.antt =====
-- The scope manager's theorems at concrete scopes.
use nib_lang.Base.{
  zero, suc, ℕ, ◌<◌, [], Option, none, some, ◌≡◌, refl, ◌⊎◌, arith, codes, length, eq_text,
}
use nib_lang.Errors.{commit}
use nib_lang.Scope.{
  function_instance_scope, block_scope, Kind, variable, SpannedText, NamedBinding, ScopeManager,
  scope_at, is_function_instance, new_scope_manager, create_scope, enter_scope, set_active_scope_id,
  exit_scope,
}
use nib_lang.Scope.Lookup.{
  check_current, check_closure, check_all, find_idx, own_binding, search_ends, find_loop,
  find_binding_for, conflict_error, insert_name_into_scope, next_symbol_idx, declare_indexed,
  declare_variable_binding, search_from,
}
use nib_lang.Scope.Tree.{IsTree}
use nib_lang.Scope.Nesting.{
  new_scope_manager-IsTree, set_active_scope_id-IsTree, exit_scope-enter_scope,
}
use nib_lang.Scope.Names.{find_binding_for-ends, Indexed}
use nib_lang.Scope.Consistent.{
  IsConsistent, enter_scope-IsConsistent, insert_name_into_scope-IsConsistent,
}
use nib_lang.Scope.Insert.{Inserts, insert_name_into_scope-Inserts}

abbrev root : ScopeManager
root = new_scope_manager []

-- The scopes of a function's body.
abbrev body : ScopeManager
body = enter_scope function_instance_scope (codes "main") root

abbrev x_name : SpannedText
x_name = record {
  text = codes "x";
  metadata = record {
    column_range = record { start = 4; end = 5 };
    line_range = record { start = 1; end = 2 };
    file_id = 0;
  };
}

-- `find_binding_for` behind a declaration.
abbrev found_kind : Option (Option NamedBinding) → Option Kind
found_kind (some (some b)) = some b.kind
found_kind _ = none

abbrev after : Option (NamedBinding × ScopeManager) → ScopeManager
after (some (b, m)) = m
after none = root

declared :
    found_kind (
      find_binding_for
        (codes "x")
        check_all
        none
        (enter_scope block_scope (codes "if") (after (declare_variable_binding x_name 7 body))))
    ≡ some variable
unfolding find_binding_for find_loop own_binding find_idx search_ends enter_scope create_scope
    declare_variable_binding declare_indexed next_symbol_idx insert_name_into_scope
    is_function_instance eq_text
declared = refl

root-Indexed : (i : ℕ) → Indexed (scope_at root.scopes i)
unfolding enter_scope create_scope
root-Indexed zero = tt
root-Indexed (suc i) = tt

root-IsConsistent : IsConsistent root
root-IsConsistent = record { tree = new_scope_manager-IsTree []; indexed = root-Indexed }

enter_scope-IsConsistent_example : IsConsistent body
enter_scope-IsConsistent_example =
    enter_scope-IsConsistent function_instance_scope (codes "main") root root-IsConsistent

insert_name_into_scope-IsConsistent_example :
    (b : NamedBinding) × (q : ScopeManager) × (insert_name_into_scope x_name variable 7 none
        (some 0)
        none
        root
      ≡ some (b, q))
    × IsConsistent q
insert_name_into_scope-IsConsistent_example =
    insert_name_into_scope-IsConsistent x_name variable 7 none (some 0) none root root-IsConsistent

exit_scope-enter_scope_example :
    exit_scope (enter_scope block_scope (codes "if") root)
    ≡ some (create_scope block_scope (codes "if") root)
exit_scope-enter_scope_example =
    exit_scope-enter_scope block_scope (codes "if") root (new_scope_manager-IsTree [])

root_is_there : 0 < length root.scopes
unfolding enter_scope create_scope
root_is_there = omega arith

set_active_scope_id-IsTree_example :
    (f : ℕ) × (set_active_scope_id 0 root
      ≡ some (record root { active_scope_id = 0; function_scope_id = f }))
    × IsTree (record root { active_scope_id = 0; function_scope_id = f })
set_active_scope_id-IsTree_example =
    set_active_scope_id-IsTree 0 root (new_scope_manager-IsTree []) root_is_there

root_is_searched : search_from none root < length root.scopes
unfolding enter_scope create_scope
root_is_searched = omega arith

find_binding_for-ends_example :
    (r : Option NamedBinding) × (find_binding_for (codes "x") check_closure none root ≡ some r)
find_binding_for-ends_example =
    find_binding_for-ends (codes "x") check_closure none root (new_scope_manager-IsTree [])
      root_is_searched

no_names : Indexed (scope_at root.scopes root.active_scope_id)
unfolding enter_scope create_scope
no_names = tt

insert_name_into_scope-Inserts_example :
    (b : NamedBinding) × (q : ScopeManager) × (insert_name_into_scope x_name variable 7 none
        (some 0)
        none
        root
      ≡ some (b, q))
    × ((find_binding_for x_name.text check_current none root ≡ some (some b))
          × (q ≡ record root { errors = commit (conflict_error x_name b) root.errors })
        ⊎ (find_binding_for x_name.text check_current none root ≡ some none)
          × (b.name ≡ x_name)
          × Inserts b root q)
insert_name_into_scope-Inserts_example =
    insert_name_into_scope-Inserts x_name variable 7 none (some 0) none root
      (new_scope_manager-IsTree []) no_names
