-- ===== src/Scope.antt =====
-- compiler/scope_manager.h and compiler/scope_manager.cc: the tree of lexical scopes and the
-- bindings of names in it.
pub mod Tree
pub mod Nesting
pub mod Lookup
pub mod Names
pub mod Insert
pub mod Consistent
mod Tests
use nib_lang.Base.{
  ℕ, zero, suc, ◌+◌, Bool, true, false, not, ◌&&◌, ◌||◌, List, [], ◌∷◌, ◌++◌, Option, none, some,
  ◌==◌, if◌then◌else◌, length, get_or, set, Bytes, codes, eq_text,
}
use nib_lang.Tokenizer.{Metadata, TextRange}
use nib_lang.Errors.{Error, new_error, with_note, commit}

pub data ScopeType : Type 0 where
  root_scope struct_symbol_scope struct_instance_scope function_symbol_scope : ScopeType
  function_instance_scope block_scope template_scope : ScopeType

-- `NamedBinding::Kind`
pub data Kind : Type 0 where
  function struct_kind interface field argument variable capture template type_alias : Kind

pub record SpannedText : Type 0 where
  pub text : Bytes
  pub metadata : Metadata

pub record NamedBinding : Type 0 where
  pub name : SpannedText
  pub kind : Kind
  pub type_id : ℕ
  pub symbol_id : Option ℕ
  pub idx : Option ℕ
  pub parent_type_id : Option ℕ
  pub binding_id : ℕ

pub record Scope : Type 0 where
  pub scope_type : ScopeType
  pub parent_scope_id : ℕ
  pub name : Bytes
  pub binding_lookup : List (Bytes × ℕ)
  pub bindings_for_scope : List NamedBinding
  pub next_symbol_idx : ℕ
  pub children : List ℕ

pub record ScopeManager : Type 0 where
  pub scopes : List Scope
  pub active_scope_id : ℕ
  pub function_scope_id : ℕ
  pub next_binding_id : ℕ
  pub errors : List Error

abbrev pub new_scope : ScopeType → ℕ → Bytes → Scope
new_scope type parent name = record {
  scope_type = type;
  parent_scope_id = parent;
  name = name;
  binding_lookup = [];
  bindings_for_scope = [];
  next_symbol_idx = 0;
  children = [];
}

-- `scopes_[id]`, for an identity in range.
abbrev pub scope_at : List Scope → ℕ → Scope
scope_at scopes id = get_or scopes id (new_scope root_scope 0 [])

unfoldable pub is_function_instance : ScopeType → Bool
is_function_instance function_instance_scope = true
is_function_instance _ = false

-- `CreateScope`; the identity is the number of scopes before.
unfoldable pub create_scope : ScopeType → Bytes → ScopeManager → ScopeManager
create_scope type name m =
    let scope_id = length m.scopes in
    let scopes = m.scopes ++ new_scope type m.active_scope_id name ∷ [] in
    let parent = scope_at scopes m.active_scope_id in
    record m {
      scopes =
          set scopes m.active_scope_id
            (record parent { children = parent.children ++ scope_id ∷ [] });
    }

unfoldable pub enter_scope : ScopeType → Bytes → ScopeManager → ScopeManager
enter_scope type name m =
    let scope_id = length m.scopes in
    let created = create_scope type name m in
    record created {
      active_scope_id = scope_id;
      function_scope_id = if is_function_instance type then scope_id else m.function_scope_id;
    }

-- The loop of `SetActiveScopeId`, on fuel.
unfoldable pub climb : ℕ → List Scope → ℕ → Option ℕ
climb zero scopes id = none
climb (suc f) scopes id = elim (id == 0 || is_function_instance (scope_at scopes id).scope_type) [
  | true ↦ some id
  | false ↦ climb f scopes (scope_at scopes id).parent_scope_id
]

-- One round of fuel more than the identity.
unfoldable pub set_active_scope_id : ℕ → ScopeManager → Option ScopeManager
set_active_scope_id scope_id m = elim (climb (suc scope_id) m.scopes scope_id) [
  | none ↦ none
  | some id ↦ some (record m {
    active_scope_id = scope_id;
    function_scope_id = if is_function_instance (scope_at m.scopes id).scope_type then id else 0;
  })
]

unfoldable pub exit_scope : ScopeManager → Option ScopeManager
exit_scope m = set_active_scope_id (scope_at m.scopes m.active_scope_id).parent_scope_id m

-- `ScopeManager(error_collector)`
abbrev pub new_scope_manager : List Error → ScopeManager
new_scope_manager errors = enter_scope root_scope (codes "<<root>>") (record {
  scopes = [];
  active_scope_id = 0;
  function_scope_id = 0;
  next_binding_id = 0;
  errors = errors;
})
