-- ===== src/Scope/Lookup.antt =====
-- `FindBindingFor`, `InsertNameIntoScope` and the declarations.
use nib_lang.Base.{
  ℕ, zero, suc, Bool, true, false, ◌&&◌, ◌||◌, List, [], ◌∷◌, ◌++◌, Option, none, some, ◌==◌,
  length, get_elem?, set, Bytes, codes, eq_text, ◌>>=◌,
}
use nib_lang.Errors.{Error, new_error, with_note, commit}
use nib_lang.Scope.{
  Kind, argument, variable, capture, template, SpannedText, NamedBinding, Scope, ScopeManager,
  scope_at, is_function_instance,
}

-- `ScopeToCheck`
pub data ScopeToCheck : Type 0 where
  check_current check_function check_closure check_all : ScopeToCheck

-- `binding_lookup.find(name)`
unfoldable pub find_idx : Bytes → List (Bytes × ℕ) → Option ℕ
find_idx name [] = none
find_idx name ((key, idx) ∷ table) = elim (eq_text key name) [
  | true ↦ some idx
  | false ↦ find_idx name table
]

-- The binding that a scope has for a name.
unfoldable pub own_binding : Bytes → Scope → Option NamedBinding
own_binding name s = do idx ← find_idx name s.binding_lookup; get_elem? s.bindings_for_scope idx

-- The search does not go on to the scopes around `s`, of identity `id`; `seen` holds behind the
-- first scope of a function.
unfoldable pub search_ends : ScopeToCheck → Bool → Scope → ℕ → Bool
search_ends check_current seen s id = true
search_ends check_function seen s id =
    is_function_instance s.scope_type || (id == 0 && s.parent_scope_id == 0)
search_ends check_closure seen s id =
    is_function_instance s.scope_type && seen || (id == 0 && s.parent_scope_id == 0)
search_ends check_all seen s id = id == 0 && s.parent_scope_id == 0

-- The loop of `FindBindingFor`, on fuel.
unfoldable pub find_loop :
    ℕ → Bytes → ScopeToCheck → Bool → List Scope → ℕ → Option (Option NamedBinding)
find_loop zero name check seen scopes id = none
find_loop (suc f) name check seen scopes id = elim (own_binding name (scope_at scopes id)) [
  | some found ↦ some (some found)
  | none ↦ elim (search_ends check seen (scope_at scopes id) id) [
    | true ↦ some none
    | false ↦
        find_loop f name check (is_function_instance (scope_at scopes id).scope_type || seen) scopes
          (scope_at scopes id).parent_scope_id
  ]
]

-- `override_scope_id.value_or(active_scope_id_)`
abbrev pub search_from : Option ℕ → ScopeManager → ℕ
search_from none m = m.active_scope_id
search_from (some id) m = id

-- One round of fuel more than the identity.
unfoldable pub find_binding_for :
    Bytes → ScopeToCheck → Option ℕ → ScopeManager → Option (Option NamedBinding)
find_binding_for name check from m =
    find_loop (suc (search_from from m)) name check false m.scopes (search_from from m)

abbrev pub with_binding : NamedBinding → Scope → Scope
with_binding b s = record s {
  binding_lookup = (b.name.text, length s.bindings_for_scope) ∷ s.binding_lookup;
  bindings_for_scope = s.bindings_for_scope ++ b ∷ [];
}

abbrev pub conflict_error : SpannedText → NamedBinding → Error
conflict_error name existing =
    with_note (codes "original binding for: '" ++ (existing.name.text ++ codes "'"))
      existing.name.metadata
      (new_error (codes "Binding for '" ++ (name.text ++ codes "' conflicts with existing binding"))
        name.metadata)

abbrev pub new_binding : SpannedText → Kind → ℕ → Option ℕ → Option ℕ → Option ℕ → ℕ → NamedBinding
new_binding name kind type_id symbol_id idx parent_type_id id = record {
  name = name;
  kind = kind;
  type_id = type_id;
  symbol_id = symbol_id;
  idx = idx;
  parent_type_id = parent_type_id;
  binding_id = id;
}

-- `InsertNameIntoScope`, the name's spans included in the message of a conflict.
unfoldable pub insert_name_into_scope :
    SpannedText
    → Kind
    → ℕ
    → Option ℕ
    → Option ℕ
    → Option ℕ
    → ScopeManager
    → Option (NamedBinding × ScopeManager)
insert_name_into_scope name kind type_id symbol_id idx parent_type_id m =
    elim (find_binding_for name.text check_current none m) [
      | none ↦ none
      | some (some existing) ↦
          some (existing, record m { errors = commit (conflict_error name existing) m.errors })
      | some none ↦
          let b = new_binding name kind type_id symbol_id idx parent_type_id m.next_binding_id in
          some (
            b,
            record m {
              scopes =
                  set m.scopes m.active_scope_id
                    (with_binding b (scope_at m.scopes m.active_scope_id));
              next_binding_id = suc m.next_binding_id;
            },
          )
    ]

-- `scopes_[function_scope_id_].next_symbol_idx++`
unfoldable pub next_symbol_idx : ScopeManager → ℕ × ScopeManager
next_symbol_idx m =
    let s = scope_at m.scopes m.function_scope_id in
    (
      s.next_symbol_idx,
      record m {
        scopes =
            set m.scopes m.function_scope_id (record s { next_symbol_idx = suc s.next_symbol_idx });
      },
    )

-- The declarations of variables, arguments and captures: the index is taken first.
unfoldable pub declare_indexed :
    Kind → SpannedText → ℕ → ScopeManager → Option (NamedBinding × ScopeManager)
declare_indexed kind name type_id m =
    let (idx, q) = next_symbol_idx m in
    insert_name_into_scope name kind type_id none (some idx) none q

unfoldable pub declare_variable_binding :
    SpannedText → ℕ → ScopeManager → Option (NamedBinding × ScopeManager)
declare_variable_binding = declare_indexed variable

unfoldable pub declare_argument_binding :
    SpannedText → ℕ → ScopeManager → Option (NamedBinding × ScopeManager)
declare_argument_binding = declare_indexed argument

unfoldable pub declare_capture_binding :
    SpannedText → ℕ → ScopeManager → Option (NamedBinding × ScopeManager)
declare_capture_binding = declare_indexed capture

unfoldable pub declare_template_binding :
    SpannedText → ℕ → ScopeManager → Option (NamedBinding × ScopeManager)
declare_template_binding name type_id m =
    insert_name_into_scope name template type_id none none none m
