-- ===== src/Types.antt =====
-- compiler/type_registry.h and compiler/type_registry.cc: the types of a compilation, each kind
-- interned under a key. The interning of function and struct types is not modelled, nor are symbols.
pub mod Table
pub mod Intern
pub mod Members
pub mod Single
mod Tests
use nib_lang.Base.{
  ℕ, suc, ◌+◌, Bool, true, false, not, ◌&&◌, ◌||◌, List, [], ◌∷◌, ◌++◌, Option, none, some, ◌==◌,
  if◌then◌else◌, Bytes, eq_text,
}
use nib_lang.Scope.{SpannedText}
use nib_lang.Tokenizer.{Metadata}

pub record SpannedType : Type 0 where
  pub type_id : ℕ
  pub metadata : Metadata

-- `TypeVariant`; the symbol of a struct is its identity.
pub data TypeVariant : Type 0 where
  alias_type : (name : Bytes) → (target_type_id : ℕ) → TypeVariant
  built_in_type : TypeVariant
  function_type :
      (arg_types : List ℕ) → (return_type : ℕ) → (variadic_type : Option ℕ) → TypeVariant
  intersection_type : (types : List ℕ) → TypeVariant
  optional_type : (wrapped_type : ℕ) → TypeVariant
  placeholder_type : (idx : ℕ) → TypeVariant
  struct_type : (symbol : ℕ) → (instance_template_type_ids : List ℕ) → TypeVariant
  template_variable_type :
      (name : SpannedText) → (constraint_type_id : Option SpannedType) → TypeVariant
  union_type : (types : List ℕ) → TypeVariant

-- `Type`; the sets are lists without repetition.
pub record TypeEntry : Type 0 where
  pub variant : TypeVariant
  pub template_variable_types : List ℕ
  pub placeholder_types : List ℕ

pub record TypeRegistry : Type 0 where
  pub interned_union_type : List (List ℕ × ℕ)
  pub interned_intersection_type : List (List ℕ × ℕ)
  pub interned_optional_type : List (ℕ × ℕ)
  pub type_table : List (ℕ × TypeEntry)
  pub next_type_id : ℕ
  pub interned_placeholder_type : List (ℕ × ℕ)

-- `kCount`, the number of built-in types.
abbrev pub built_in_count : ℕ
built_in_count = 10

abbrev pub built_in_entry : TypeEntry
built_in_entry = record {
  variant = built_in_type;
  template_variable_types = [];
  placeholder_types = [];
}

abbrev pub built_in_table : List (ℕ × TypeEntry)
built_in_table =
    (0, built_in_entry)
    ∷ (1, built_in_entry)
    ∷ (2, built_in_entry)
    ∷ (3, built_in_entry)
    ∷ (4, built_in_entry)
    ∷ (5, built_in_entry)
    ∷ (6, built_in_entry)
    ∷ (7, built_in_entry)
    ∷ (8, built_in_entry)
    ∷ (9, built_in_entry)
    ∷ []

-- `TypeRegistry(scope_manager)`
abbrev pub new_type_registry : TypeRegistry
new_type_registry = record {
  interned_union_type = [];
  interned_intersection_type = [];
  interned_optional_type = [];
  type_table = built_in_table;
  next_type_id = built_in_count;
  interned_placeholder_type = [];
}

-- `it != map.end()`, on the entries of a map.
unfoldable pub find_key {ℓ κ} :
    {K : Type ℓ} {V : Type κ} → (K → K → Bool) → K → List (K × V) → Option V
find_key same key [] = none
find_key same key ((k, v) ∷ table) = elim (same k key) [
  | true ↦ some v
  | false ↦ find_key same key table
]

abbrev pub same_id : ℕ → ℕ → Bool
same_id a b = a == b

-- `try_emplace`: an entry that is there stays.
unfoldable pub emplace : ℕ → TypeEntry → List (ℕ × TypeEntry) → List (ℕ × TypeEntry)
emplace id entry table = elim (find_key same_id id table) [
  | some old ↦ table
  | none ↦ (id, entry) ∷ table
]

-- `Type{}`, an alias without name.
abbrev pub default_entry : TypeEntry
default_entry = record {
  variant = alias_type [] 0;
  template_variable_types = [];
  placeholder_types = [];
}

-- `type_table_[id]` adds an entry for an identity that has none.
abbrev pub touch : ℕ → TypeRegistry → TypeRegistry
touch id r = record r { type_table = emplace id default_entry r.type_table }

unfoldable pub touch_all : List ℕ → TypeRegistry → TypeRegistry
touch_all [] r = r
touch_all (id ∷ ids) r = touch_all ids (touch id r)

-- The entry that is read.
abbrev pub entry_of_id : ℕ → TypeRegistry → TypeEntry
entry_of_id id r = elim (find_key same_id id r.type_table) [
  | some entry ↦ entry
  | none ↦ default_entry
]

unfoldable pub member : ℕ → List ℕ → Bool
member x [] = false
member x (y ∷ ys) = x == y || member x ys

-- `insert` of a range into a set.
unfoldable pub insert_all : List ℕ → List ℕ → List ℕ
insert_all [] set = set
insert_all (x ∷ xs) set = insert_all xs (if member x set then set else x ∷ set)

-- The calls of `AppendVariablesFrom` for types whose entries are there.
unfoldable pub append_variables_from : List ℕ → TypeRegistry → List ℕ × List ℕ → List ℕ × List ℕ
append_variables_from [] r (template, placeholder) = (template, placeholder)
append_variables_from (id ∷ ids) r (template, placeholder) = append_variables_from ids r (
  insert_all (entry_of_id id r).template_variable_types template,
  insert_all (entry_of_id id r).placeholder_types placeholder,
)

abbrev pub entry_over : TypeVariant → List ℕ → TypeRegistry → TypeEntry
entry_over variant ids r =
    let variables = append_variables_from ids r ([], []) in
    record {
      variant = variant;
      template_variable_types = variables.0;
      placeholder_types = variables.1;
    }

unfoldable pub new_type_id : TypeRegistry → ℕ × TypeRegistry
new_type_id r = (r.next_type_id, record r { next_type_id = suc r.next_type_id })

-- A new identity with the entry.
unfoldable pub add_entry : TypeEntry → TypeRegistry → ℕ × TypeRegistry
add_entry entry r =
    let (type_id, q) = new_type_id r in
    (type_id, record q { type_table = emplace type_id entry q.type_table })

unfoldable pub same_ids : List ℕ → List ℕ → Bool
same_ids [] [] = true
same_ids (x ∷ xs) (y ∷ ys) = x == y && same_ids xs ys
same_ids xs ys = false

unfoldable pub new_union_type : List ℕ → TypeRegistry → ℕ × TypeRegistry
new_union_type types r = elim (find_key same_ids types r.interned_union_type) [
  | some id ↦ (id, r)
  | none ↦
      let t = touch_all types r in
      let (id, q) = add_entry (entry_over (union_type types) types t) t in
      (id, record q { interned_union_type = (types, id) ∷ q.interned_union_type })
]

unfoldable pub new_intersection_type : List ℕ → TypeRegistry → ℕ × TypeRegistry
new_intersection_type types r = elim (find_key same_ids types r.interned_intersection_type) [
  | some id ↦ (id, r)
  | none ↦
      let t = touch_all types r in
      let (id, q) = add_entry (entry_over (intersection_type types) types t) t in
      (id, record q { interned_intersection_type = (types, id) ∷ q.interned_intersection_type })
]

abbrev pub entry_like : TypeVariant → ℕ → TypeRegistry → TypeEntry
entry_like variant id r = record (entry_of_id id r) { variant = variant }

unfoldable pub new_optional_type : ℕ → TypeRegistry → ℕ × TypeRegistry
new_optional_type wrapped_type r = elim (find_key same_id wrapped_type r.interned_optional_type) [
  | some id ↦ (id, r)
  | none ↦
      let t = touch wrapped_type r in
      let (id, q) = add_entry (entry_like (optional_type wrapped_type) wrapped_type t) t in
      (id, record q { interned_optional_type = (wrapped_type, id) ∷ q.interned_optional_type })
]

unfoldable pub new_placeholder_type : ℕ → TypeRegistry → ℕ × TypeRegistry
new_placeholder_type idx r = elim (find_key same_id idx r.interned_placeholder_type) [
  | some id ↦ (id, r)
  | none ↦
      let (id, q) =
        add_entry
          (record {
            variant = placeholder_type idx;
            template_variable_types = [];
            placeholder_types = r.next_type_id ∷ [];
          })
          r in
      (id, record q { interned_placeholder_type = (idx, id) ∷ q.interned_placeholder_type })
]

unfoldable pub new_template_variable_type :
    SpannedText → Option SpannedType → TypeRegistry → ℕ × TypeRegistry
new_template_variable_type name constraint_type r =
    add_entry
      (record {
        variant = template_variable_type name constraint_type;
        template_variable_types = r.next_type_id ∷ [];
        placeholder_types = [];
      })
      r

unfoldable pub new_alias_type : Bytes → ℕ → TypeRegistry → ℕ × TypeRegistry
new_alias_type name target_id r =
    let t = touch target_id r in add_entry (entry_like (alias_type name target_id) target_id t) t
