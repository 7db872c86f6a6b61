-- ===== src/Dispatch/Methods.antt =====
-- `BuildDispatchTable` from the interface's functions on: their columns, the rows of the structs
-- that implement them, and the order of both. `std::ranges::sort` is an insertion sort by the same
-- comparison; maps are association lists.
use nib_lang.Base.{
  ℕ, suc, Bool, List, [], ◌∷◌, ◌++◌, Option, none, some, ◌==◌, if◌then◌else◌, ltb, length, ◌>>=◌,
}
use nib_lang.Dispatch.{StructRow, VirtualDispatchResult}
use nib_lang.Dispatch.Rows.{pack_rows}

-- What the table is built from.
pub record FunctionSymbol : Type 0 where
  pub symbol_id : ℕ
  pub implementations : List (ℕ × ℕ)

module _ {ℓ} {A : Type ℓ} (before : A → A → Bool) where
  unfoldable pub insert_by : A → List A → List A
  insert_by x [] = x ∷ []
  insert_by x (y ∷ ys) = let rest = insert_by x ys in if before x y then x ∷ y ∷ ys else y ∷ rest

  unfoldable pub sort_by : List A → List A
  sort_by [] = []
  sort_by (x ∷ xs) = insert_by x (sort_by xs)

-- The comparison of the functions: more implementations first, then by identity.
unfoldable pub before_method : FunctionSymbol → FunctionSymbol → Bool
before_method a b =
    if length a.implementations == length b.implementations
    then ltb a.symbol_id b.symbol_id
    else ltb (length b.implementations) (length a.implementations)

-- The comparison of the rows: more entries first, then by struct.
unfoldable pub before_row : StructRow → StructRow → Bool
before_row a b =
    if length a.entries == length b.entries
    then ltb a.struct_symbol_id b.struct_symbol_id
    else ltb (length b.entries) (length a.entries)

unfoldable pub find_symbol : ℕ → List (ℕ × ℕ) → Option ℕ
find_symbol id [] = none
find_symbol id ((k, v) ∷ map) = if k == id then some v else find_symbol id map

-- `symbol_to_interface_id[symbol_id] = col_id` in order; the last assignment counts.
unfoldable pub number_methods : ℕ → List FunctionSymbol → List (ℕ × ℕ) → List (ℕ × ℕ)
number_methods col_id [] map = map
number_methods col_id (fn ∷ fns) map =
    number_methods (suc col_id) fns ((fn.symbol_id, col_id) ∷ map)

-- `symbol_to_interface_id[symbol_id]`, 0 where there is none.
unfoldable pub interface_id : ℕ → List (ℕ × ℕ) → ℕ
interface_id id map = elim (find_symbol id map) [ some col_id ↦ col_id | none ↦ 0 ]

-- `struct_rows_map[struct_symbol_id].entries.emplace_back(col_id, func_idx)`
unfoldable pub add_to_row : ℕ → ℕ × ℕ → List StructRow → List StructRow
add_to_row id entry [] = record { struct_symbol_id = id; entries = entry ∷ [] } ∷ []
add_to_row id entry (row ∷ rows) =
    let rest = add_to_row id entry rows in
    if row.struct_symbol_id == id
    then record row { entries = row.entries ++ entry ∷ [] } ∷ rows
    else row ∷ rest

-- The loop over the implementations of a function.
unfoldable pub add_implementations :
    ℕ → List (ℕ × ℕ) → List (ℕ × ℕ) → List StructRow → List StructRow
add_implementations col_id funcs [] rows = rows
add_implementations col_id funcs ((struct_symbol_id, impl_symbol_id) ∷ impls) rows =
    add_implementations col_id funcs impls (elim (find_symbol impl_symbol_id funcs) [
      | none ↦ rows
      | some func_idx ↦ add_to_row struct_symbol_id (col_id, func_idx) rows
    ])

-- The loop over the functions.
unfoldable pub collect_rows :
    List (ℕ × ℕ) → List (ℕ × ℕ) → List FunctionSymbol → List StructRow → List StructRow
collect_rows ids funcs [] rows = rows
collect_rows ids funcs (fn ∷ fns) rows =
    collect_rows ids funcs fns
      (add_implementations (interface_id fn.symbol_id ids) funcs fn.implementations rows)

unfoldable pub number_rows : ℕ → List StructRow → List (ℕ × ℕ)
number_rows dense_id [] = []
number_rows dense_id (row ∷ rows) =
    (row.struct_symbol_id, dense_id) ∷ number_rows (suc dense_id) rows

-- The rows in their final order.
unfoldable pub sorted_rows : List FunctionSymbol → List (ℕ × ℕ) → List StructRow
sorted_rows fns funcs =
    let sorted_methods = sort_by before_method fns in
    sort_by before_row (collect_rows (number_methods 0 sorted_methods []) funcs sorted_methods [])

-- The table with the identities of interfaces' functions and of structs.
pub record DispatchIds : Type 0 where
  pub symbol_to_object_id : List (ℕ × ℕ)
  pub symbol_to_interface_id : List (ℕ × ℕ)

unfoldable pub build_dispatch_table :
    List FunctionSymbol → List (ℕ × ℕ) → Option (DispatchIds × VirtualDispatchResult)
build_dispatch_table fns funcs = do
  q ← pack_rows (sorted_rows fns funcs)
  some (
    record {
      symbol_to_object_id = number_rows 0 (sorted_rows fns funcs);
      symbol_to_interface_id = number_methods 0 (sort_by before_method fns) [];
    },
    q,
  )
