-- ===== src/Dispatch/Provided.antt =====
-- The functions that `BuildDispatchTable` of compiler/codegen/virtual_dispatch.cc puts in its table.
use nib_lang.Base.{ℕ, List, [], ◌∷◌, some, ◌≡◌, ◌⊎◌, All}
use nib_lang.Dispatch.{StructRow}
use nib_lang.Dispatch.Methods.{
  FunctionSymbol, sort_by, before_method, find_symbol, number_methods, interface_id,
}

-- `P` holds of an element.
abbrev pub Any {ℓ} : {A : Type ℓ} → (A → Type 0) → List A → Type 0
Any P [] = ⊥
Any P (x ∷ xs) = P x ⊎ Any P xs

-- The function `fn` has column `col`, and its implementation for the struct is function `f`.
abbrev pub Provides : List (ℕ × ℕ) → List (ℕ × ℕ) → ℕ → ℕ → ℕ → FunctionSymbol → Type 0
Provides ids funcs struct_id col f fn =
    (interface_id fn.symbol_id ids ≡ col)
    × Any (λ (e : ℕ × ℕ). (e.0 ≡ struct_id) × (find_symbol e.1 funcs ≡ some f)) fn.implementations

-- What the collection of rows puts into a row keeps to `G`.
module _ (G : ℕ → ℕ → ℕ → Type 0) where
  abbrev RowFrom : StructRow → Type 0
  RowFrom row = All (λ (e : ℕ × ℕ). G row.struct_symbol_id e.0 e.1) row.entries

  -- Every known implementation of the list keeps to `G`.
  abbrev Allowed : ℕ → List (ℕ × ℕ) → List (ℕ × ℕ) → Type 0
  Allowed col funcs impls =
      All (λ (e : ℕ × ℕ). (f : ℕ) → find_symbol e.1 funcs ≡ some f → G e.0 col f) impls

-- The columns of the functions of interfaces.
abbrev columns : List FunctionSymbol → List (ℕ × ℕ)
columns fns = number_methods 0 (sort_by before_method fns) []

-- A struct's entry comes from an implementation that one of the functions names.
abbrev From : List FunctionSymbol → List (ℕ × ℕ) → ℕ → ℕ → ℕ → Type 0
From fns funcs id col f = Any (Provides (columns fns) funcs id col f) fns
