-- ===== src/Dispatch/Columns.antt =====
-- The columns and the function indices of the rows that `BuildDispatchTable` of
-- compiler/codegen/virtual_dispatch.cc collects.
use mathlib.Core.Path.{subst}
use nib_lang.Base.{
  ℕ, suc, ◌+◌, ◌<◌, ◌≤◌, Bool, true, false, List, [], ◌∷◌, some, ◌≡◌, ◌≢◌, refl, ap, ◌∙◌, arith,
  inl, inr, ◌==◌, if◌then◌else◌, length, All, All-append, Bool-cases, Option-cases,
}
use nib_lang.Dispatch.{empty_slot, StructRow}
use nib_lang.Dispatch.Slots.{Below}
use nib_lang.Dispatch.Placed.{Marked}
use nib_lang.Dispatch.Rows.{Sound}
use nib_lang.Dispatch.Methods.{
  FunctionSymbol, insert_by, sort_by, before_method, before_row, find_symbol, number_methods,
  interface_id, add_to_row, add_implementations, collect_rows, sorted_rows,
}

module _ {ℓ κ} {A : Type ℓ} (P : A → Type κ) (before : A → A → Bool) where
  insert_by-All : (x : A) (xs : List A) → P x → All P xs → All P (insert_by before x xs)
  unfolding insert_by
  insert_by-All x [] p a = (p, tt)
  insert_by-All x (y ∷ ys) p (q, a) = elim (Bool-cases (before x y)) [
    | inl e ↦ rw (e, insert_by) (p, (q, a))
    | inr e ↦ rw (e, insert_by) (q, insert_by-All x ys p a)
  ]

  pub sort_by-All : (xs : List A) → All P xs → All P (sort_by before xs)
  unfolding sort_by
  sort_by-All [] a = tt
  sort_by-All (x ∷ xs) (p, a) = insert_by-All x (sort_by before xs) p (sort_by-All xs a)

module _ {ℓ} {A : Type ℓ} (before : A → A → Bool) where
  length-insert_by : (x : A) (xs : List A) → length (insert_by before x xs) ≡ suc (length xs)
  unfolding insert_by
  length-insert_by x [] = refl
  length-insert_by x (y ∷ ys) = elim (Bool-cases (before x y)) [
    | inl e ↦ rw (e, insert_by) refl
    | inr e ↦ rw (e, insert_by) (ap suc (length-insert_by x ys))
  ]

  length-sort_by : (xs : List A) → length (sort_by before xs) ≡ length xs
  unfolding sort_by
  length-sort_by [] = refl
  length-sort_by (x ∷ xs) = length-insert_by x (sort_by before xs) ∙ ap suc (length-sort_by xs)

-- The values of a map satisfy `P`.
abbrev Values : (ℕ → Type 0) → List (ℕ × ℕ) → Type 0
Values P map = All (λ (e : ℕ × ℕ). P e.1) map

found-value :
    (P : ℕ → Type 0) (id v : ℕ) (map : List (ℕ × ℕ))
    → Values P map
    → find_symbol id map ≡ some v
    → P v
unfolding find_symbol
found-value P id v [] a h = cc
found-value P id v ((k, w) ∷ map) (p, a) h = go (k == id) h (found-value P id v map a)
  where
    go :
        (b : Bool)
        → (if b then some w else find_symbol id map) ≡ some v
        → (find_symbol id map ≡ some v → P v)
        → P v
    go true e rec = let same : w ≡ v = cc in subst P same p
    go false e rec = rec e

numbered :
    (w n : ℕ) (fns : List FunctionSymbol) (map : List (ℕ × ℕ))
    → n + length fns ≤ w
    → Values (λ v. v < w) map
    → Values (λ v. v < w) (number_methods n fns map)
unfolding number_methods
numbered w n [] map h a = a
numbered w n (fn ∷ fns) map h a =
    numbered w (suc n) fns ((fn.symbol_id, n) ∷ map) (omega arith) (omega arith, a)

interface_id-below :
    (w id : ℕ) (map : List (ℕ × ℕ)) → 1 ≤ w → Values (λ v. v < w) map → interface_id id map < w
unfolding interface_id
interface_id-below w id map h a = elim (Option-cases (find_symbol id map)) [
  | inl e ↦ rw (e, interface_id) h
  | inr (v, e) ↦ rw (e, interface_id) (found-value (λ v. v < w) id v map a e)
]

add_to_row-Sound :
    (w id col func : ℕ) (rows : List StructRow)
    → col < w
    → func ≢ empty_slot
    → Sound w rows
    → Sound w (add_to_row id (col, func) rows)
unfolding add_to_row
add_to_row-Sound w id col func [] h k a = (((h, tt), (k, tt)), tt)
add_to_row-Sound w id col func (row ∷ rows) h k ((b, m), a) =
    elim (Bool-cases (row.struct_symbol_id == id)) [
      | inl e ↦
          rw (e, add_to_row)
            (
              (
                All-append (λ (x : ℕ × ℕ). x.0 < w) row.entries ((col, func) ∷ []) b (h, tt),
                All-append (λ (x : ℕ × ℕ). x.1 ≢ empty_slot) row.entries ((col, func) ∷ []) m
                    (k, tt),
              ),
              a,
            )
      | inr e ↦ rw (e, add_to_row) ((b, m), add_to_row-Sound w id col func rows h k a)
    ]

-- No index of a function is the mark of an empty slot.
abbrev pub Unmarked : List (ℕ × ℕ) → Type 0
Unmarked funcs = Values (λ v. v ≢ empty_slot) funcs

add_implementations-Sound :
    (w col : ℕ) (funcs impls : List (ℕ × ℕ)) (rows : List StructRow)
    → col < w
    → Unmarked funcs
    → Sound w rows
    → Sound w (add_implementations col funcs impls rows)
unfolding add_implementations
add_implementations-Sound w col funcs [] rows h u a = a
add_implementations-Sound w col funcs ((id, impl) ∷ impls) rows h u a =
    elim (Option-cases (find_symbol impl funcs)) [
      | inl e ↦ rw (e, add_implementations) (add_implementations-Sound w col funcs impls rows h u a)
      | inr (f, e) ↦
          rw (e, add_implementations)
            (add_implementations-Sound w col funcs impls (add_to_row id (col, f) rows) h u (
              add_to_row-Sound w id col f rows h
                (found-value (λ v. v ≢ empty_slot) impl f funcs u e) a))
    ]

collect_rows-Sound :
    (w : ℕ) (ids funcs : List (ℕ × ℕ)) (fns : List FunctionSymbol) (rows : List StructRow)
    → 1 ≤ w
    → Values (λ v. v < w) ids
    → Unmarked funcs
    → Sound w rows
    → Sound w (collect_rows ids funcs fns rows)
unfolding collect_rows
collect_rows-Sound w ids funcs [] rows h v u a = a
collect_rows-Sound w ids funcs (fn ∷ fns) rows h v u a =
    collect_rows-Sound w ids funcs fns _ h v u (
      add_implementations-Sound w (interface_id fn.symbol_id ids) funcs fn.implementations rows
        (interface_id-below w fn.symbol_id ids h v) u a)

pub sorted_rows-Sound :
    (fns : List FunctionSymbol) (funcs : List (ℕ × ℕ))
    → Unmarked funcs
    → Sound (suc (length fns)) (sorted_rows fns funcs)
unfolding sorted_rows
sorted_rows-Sound fns funcs u =
    let methods = sort_by before_method fns in
    let len = length-sort_by before_method fns in
    let ids = number_methods 0 methods [] in
    sort_by-All (λ (row : StructRow). Below (suc (length fns)) row.entries × Marked row.entries)
      before_row _
      (collect_rows-Sound (suc (length fns)) ids funcs methods [] (omega arith)
        (numbered (suc (length fns)) 0 methods [] (omega arith) tt) u tt)
