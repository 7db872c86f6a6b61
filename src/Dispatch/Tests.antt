-- ===== src/Dispatch/Tests.antt =====
-- The dispatch table's theorems at concrete rows.
use nib_lang.Base.{ℕ, ◌<◌, List, [], ◌∷◌, Option, none, some, ◌≡◌, refl, arith, length, get_or}
use nib_lang.Dispatch.{
  StructRow, VirtualDispatchResult, occupied, fits, find_shift, max_slot, grow, write_entries,
  place_at, place_row, place_rows,
}
use nib_lang.Dispatch.Slots.{entry_of}
use nib_lang.Dispatch.Placed.{answer}
use nib_lang.Dispatch.Rows.{Sound, no_row, pack_rows, pack_rows-answer}
use nib_lang.Dispatch.Machine.{
  VirtualTable, virtual_section, load_virtual, select, selection_of, pack_rows-select,
}
use mathlib.Core.Option
use nib_lang.Dispatch.Methods.{FunctionSymbol}

-- Three structs: the second row moves by one slot, the third fills the hole before it.
abbrev rows : List StructRow
rows =
    record { struct_symbol_id = 7; entries = (0, 10) ∷ (2, 11) ∷ [] }
    ∷ record { struct_symbol_id = 8; entries = (0, 12) ∷ (2, 13) ∷ [] }
    ∷ record { struct_symbol_id = 9; entries = (1, 14) ∷ [] }
    ∷ []

abbrev displacements : Option VirtualDispatchResult → List ℕ
displacements none = []
displacements (some r) = r.row_displacements

packed : displacements (pack_rows rows) ≡ 0 ∷ 1 ∷ 3 ∷ []
unfolding pack_rows place_rows place_row place_at find_shift fits occupied max_slot grow
    write_entries
packed = refl

sound : Sound 3 rows
sound = (
  ((omega arith, (omega arith, tt)), (λ e. omega arith, (λ e. omega arith, tt))),
  (
    ((omega arith, (omega arith, tt)), (λ e. omega arith, (λ e. omega arith, tt))),
    (((omega arith, tt), (λ e. omega arith, tt)), tt),
  ),
)

pack_rows-answer_example :
    (q : VirtualDispatchResult) × (pack_rows rows ≡ some q)
    × ((i col : ℕ)
        → i < length rows
        → col < 3
        → answer q i col ≡ entry_of (get_or rows i no_row).entries col)
pack_rows-answer_example = pack_rows-answer 3 rows sound (omega arith) (omega arith)

pack_rows-select_example :
    (q : VirtualDispatchResult) × (vt : VirtualTable) × (pack_rows rows ≡ some q)
    × (load_virtual (virtual_section q) ≡ some vt)
    × ((i col : ℕ)
        → i < length rows
        → col < 3
        → select vt i col ≡ selection_of (entry_of (get_or rows i no_row).entries col))
pack_rows-select_example = pack_rows-select 3 rows sound (omega arith) (omega arith)

-- A section of 65544 bytes has 8 for its size in the header: no word of its table is loaded.
cut_off :
    Option.map VirtualTable.dispatch_table (
      load_virtual (record {
        section_size = 8;
        content = record { dispatch_offset = 1; dispatch_size = 16382; dispatch_table = 0 ∷ [] };
      }))
    ≡ some []
unfolding load_virtual
cut_off = refl

-- Two functions of interfaces; the second has two implementations and comes first.
abbrev methods : List FunctionSymbol
methods =
    record { symbol_id = 1; implementations = (7, 21) ∷ [] }
    ∷ record { symbol_id = 2; implementations = (7, 22) ∷ (8, 23) ∷ [] }
    ∷ []

abbrev functions : List (ℕ × ℕ)
functions = (21, 0) ∷ (22, 1) ∷ (23, 2) ∷ []

abbrev collected : List StructRow
collected =
    record { struct_symbol_id = 7; entries = (0, 1) ∷ (1, 0) ∷ [] }
    ∷ record { struct_symbol_id = 8; entries = (0, 2) ∷ [] }
    ∷ []
