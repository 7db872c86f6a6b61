-- ===== src/Dispatch.antt =====
-- compiler/codegen/virtual_dispatch.h and compiler/codegen/virtual_dispatch.cc: the table through
-- which a virtual call finds its function, packed so that the rows of the structs share slots.
pub mod Slots
pub mod Placed
pub mod Rows
pub mod Machine
pub mod Methods
pub mod Columns
pub mod Provided
mod Tests
use nib_lang.Base.{
  ℕ, zero, suc, ◌+◌, ◌-◌, ◌%◌, max, Bool, true, false, not, ◌&&◌, List, [], ◌∷◌, ◌++◌, Option, none,
  some, ◌==◌, if◌then◌else◌, ltb, leb, length, get_or, set, replicate, ◌>>=◌,
}

-- `EMPTY_SLOT`, the greatest `uint32_t`.
abbrev pub empty_slot : ℕ
empty_slot = 4294967295

-- Addition of two `uint32_t`.
abbrev pub add32 : ℕ → ℕ → ℕ
add32 a b = (a + b) % 4294967296

-- Columns with the functions that stand there.
abbrev pub Entries : Type 0
Entries = List (ℕ × ℕ)

pub record StructRow : Type 0 where
  pub struct_symbol_id : ℕ
  pub entries : Entries

pub record VirtualDispatchResult : Type 0 where
  pub row_displacements : List ℕ
  pub dispatch_table : List ℕ
  pub slot_owners : List ℕ

-- The slot is in the table and not empty.
unfoldable pub occupied : List ℕ → ℕ → Bool
occupied table slot = ltb slot (length table) && not (get_or table slot empty_slot == empty_slot)

-- No column of the row falls on an occupied slot.
unfoldable pub fits : List ℕ → ℕ → Entries → Bool
fits table shift [] = true
fits table shift ((col_id, func_idx) ∷ es) = elim (occupied table (add32 shift col_id)) [
  | true ↦ false
  | false ↦ fits table shift es
]

-- The loop over `shift`, on fuel.
unfoldable pub find_shift : ℕ → List ℕ → Entries → ℕ → Option ℕ
find_shift zero table es shift = none
find_shift (suc f) table es shift = elim (fits table shift es) [
  | true ↦ some shift
  | false ↦ find_shift f table es (add32 shift 1)
]

unfoldable pub max_slot : ℕ → Entries → ℕ → ℕ
max_slot shift [] m = m
max_slot shift ((col_id, func_idx) ∷ es) m = max_slot shift es (max m (add32 shift col_id))

-- `resize(slot + 1, EMPTY_SLOT)` where the table does not reach `slot`.
unfoldable pub grow : List ℕ → ℕ → List ℕ
grow table slot = table ++ replicate (suc slot - length table) empty_slot

-- The loop that writes the row of object `object_id`.
unfoldable pub write_entries : ℕ → ℕ → Entries → List ℕ × List ℕ → List ℕ × List ℕ
write_entries shift object_id [] (table, owners) = (table, owners)
write_entries shift object_id ((col_id, func_idx) ∷ es) (table, owners) =
    write_entries shift object_id es
      (set table (add32 shift col_id) func_idx, set owners (add32 shift col_id) object_id)

-- What a round of the loop over the rows does behind the search for the shift.
unfoldable pub place_at : ℕ → ℕ → Entries → VirtualDispatchResult → VirtualDispatchResult
place_at shift object_id es r =
    let last = max_slot shift es 0 in
    let slots =
      write_entries shift object_id es (grow r.dispatch_table last, grow r.slot_owners last) in
    record {
      row_displacements = set r.row_displacements object_id shift;
      dispatch_table = slots.0;
      slot_owners = slots.1;
    }

-- One round of the loop over the rows, with one round of fuel more than there are slots.
unfoldable pub place_row : ℕ → Entries → VirtualDispatchResult → Option VirtualDispatchResult
place_row object_id es r = do
  shift ← find_shift (suc (length r.dispatch_table)) r.dispatch_table es 0
  some (place_at shift object_id es r)

-- The loop over the sorted rows.
unfoldable pub place_rows :
    ℕ → List StructRow → VirtualDispatchResult → Option VirtualDispatchResult
place_rows object_id [] r = some r
place_rows object_id (row ∷ rows) r = do
  s ← place_row object_id row.entries r
  place_rows (suc object_id) rows s
