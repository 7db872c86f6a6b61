-- ===== src/Dispatch/Machine.antt =====
-- compiler/codegen/program_builder.cc, the section of the image that holds the dispatch table, and
-- src/vm.c, the selection of a function by `OP_CALL_VIRTUAL`.
use nib_lang.Base.{
  ℕ, zero, suc, ◌+◌, ◌-◌, ◌*◌, ◌/◌, ◌%◌, ◌≤◌, ◌<◌, ap, get_elem?, length-append, Bool, true, false,
  List, [], ◌∷◌, ◌++◌, Option, none, some, ◌≡◌, refl, ◌∙◌, inl, inr, arith, ◌==◌, if◌then◌else◌,
  ltb, length, get_or, take, Bool-cases, get_or-append_left, get_or-append_right, get_or-beyond,
  ltb→lt,
}
use nib_lang.Dispatch.{empty_slot, add32, StructRow, VirtualDispatchResult}
use nib_lang.Dispatch.Slots.{entry_of}
use nib_lang.Dispatch.Placed.{answer}
use nib_lang.Dispatch.Rows.{Sound, no_row, pack_rows, pack_rows-Loops}

-- `vm_prog_virtual_t`
pub record VirtualTable : Type 0 where
  pub dispatch_offset : ℕ
  pub dispatch_size : ℕ
  pub dispatch_table : List ℕ

-- The virtual section of an image: the size in its header, and what follows.
pub record VirtualSection : Type 0 where
  pub section_size : ℕ
  pub content : VirtualTable

-- Functions and owners, in turn.
unfoldable pub interleave : List ℕ → List ℕ → List ℕ
interleave (x ∷ xs) (y ∷ ys) = x ∷ y ∷ interleave xs ys
interleave xs ys = []

-- `sizeof(vm_prog_virtual_t)` and the words behind it, in bytes.
abbrev pub virtual_section_size : VirtualDispatchResult → ℕ
virtual_section_size r = 8 + length r.row_displacements * 4 + length r.dispatch_table * 4 * 2

-- The header's size is cast to 16 bits; `dispatch_offset` has 16 bits, `dispatch_size` 32.
unfoldable pub virtual_section : VirtualDispatchResult → VirtualSection
virtual_section r =
    let offset = length r.row_displacements % 65536 in
    record {
      section_size = virtual_section_size r % 65536;
      content = record {
        dispatch_offset = offset;
        dispatch_size = length r.dispatch_table * 2 % 4294967296;
        dispatch_table =
            take offset r.row_displacements ++ interleave r.dispatch_table r.slot_owners;
      };
    }

-- `init_vm` copies as many bytes as the header says: of the table, the words that lie wholly in
-- them. `none` where the copy has no room for the fields before the table.
unfoldable pub load_virtual : VirtualSection → Option VirtualTable
load_virtual s =
    if ltb s.section_size 8
    then none
    else some (record s.content {
      dispatch_table = take ((s.section_size - 8) / 4) s.content.dispatch_table;
    })

-- The end of a selection: a function, a failed assertion, or a read behind the copy.
pub data Selection : Type 0 where
  selected : ℕ → Selection
  refused outside : Selection

unfoldable pub read_table : VirtualTable → ℕ → (ℕ → Selection) → Selection
read_table vt i go_on = elim (get_elem? vt.dispatch_table i) [ none ↦ outside | some x ↦ go_on x ]

-- The two words at `dispatch_idx`: the function's index, and the owner's identity.
unfoldable pub select_entry : VirtualTable → ℕ → ℕ → Selection
unfolding read_table
select_entry vt object_id dispatch_idx =
    let entry = vt.dispatch_offset + dispatch_idx in
    if ltb (add32 dispatch_idx 1) vt.dispatch_size
    then read_table vt entry (λ fn_idx.
      read_table vt (entry + 1)
        (λ owner_id. if owner_id == object_id then selected fn_idx else refused))
    else refused

-- `OP_CALL_VIRTUAL` on an object of identity `object_id`: the index of the function.
unfoldable pub select : VirtualTable → ℕ → ℕ → Selection
unfolding read_table select_entry
select vt object_id id =
    if ltb object_id vt.dispatch_offset
    then read_table vt object_id
        (λ row_displacement. select_entry vt object_id (add32 row_displacement id * 2 % 4294967296))
    else refused

-- What a selection means where an assertion guards every entry that is missing.
abbrev pub selection_of : Option ℕ → Selection
selection_of none = refused
selection_of (some f) = selected f

interleave-get :
    (xs ys : List ℕ) (s d : ℕ)
    → length ys ≡ length xs
    → s < length xs
    → (get_or (interleave xs ys) (s * 2) 0 ≡ get_or xs s d)
      × (get_or (interleave xs ys) (s * 2 + 1) 0 ≡ get_or ys s d)
unfolding interleave
interleave-get [] ys s d e h = absurd (omega arith)
interleave-get (x ∷ xs) [] s d e h = absurd (omega arith)
interleave-get (x ∷ xs) (y ∷ ys) zero d e h = (refl, refl)
interleave-get (x ∷ xs) (y ∷ ys) (suc s) d e h =
    let even : suc s * 2 ≡ suc (suc (s * 2)) = omega arith in
    let odd : suc s * 2 + 1 ≡ suc (suc (s * 2 + 1)) = omega arith in
    let (f, o) = interleave-get xs ys s d (omega arith) (omega arith) in (rw even f, rw odd o)

take-all : (xs : List ℕ) → take (length xs) xs ≡ xs
take-all [] = refl
take-all (x ∷ xs) = rw (take-all xs)

length-interleave :
    (xs ys : List ℕ) → length ys ≡ length xs → length (interleave xs ys) ≡ length xs * 2
unfolding interleave
length-interleave [] ys e = refl
length-interleave (x ∷ xs) [] e = absurd (omega arith)
length-interleave (x ∷ xs) (y ∷ ys) e =
    let rest = length-interleave xs ys (omega arith) in omega arith

get_elem?-inside : (xs : List ℕ) (i : ℕ) → i < length xs → get_elem? xs i ≡ some (get_or xs i 0)
get_elem?-inside [] i h = absurd (omega arith)
get_elem?-inside (x ∷ xs) zero h = refl
get_elem?-inside (x ∷ xs) (suc i) h = get_elem?-inside xs i (omega arith)

read_table-inside :
    (vt : VirtualTable) (i : ℕ) (go_on : ℕ → Selection)
    → i < length vt.dispatch_table
    → read_table vt i go_on ≡ go_on (get_or vt.dispatch_table i 0)
unfolding read_table
read_table-inside vt i go_on h = rw (read_table, get_elem?-inside vt.dispatch_table i h) refl

-- The whole table, as the machine has it.
abbrev whole_table : VirtualDispatchResult → VirtualTable
whole_table r = record {
  dispatch_offset = length r.row_displacements;
  dispatch_size = length r.dispatch_table * 2;
  dispatch_table = r.row_displacements ++ interleave r.dispatch_table r.slot_owners;
}

-- A section whose size fits its header is loaded whole.
load-virtual_section :
    (r : VirtualDispatchResult)
    → length r.slot_owners ≡ length r.dispatch_table
    → virtual_section_size r < 65536
    → load_virtual (virtual_section r) ≡ some (whole_table r)
unfolding load_virtual virtual_section
load-virtual_section r e small =
    let words = interleave r.dispatch_table r.slot_owners in
    let off : length r.row_displacements % 65536 ≡ length r.row_displacements = omega arith in
    let size : length r.dispatch_table * 2 % 4294967296 ≡ length r.dispatch_table * 2 =
      omega arith in
    let fit : virtual_section_size r % 65536 ≡ virtual_section_size r = omega arith in
    let room : ltb (virtual_section_size r) 8 ≡ false = ground arith in
    let count : (virtual_section_size r - 8) / 4 ≡ length (r.row_displacements ++ words) = omega (
      arith,
      length-append r.row_displacements words,
      length-interleave r.dispatch_table r.slot_owners e,
    ) in
    rw (off, size, fit, room, take-all r.row_displacements, count)
      (rw (take-all (r.row_displacements ++ words)) refl)

if_selection :
    (b : Bool) (f : ℕ)
    → (if b then selected f else refused) ≡ selection_of (if b then some f else none)
if_selection true f = refl
if_selection false f = refl

-- The machine reads the table as the compiler means it.
select-answer :
    (r : VirtualDispatchResult) (i col : ℕ)
    → length r.slot_owners ≡ length r.dispatch_table
    → virtual_section_size r < 65536
    → i < length r.row_displacements
    → get_or r.row_displacements i 0 + col < 2147483648
    → select (whole_table r) i col ≡ selection_of (answer r i col)
unfolding select select_entry
select-answer r i col e small h b =
    let slot = add32 (get_or r.row_displacements i 0) col in
    let words = interleave r.dispatch_table r.slot_owners in
    let len : length (whole_table r).dispatch_table
        ≡ length r.row_displacements + length r.dispatch_table * 2 =
      omega (
        arith,
        length-append r.row_displacements words,
        length-interleave r.dispatch_table r.slot_owners e,
      ) in
    let row = get_or-append_left r.row_displacements words i 0 h in
    let inside : ltb i (length r.row_displacements) ≡ true = ground arith in
    let even : slot * 2 % 4294967296 ≡ slot * 2 = omega arith in
    let odd : add32 (slot * 2) 1 ≡ slot * 2 + 1 = omega arith in
    let at_row =
      read_table-inside (whole_table r) i
        (λ d. select_entry (whole_table r) i (add32 d col * 2 % 4294967296)) (omega arith) in
    elim (Bool-cases (ltb slot (length r.dispatch_table))) [
      | inl k ↦
          let lt = ltb→lt _ _ k in
          let (f, o) = interleave-get r.dispatch_table r.slot_owners slot empty_slot e lt in
          let fd =
            get_or-append_right r.row_displacements words (length r.row_displacements + slot * 2)
              (slot * 2) 0 refl in
          let od =
            get_or-append_right r.row_displacements words
              (length r.row_displacements + slot * 2 + 1) (slot * 2 + 1) 0 (omega arith) in
          let at_entry = λ (go_on : ℕ → Selection).
            read_table-inside (whole_table r) (length r.row_displacements + slot * 2) go_on
              (omega arith) in
          let at_owner = λ (go_on : ℕ → Selection).
            read_table-inside (whole_table r) (length r.row_displacements + slot * 2 + 1) go_on
              (omega arith) in
          let within : ltb (slot * 2 + 1) (length r.dispatch_table * 2) ≡ true = ground arith in
          rw (inside, at_row, row, even, odd, within, at_entry, at_owner, fd, f, od, o)
            (if_selection (get_or r.slot_owners slot empty_slot == i)
              (get_or r.dispatch_table slot empty_slot))
      | inr k ↦
          let out = get_or-beyond r.slot_owners slot empty_slot (ground arith) in
          let without : ltb (slot * 2 + 1) (length r.dispatch_table * 2) ≡ false = ground arith in
          let other : (empty_slot == i) ≡ false = ground arith in
          rw (inside, at_row, row, even, odd, without, out, other) refl
    ]

-- A virtual call on object `i` and column `col` selects the function that row `i` has there, and
-- fails an assertion where the row has no such column: the compiler's packed table, its section of
-- the image, the copy of that section by the machine and the reading of the copy taken together.
-- The columns are below `w`, no function index is the mark of an empty slot, and 8 bytes, 4 for each
-- row, and 8 for each of the rows and one more, times `w`, stay below 65536 bytes.
pub pack_rows-select :
    (w : ℕ) (rows : List StructRow)
    → Sound w rows
    → 1 ≤ w
    → 8 + length rows * 4 + suc (length rows) * w * 8 < 65536
    → (q : VirtualDispatchResult) × (vt : VirtualTable) × (pack_rows rows ≡ some q)
      × (load_virtual (virtual_section q) ≡ some vt)
      × ((i col : ℕ)
          → i < length rows
          → col < w
          → select vt i col ≡ selection_of (entry_of (get_or rows i no_row).entries col))
pack_rows-select w rows s one fit =
    let (q, e, p, len, a) = pack_rows-Loops w rows s one (omega arith) in
    let size = p.bound in
    let small : virtual_section_size q < 65536 = omega arith in
    (
      q,
      whole_table q,
      e,
      load-virtual_section q p.sizes small,
      λ i col h k.
          let shift = p.shifts i in
          select-answer q i col p.sizes small (omega arith) (omega arith)
          ∙ ap selection_of (a i col h k),
    )
