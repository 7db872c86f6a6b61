-- ===== src/Assembler.antt =====
-- compiler/codegen/assembler.h and compiler/codegen/assembler.cc: the bytecode buffer of one
-- function. Opcodes are those of src/types.h. `std::map` and `std::unordered_map` are association
-- lists; a label is its text.
pub mod Opcodes
pub mod Emit
pub mod Patch
pub mod Build
pub mod Layout
pub mod Windows
pub mod Jumps
pub mod Targets
pub mod Dump
pub mod Listing
pub mod Walk
mod Tests
use Prim.Native.String.{String}
use text.Mathlib.Text.{◌==◌ as str_eq}
use nib_lang.Base.{
  ℕ, ◌+◌, max, Bool, List, [], ◌∷◌, ◌++◌, Option, none, some, ltb, ◌==◌, if◌then◌else◌, length, set,
  Bytes, byte, word_bytes,
}
use Opcodes.{Op, op_code}

pub record Assembler : Type 0 where
  pub bytes : Bytes
  pub label_to_location : List (String × ℕ)
  pub patch_locations : List (ℕ × String)
  pub call_patch_locations : List (ℕ × ℕ)
  pub virtual_patch_locations : List (ℕ × ℕ)
  pub max_local_index : ℕ

abbrev pub empty : Assembler
empty = record {
  bytes = [];
  label_to_location = [];
  patch_locations = [];
  call_patch_locations = [];
  virtual_patch_locations = [];
  max_local_index = 0;
}

-- `size_t offset() const`
abbrev pub offset : Assembler → ℕ
offset a = length a.bytes

-- The little-endian arguments behind an opcode.
abbrev pub arg_bytes : List ℕ → Bytes
arg_bytes [] = []
arg_bytes (x ∷ xs) = word_bytes x ++ arg_bytes xs

abbrev pub push_bytes : Assembler → Bytes → Assembler
push_bytes a bs = record a { bytes = a.bytes ++ bs }

abbrev pub push_op_and_args : Assembler → Op → List ℕ → Assembler
push_op_and_args a op args = push_bytes a (op_code op ∷ arg_bytes args)

-- `data_.push_back(op)`
abbrev pub push_op : Assembler → Op → Assembler
push_op a op = push_bytes a (op_code op ∷ [])

abbrev pub find_label : String → List (String × ℕ) → Option ℕ
find_label l [] = none
find_label l ((k, v) ∷ m) = if str_eq k l then some v else find_label l m

abbrev pub find_idx : ℕ → List (ℕ × ℕ) → Option ℕ
find_idx i [] = none
find_idx i ((k, v) ∷ m) = if k == i then some v else find_idx i m

-- `patch_locations[value_idx] = label` of an ordered map.
abbrev pub put_patch : ℕ → String → List (ℕ × String) → List (ℕ × String)
put_patch k v [] = (k, v) ∷ []
put_patch k v ((j, w) ∷ m) =
    if ltb k j then (k, v) ∷ (j, w) ∷ m else if k == j then (k, v) ∷ m else (j, w) ∷ put_patch k v m
