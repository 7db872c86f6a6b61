-- ===== src/Vm.antt =====
-- src/types.h, src/vm.h and src/vm.c: the machine that runs an image, its values and its heap.
pub mod Faults
pub mod Heap
pub mod Counts
pub mod Release
pub mod Allocation
pub mod Numbers
pub mod Bounds
pub mod Division
pub mod Stack
pub mod Calls
pub mod Execute
pub mod Decode
pub mod Step
pub mod Safety
pub mod Exceptions
mod Tests
use nib_lang.Base.{ℕ, ◌+◌, Bool, List, [], Option, none, some, ℤ, Bytes}
use nib_lang.Dispatch.Machine.{VirtualTable}
use Faults.{Result}

-- `vm_value_t`. A `float` is its 32 bits; a reference is the address of its cell; an object has
-- the identity of its struct besides.
pub data Value : Type 0 where
  null_value unit_value : Value
  bool_value : Bool → Value
  int_value : ℤ → Value
  float_value : ℕ → Value
  str_value map_value function_value promise_value array_value : ℕ → Value
  object_value : ℕ → ℕ → Value

-- `type.raw`, as an unsigned number.
unfoldable pub raw_type : Value → ℕ
raw_type null_value = 0
raw_type unit_value = 1
raw_type (bool_value b) = 2
raw_type (int_value i) = 3
raw_type (float_value f) = 4
raw_type (str_value a) = 5
raw_type (map_value a) = 6
raw_type (function_value a) = 7
raw_type (promise_value a) = 8
raw_type (array_value a) = 9
raw_type (object_value id a) = 2147483648 + id

-- The cell behind a value that `rc_increment` and `rc_decrement` count.
abbrev pub ref_of : Value → Option ℕ
ref_of (str_value a) = some a
ref_of (map_value a) = some a
ref_of (function_value a) = some a
ref_of (promise_value a) = some a
ref_of (array_value a) = some a
ref_of (object_value id a) = some a
ref_of null_value = none
ref_of unit_value = none
ref_of (bool_value b) = none
ref_of (int_value i) = none
ref_of (float_value f) = none

-- What a cell holds behind its `ref_count_t`: the text of a string; the function and the bound
-- arguments of a closure; the values that the deleter of an array, an object, a map or a promise
-- gives up, in its order.
pub data Content : Type 0 where
  text : Bytes → Content
  closure : ℕ → List Value → Content
  elements : List Value → Content

-- The values that the deleter gives up.
abbrev pub held_values : Content → List Value
held_values (text s) = []
held_values (closure fn bound) = bound
held_values (elements vs) = vs

pub data Cell : Type 0 where
  freed : Cell
  live : ℕ → Content → Cell

abbrev pub Heap : Type 0
Heap = List Cell

-- `vm_bytecode_t`
pub record Bytecode : Type 0 where
  pub data_bytes : Bytes
  pub local_count : ℕ

-- `vm_frame_t`, with its `vm_try_catch_entry_t` as pairs of the two labels.
pub record Frame : Type 0 where
  pub code : Bytecode
  pub pc : ℕ
  pub try_catch_handlers : List (ℕ × ℕ)
  pub locals : List Value

-- What a native function sees of the machine.
pub record Store : Type 0 where
  pub heap : Heap
  pub exception : Value
  pub unhandled_exception : Bool

-- `vm_t`, the part that a run changes. The stack has its top first, the frames the current one.
pub record Machine : Type 0 where
  pub stack : List Value
  pub frames : List Frame
  pub store : Store

-- `vm_function_t`
pub data Function : Type 0 where
  bytecode_function : ℕ → Bytecode → Function
  native_function : ℕ → (List Value → Store → Result (Value × Store)) → Function

-- `vm_t`, the part that the image fixes.
pub record Program : Type 0 where
  pub constants : List Value
  pub functions : List Function
  pub native_functions_count : ℕ
  pub virtual_table : VirtualTable
