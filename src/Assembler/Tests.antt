-- ===== src/Assembler/Tests.antt =====
-- Runs of the assembler, and its theorems at concrete chains of calls.
use mathlib.Core.Option
use nib_lang.Base.{List, [], ◌∷◌, none, some, Bytes, true, ◌≡◌, refl, arith, read_word}
use nib_lang.Assembler.Opcodes.{op_code, op_jump_if_false, op_inc, op_of}
use nib_lang.Assembler.{Assembler, empty, push_op_and_args}
use nib_lang.Assembler.Emit.{
  Emit, push_local, patch_call, patch_new_object, label, jump, jump_if_false, push_bool, return_op,
  emit, emit_all,
}
use nib_lang.Assembler.Patch.{patch_all, put_word}
use nib_lang.Assembler.Build.{build}
use nib_lang.Assembler.Layout.{IsLaidOut, build_total}
use nib_lang.Assembler.Targets.{when_false, emit_all-IsLaidOut, jump-label}
use nib_lang.Assembler.Dump.{dump_byte_code}
use nib_lang.Assembler.Listing.{listing, heads}
use nib_lang.Assembler.Walk.{dump_byte_code-emit_all, dump_byte_code-increment}

run : Unit {0}
unfolding op_code op_of emit emit_all build patch_all put_word
run = tt

-- The shape of a `while` loop with a call and a new object in its body.
abbrev loop : List Emit
loop =
    label "start"
    ∷ push_bool true
    ∷ jump_if_false "end"
    ∷ patch_call 7 0
    ∷ patch_new_object 3 0
    ∷ jump "start"
    ∷ label "end"
    ∷ push_local 2
    ∷ return_op
    ∷ []

abbrev loop_buffer : Assembler
loop_buffer = record {
  bytes =
      3 ∷ 35 ∷ 0 ∷ 0 ∷ 0 ∷ 0 ∷ 11 ∷ 7 ∷ 0 ∷ 0 ∷ 0 ∷ 0 ∷ 0 ∷ 0 ∷ 0 ∷ 15 ∷ 3 ∷ 0 ∷ 0 ∷ 0 ∷ 0 ∷ 0 ∷ 0
      ∷ 0 ∷ 36 ∷ 0 ∷ 0 ∷ 0 ∷ 0 ∷ 7 ∷ 2 ∷ 0 ∷ 0 ∷ 0 ∷ 13 ∷ [];
  label_to_location = ("end", 29) ∷ ("start", 0) ∷ [];
  patch_locations = (2, "end") ∷ [];
  call_patch_locations = (7, 7) ∷ [];
  virtual_patch_locations = (3, 16) ∷ [];
  max_local_index = 2;
}

loop_emits : emit_all loop empty ≡ some loop_buffer
unfolding run
loop_emits = refl

abbrev loop_code : Bytes
loop_code =
    3 ∷ 35 ∷ 29 ∷ 0 ∷ 0 ∷ 0 ∷ 11 ∷ 1 ∷ 0 ∷ 0 ∷ 128 ∷ 0 ∷ 0 ∷ 0 ∷ 0 ∷ 15 ∷ 0 ∷ 0 ∷ 0 ∷ 0 ∷ 0 ∷ 0 ∷ 0
    ∷ 0 ∷ 36 ∷ 0 ∷ 0 ∷ 0 ∷ 0 ∷ 7 ∷ 2 ∷ 0 ∷ 0 ∷ 0 ∷ 13 ∷ []

loop_builds : build loop_buffer ((7, 0x80000001) ∷ []) ((3, 0) ∷ []) ≡ some (loop_code, 2)
unfolding run
loop_builds = refl

-- A label that is never defined aborts `Build`, and a second definition aborts at once.
undefined_label :
    build (record loop_buffer { label_to_location = [] }) ((7, 0) ∷ []) ((3, 0) ∷ []) ≡ none
unfolding run
undefined_label = refl

label_twice : emit_all (label "a" ∷ label "a" ∷ []) empty ≡ none
unfolding run
label_twice = refl

emit_all-IsLaidOut_example : IsLaidOut loop_buffer
emit_all-IsLaidOut_example = emit_all-IsLaidOut loop loop_emits (omega arith)

build_total_example : (r : Bytes) × (build loop_buffer ((7, 0) ∷ []) ((3, 0) ∷ []) ≡ some (r, 2))
build_total_example =
    build_total loop_buffer ((7, 0) ∷ []) ((3, 0) ∷ []) (record {
      labels = ((29, refl), tt);
      call_idx = ((0, refl), tt);
      object_ids = ((0, refl), tt);
    })

-- The forward jump to "end".
jump-label_example : read_word loop_code 2 ≡ 29
unfolding run
jump-label_example =
    jump-label (label "start" ∷ push_bool true ∷ [])
      (patch_call 7 0
        ∷ patch_new_object 3 0
        ∷ jump "start"
        ∷ label "end"
        ∷ push_local 2
        ∷ return_op
        ∷ [])
      (label "start"
        ∷ push_bool true
        ∷ jump_if_false "end"
        ∷ patch_call 7 0
        ∷ patch_new_object 3 0
        ∷ jump "start"
        ∷ [])
      (push_local 2 ∷ return_op ∷ []) (jump_if_false "end") op_jump_if_false "end" _ loop_buffer _
      ((7, 0x80000001) ∷ []) ((3, 0) ∷ []) loop_code 2 (when_false "end") refl refl refl refl
      loop_builds (omega arith)

dump_byte_code-emit_all_example :
    Option.map heads (dump_byte_code loop_buffer.bytes) ≡ some (listing loop 0)
dump_byte_code-emit_all_example = dump_byte_code-emit_all loop loop_buffer loop_emits (omega arith)

dump_byte_code-increment_example : dump_byte_code (24 ∷ 5 ∷ 0 ∷ 0 ∷ 0 ∷ []) ≡ none
unfolding run
dump_byte_code-increment_example =
    dump_byte_code-increment 5 (push_op_and_args empty op_inc (5 ∷ [])) (omega arith) refl
