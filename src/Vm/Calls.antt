-- ===== src/Vm/Calls.antt =====
-- Frames: calls, returns, closures and the dispatch of exceptions, in src/vm.c.
use nib_lang.Base.{
  ℕ, ◌+◌, ◌-◌, ◌%◌, Bool, true, false, not, ◌||◌, List, [], ◌∷◌, ◌++◌, none, some, ltb, leb,
  if◌then◌else◌, length, get_elem?, replicate,
}
use nib_lang.Vm.{
  Value, null_value, function_value, closure, text, elements, freed, live, Frame, Machine, Function,
  bytecode_function, native_function, Program,
}
use nib_lang.Vm.Faults.{
  Result, ok, fault, ◌>>=◌, assertion, undefined, use_after_free, check, defined, on_stack,
}
use nib_lang.Vm.Heap.{cell_at, rc_increment_all, rc_decrement_all, allocate}
use nib_lang.Vm.Stack.{heap_of, with_heap, place, push_stack}

unfoldable pub patch_function_idx : ℕ → Program → Result ℕ
patch_function_idx func_idx p =
    let is_builtin = leb 2147483648 func_idx in
    let idx = func_idx % 2147483648 in
    do
      _ ← check (not is_builtin || ltb idx p.native_functions_count)
      ok (idx + (if is_builtin then 0 else p.native_functions_count))

-- `vm->functions[idx]`
unfoldable pub function_at : ℕ → Program → Result Function
function_at idx p = elim (get_elem? p.functions idx) [ none ↦ fault undefined | some f ↦ ok f ]

abbrev pub argument_count : Function → ℕ
argument_count (bytecode_function n code) = n
argument_count (native_function n fn) = n

unfoldable pub exit_current_frame : Machine → Result Machine
exit_current_frame m = elim (m.frames) [
  | [] ↦ fault undefined
  | f ∷ fs ↦ do
    h ← rc_decrement_all f.locals (heap_of m)
    ok (with_heap h (record m { frames = fs }))
]

-- The frames from the current one out, of which those without a handler are left for good.
unfoldable pub dispatch : List Frame → Machine → Result (Bool × Machine)
dispatch [] m = ok (false, record m { frames = [] })
dispatch (f ∷ fs) m =
    let rest = λ (n : Machine). dispatch fs n in
    elim (f.try_catch_handlers) [
      | [] ↦ do
        h ← rc_decrement_all f.locals (heap_of m)
        rest (with_heap h (record m { frames = fs }))
      | (catch_label, finally_label) ∷ handlers ↦ do
        n ← push_stack m.store.exception (record m {
          frames = record f { pc = catch_label; try_catch_handlers = handlers } ∷ fs;
        })
        ok (true, record n { store = record n.store { unhandled_exception = false } })
    ]

unfoldable pub handle_exception : Machine → Result (Bool × Machine)
unfolding dispatch
handle_exception m = dispatch m.frames m

unfoldable pub vm_invoke : Function → List Value → Machine → Result Machine
vm_invoke (bytecode_function argc code) args m = do
  _ ← check (leb argc (length args))
  _ ← check (leb (length args) code.local_count)
  let frame : Frame = record {
    code = code;
    pc = 0;
    try_catch_handlers = [];
    locals = args ++ replicate (code.local_count - length args) null_value;
  }
  ok (record m { frames = frame ∷ m.frames })
vm_invoke (native_function argc fn) args m = do
  _ ← check (leb argc (length args))
  (v, store) ← fn args m.store
  place v (record m { store = store })

-- A closure with bound arguments copies as many of the arguments as its function still needs, or
-- all, whichever is more, behind them. More arguments than that overrun the storage. With fewer, the
-- code goes on with the values that are left above the top of the stack, which the model does not
-- keep: it stops there.
unfoldable pub vm_invoke_closure : Program → ℕ → List Value → List Value → Machine → Result Machine
vm_invoke_closure p fn_idx [] args m = do fn ← function_at fn_idx p; vm_invoke fn args m
vm_invoke_closure p fn_idx (b ∷ bound) args m = do
  fn ← function_at fn_idx p
  _ ← defined (leb (length args) (argument_count fn - length (b ∷ bound)))
  _ ← on_stack (leb (argument_count fn - length (b ∷ bound)) (length args))
  h ← rc_increment_all (b ∷ bound) (heap_of m)
  vm_invoke fn (b ∷ bound ++ args) (with_heap h m)

-- The closure behind a value that is called.
unfoldable pub closure_at : Value → Machine → Result (ℕ × List Value)
closure_at (function_value a) m = elim (cell_at (heap_of m) a) [
  | freed ↦ fault use_after_free
  | live n (closure fn bound) ↦ ok (fn, bound)
  | live n (text s) ↦ fault undefined
  | live n (elements vs) ↦ fault undefined
]
closure_at _ m = fault assertion

unfoldable pub bind_to_function : ℕ → List Value → Program → Machine → Result (Value × Machine)
bind_to_function idx args p m = do
  fn_idx ← patch_function_idx idx p
  fn ← function_at fn_idx p
  _ ← check (leb (length args) (argument_count fn))
  let (a, h) = allocate 1 (closure fn_idx args) (heap_of m)
  h' ← rc_increment_all args h
  ok (function_value a, with_heap h' m)
