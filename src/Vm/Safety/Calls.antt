-- ===== src/Vm/Safety/Calls.antt =====
-- Calls, returns and the dispatch of exceptions keep the counts a cover.
use nib_lang.Base.{
  ℕ, zero, suc, ◌+◌, ◌*◌, ◌-◌, ◌≤◌, ◌%◌, not, ◌||◌, List, [], ◌∷◌, ◌++◌, Option, none, some, ◌≡◌,
  refl, arith, All, ltb, leb, length, get_elem?, replicate,
}
use nib_lang.Vm.{
  Value, null_value, ref_of, function_value, text, closure, elements, Cell, freed, live, Frame,
  Store, Machine, Function, bytecode_function, native_function, Program,
}
use nib_lang.Vm.Faults.{
  ok, fault, undefined, use_after_free, Post, returns, stops, Post-bind, Post-check, Post-defined,
  Post-on_stack,
}
use nib_lang.Vm.Heap.{cell_at, allocate}
use nib_lang.Vm.Counts.{Covers, cell_refs-le, points_self, refs, refs-append, points_to, heap_refs}
use nib_lang.Vm.Allocation.{allocate-Covers, allocate-count}
use nib_lang.Vm.Release.{rc_decrement_all-Covers}
use nib_lang.Vm.Stack.{heap_of, with_heap}
use nib_lang.Vm.Calls.{
  patch_function_idx, function_at, argument_count, exit_current_frame, dispatch, vm_invoke,
  vm_invoke_closure, closure_at, bind_to_function,
}
use nib_lang.Vm.Safety.{frame_refs, machine_refs, Sound, with_refs}
use nib_lang.Vm.Safety.Primitive.{place-Sound, push_stack-Sound, rc_increment_all-Counted}

-- The references that a store of the machine has of its own.
abbrev pub StoreSound : (ℕ → ℕ) → Store → Type 0
StoreSound outer s = Covers (λ a. outer a + points_to a (ref_of s.exception)) s.heap

-- A native function owns its arguments and hands out its result: it touches no freed cell, and the
-- references of others stay counted.
abbrev pub NativeSound : Function → Type 0
NativeSound (bytecode_function argc code) = Unit
NativeSound (native_function argc fn) =
    (outer : ℕ → ℕ) (args : List Value) (s : Store)
    → StoreSound (with_refs args outer) s
    → Post (λ (v, t). StoreSound (with_refs (v ∷ []) outer) t) (fn args s)

pub refs-replicate : (a n : ℕ) → refs a (replicate n null_value) ≡ 0
refs-replicate a zero = refl
refs-replicate a (suc n) = let rest = refs-replicate a n in omega arith

pub function_at-Sound :
    (idx : ℕ) (p : Program) → All NativeSound p.functions → Post NativeSound (function_at idx p)
unfolding function_at
function_at-Sound idx p natives = at_list p.functions idx natives
  where
    at_list :
        (fs : List Function) (i : ℕ)
        → All NativeSound fs
        → Post NativeSound (elim (get_elem? fs i) [ none ↦ fault undefined | some f ↦ ok f ])
    at_list [] i all = stops tt
    at_list (f ∷ fs) zero all = returns all.0
    at_list (f ∷ fs) (suc i) all = at_list fs i all.1

-- The bound arguments of a closure are held by its cell.
pub closure_at-Held :
    (v : Value) (outer : ℕ → ℕ) (m : Machine)
    → Sound (with_refs (v ∷ []) outer) m
    → Post (λ (fn, bound). (a : ℕ) → refs a bound ≤ heap_refs a (heap_of m)) (closure_at v m)
unfolding closure_at
closure_at-Held (function_value i) outer m k = at_cell (cell_at (heap_of m) i) refl
  where
    at_cell :
        (c : Cell)
        → cell_at (heap_of m) i ≡ c
        → Post
            (λ (fn, bound). (a : ℕ) → refs a bound ≤ heap_refs a (heap_of m))
            (elim c [
              | freed ↦ fault use_after_free
              | live n (closure fn bound) ↦ ok (fn, bound)
              | live n (text s) ↦ fault undefined
              | live n (elements vs) ↦ fault undefined
            ])
    at_cell freed e =
        let self = points_self i in let counted = rw e at (k i) in absurd (omega arith)
    at_cell (live n (closure fn bound)) e =
        returns (λ a. let held = rw e at (cell_refs-le a i (heap_of m)) in omega arith)
    at_cell (live n (text s)) e = stops tt
    at_cell (live n (elements vs)) e = stops tt
closure_at-Held _ outer m k = stops tt

pub patch_function_idx-Post : (idx : ℕ) (p : Program) → Post (λ _. Unit) (patch_function_idx idx p)
unfolding patch_function_idx
patch_function_idx-Post idx p =
    let is_builtin = leb 2147483648 idx in
    let first = idx % 2147483648 in
    Post-bind (Post-check (not is_builtin || ltb first p.native_functions_count)) λ _ _. returns tt

pub function_at-Post : (idx : ℕ) (p : Program) → Post (λ _. Unit) (function_at idx p)
unfolding function_at
function_at-Post idx p = at_option (get_elem? p.functions idx)
  where
    at_option :
        (o : Option Function) → Post (λ _. Unit) (elim o [ none ↦ fault undefined | some f ↦ ok f ])
    at_option none = stops tt
    at_option (some f) = returns tt

module _ (outer : ℕ → ℕ) where
  pub exit_current_frame-Sound :
      (m : Machine) → Sound outer m → Post (Sound outer) (exit_current_frame m)
  unfolding exit_current_frame
  exit_current_frame-Sound m k = at_frames m.frames refl
    where
      at_frames : (fs : List Frame) → m.frames ≡ fs → Post (Sound outer) (exit_current_frame m)
      at_frames [] e = rw (e, exit_current_frame) (stops tt)
      at_frames (f ∷ fs) e =
          let (h, r, k₁) =
            rc_decrement_all-Covers f.locals
              (λ a. outer a + machine_refs a (record m { frames = fs })) (heap_of m)
              (λ a. let before = rw e at (k a) in omega arith) in
          rw (e, exit_current_frame, r) (returns k₁)

  -- The exception stays one of the machine's references.
  pub dispatch-Sound :
      (fs : List Frame) (m : Machine)
      → m.frames ≡ fs
      → Sound outer m
      → Post (λ (handled, n). Sound outer n) (dispatch fs m)
  unfolding dispatch
  dispatch-Sound [] m e k =
      let after : Sound outer (record m { frames = [] }) = λ a. let before = k a in omega arith in
      returns after
  dispatch-Sound (f ∷ fs) m e k = at_handlers f.try_catch_handlers refl (dispatch-Sound fs)
    where
      at_handlers :
          (hs : List (ℕ × ℕ))
          → f.try_catch_handlers ≡ hs
          → ((n : Machine)
              → n.frames ≡ fs
              → Sound outer n
              → Post (λ (handled, n'). Sound outer n') (dispatch fs n))
          → Post (λ (handled, n). Sound outer n) (dispatch (f ∷ fs) m)
      at_handlers [] h rec =
          let (heap, r, k₁) =
            rc_decrement_all-Covers f.locals
              (λ a. outer a + machine_refs a (record m { frames = fs })) (heap_of m)
              (λ a. let before = rw e at (k a) in omega arith) in
          rw (h, dispatch, r) (rec (with_heap heap (record m { frames = fs })) refl k₁)
      at_handlers ((catch_label, finally_label) ∷ handlers) h rec =
          let there = record m {
            frames = record f { pc = catch_label; try_catch_handlers = handlers } ∷ fs;
          } in
          let k₁ : Sound outer there = λ a. let before = rw e at (k a) in omega arith in
          rw (h, dispatch)
            (Post-bind (push_stack-Sound outer m.store.exception there (λ a. omega arith) k₁)
              λ n k₂. returns k₂)

  pub vm_invoke-Sound :
      (fn : Function) (args : List Value) (m : Machine)
      → NativeSound fn
      → Sound (with_refs args outer) m
      → Post (Sound outer) (vm_invoke fn args m)
  unfolding vm_invoke
  vm_invoke-Sound (bytecode_function argc code) args m native k =
      let locals = args ++ replicate (code.local_count - length args) null_value in
      let frame : Frame = record {
        code = code;
        pc = 0;
        try_catch_handlers = [];
        locals = locals;
      } in
      let after : Sound outer (record m { frames = frame ∷ m.frames }) = λ a.
        let before = k a in
        let split = refs-append a args (replicate (code.local_count - length args) null_value) in
        let nulls = refs-replicate a (code.local_count - length args) in omega arith in
      Post-bind (Post-check (leb argc (length args)))
        λ _ _. Post-bind (Post-check (leb (length args) code.local_count)) λ _ _. returns after
  vm_invoke-Sound (native_function argc fn) args m native k =
      let own : ℕ → ℕ = λ a. outer a + (refs a m.stack + frame_refs a m.frames) in
      let result = native own args m.store (λ a. let before = k a in omega arith) in
      Post-bind (Post-check (leb argc (length args))) λ _ _. Post-bind result λ (v, store) k₁.
        place-Sound outer v (record m { store = store }) (λ a. let after = k₁ a in omega arith)

  pub vm_invoke_closure-Sound :
      (p : Program) (fn_idx : ℕ) (bound args : List Value) (m : Machine)
      → All NativeSound p.functions
      → ((a : ℕ) → refs a bound ≤ heap_refs a (heap_of m))
      → Sound (with_refs args outer) m
      → Post (Sound outer) (vm_invoke_closure p fn_idx bound args m)
  unfolding vm_invoke_closure
  vm_invoke_closure-Sound p fn_idx [] args m natives held k =
      Post-bind (function_at-Sound fn_idx p natives) λ fn native. vm_invoke-Sound fn args m native k
  vm_invoke_closure-Sound p fn_idx (b ∷ bound) args m natives held k =
      Post-bind (function_at-Sound fn_idx p natives) λ fn native.
        Post-bind (Post-defined (leb (length args) (argument_count fn - length (b ∷ bound)))) λ _ _.
          Post-bind (Post-on_stack (leb (argument_count fn - length (b ∷ bound)) (length args)))
            λ _ _.
              Post-bind
                (rc_increment_all-Counted (b ∷ bound)
                  (λ a. with_refs args outer a + machine_refs a m) (heap_of m)
                  (λ a. let in_heap = held a in let before = k a in omega arith) k)
                λ h k₁.
                  vm_invoke-Sound fn (b ∷ bound ++ args) (with_heap h m) native
                    (λ a. let after = k₁ a in let both = refs-append a bound args in omega arith)

  -- The closure is a reference of the operation, beside its arguments.
  pub bind_to_function-Sound :
      (idx : ℕ) (args : List Value) (p : Program) (m : Machine)
      → Sound (with_refs args outer) m
      → Post (λ (v, n). Sound (with_refs (v ∷ args) outer) n) (bind_to_function idx args p m)
  unfolding bind_to_function allocate
  bind_to_function-Sound idx args p m k = Post-bind (patch_function_idx-Post idx p) λ fn_idx _.
      Post-bind (function_at-Post fn_idx p) λ fn _.
        Post-bind (Post-check (leb (length args) (argument_count fn))) λ _ _.
          let h = heap_of m ++ live 1 (closure fn_idx args) ∷ [] in
          let fresh =
            allocate-Covers 1 (closure fn_idx args) (λ a. outer a + machine_refs a m) (heap_of m)
              (λ a. let before = k a in omega arith) in
          let counted =
            rc_increment_all-Counted args
              (λ a. points_to a (some (length (heap_of m))) * 1 + (outer a + machine_refs a m)) h
              (λ a.
                let before = k a in
                let grows = allocate-count 1 (closure fn_idx args) (heap_of m) a in omega arith)
              fresh in
          Post-bind counted λ h' k₁.
            let after : Sound (with_refs (function_value (length (heap_of m)) ∷ args) outer)
                (with_heap h' m) =
              λ a. let after = k₁ a in omega arith in
            returns after
