-- ===== src/Vm/Safety/Ops.antt =====
-- The operations behind the opcodes keep the counts a cover and touch no freed cell.
use nib_lang.Base.{
  ℕ, ◌+◌, ◌%◌, Bool, true, false, List, [], ◌∷◌, ◌++◌, refl, arith, All, ltb, leb, ◌==◌, length,
}
use nib_lang.Dispatch.Machine.{Selection, selected, refused, outside, select}
use nib_lang.Vm.{
  Value, bool_value, str_value, object_value, text, elements, live, raw_type, Machine, Program,
}
use nib_lang.Vm.Faults.{
  Result, ok, fault, assertion, Post, returns, stops, Post-bind, Post-check, Post-defined,
  undefined,
}
use nib_lang.Vm.Heap.{rc_increment, allocate}
use nib_lang.Vm.Release.{rc_decrement_all-Covers}
use nib_lang.Vm.Allocation.{allocate-Covers, increment_ref-allocate}
use nib_lang.Vm.Stack.{stack_capacity, heap_of, with_heap, push_stack, modify_frame, advance, jump}
use nib_lang.Vm.Execute.{
  binary_op, concat, call, dynamic_call, object_id, call_virtual, bind, new_obj, is_type, jump_if,
}
use nib_lang.Vm.Safety.{machine_refs, Sound, with_refs}
use nib_lang.Vm.Safety.Primitive.{
  place-Sound, push_plain-Sound, pop_stack-Popped, pop_args-Taken, drop_value-Sound, advance-Sound,
  jump-Sound, leak-Sound,
}
use nib_lang.Vm.Safety.Calls.{
  NativeSound, patch_function_idx-Post, function_at-Sound, vm_invoke-Sound, vm_invoke_closure-Sound,
  closure_at-Held, bind_to_function-Sound,
}
use nib_lang.Vm.Safety.Values.{Alive, Plain, text_of-Post}

-- The result of `OP_CONCAT`, a string to which nothing refers yet.
push_text-Sound :
    (outer : ℕ → ℕ) (s : List ℕ) (m : Machine)
    → Sound outer m
    → Post (Sound outer) (
        push_stack
          (str_value (length (heap_of m)))
          (with_heap (heap_of m ++ live 0 (text s) ∷ []) m))
unfolding push_stack rc_increment
push_text-Sound outer s m k =
    let fresh =
      allocate-Covers 1 (text s) (λ a. outer a + machine_refs a m) (heap_of m)
        (λ a. let before = k a in omega arith) in
    let after : Sound outer (record m {
      stack = str_value (length (heap_of m)) ∷ m.stack;
      store = record m.store { heap = heap_of m ++ live 1 (text s) ∷ [] };
    }) =
      λ a. let counted = fresh a in omega arith in
    Post-bind (Post-check (ltb (length m.stack) stack_capacity))
      λ _ _. rw (increment_ref-allocate (text s) (heap_of m)) (returns after)

object_id-Post : (args : List Value) → Post (λ _. Unit) (object_id args)
unfolding object_id
object_id-Post [] = stops tt
object_id-Post (v ∷ args) = returns tt

selected-Post :
    (s : Selection)
    → Post
        (λ _. Unit)
        (elim s [ selected i ↦ ok i | refused ↦ fault assertion | outside ↦ fault undefined ])
selected-Post (selected i) = returns tt
selected-Post refused = stops tt
selected-Post outside = stops tt

module _ (outer : ℕ → ℕ) where
  -- What an operation finds in the two values that it pops.
  abbrev Two : Machine → Value → Value → Type 0
  Two m v₁ v₂ = Sound (with_refs (v₁ ∷ []) (with_refs (v₂ ∷ []) outer)) m

  pub binary_op-Sound :
      (compute : Machine → Value → Value → Result Value) (m : Machine)
      → ((n : Machine) (v₁ v₂ : Value)
          → Alive v₁ (heap_of n)
          → Alive v₂ (heap_of n)
          → Post Plain (compute n v₁ v₂))
      → Sound outer m
      → Post (Sound outer) (binary_op compute m)
  unfolding binary_op
  binary_op-Sound compute m plain k = Post-bind (pop_stack-Popped outer m k) λ (v₂, m₁) k₁.
      Post-bind (pop_stack-Popped (with_refs (v₂ ∷ []) outer) m₁ k₁) λ (v₁, m₂) k₂.
        let alive₁ : Alive v₁ (heap_of m₂) = λ a. let before = k₂ a in omega arith in
        let alive₂ : Alive v₂ (heap_of m₂) = λ a. let before = k₂ a in omega arith in
        let left = leak-Sound outer (v₁ ∷ v₂ ∷ []) m₂ (λ a. let before = k₂ a in omega arith) in
        Post-bind (plain m₂ v₁ v₂ alive₁ alive₂) λ v no_ref.
          Post-bind (push_plain-Sound outer v m₂ no_ref left)
            λ n k₃. returns (advance-Sound outer 1 n k₃)

  pub is_type-Sound : (type : ℕ) (m : Machine) → Sound outer m → Post (Sound outer) (is_type type m)
  unfolding is_type
  is_type-Sound type m k = Post-bind (pop_stack-Popped outer m k) λ (v, m₁) k₁.
      Post-bind
        (push_plain-Sound (with_refs (v ∷ []) outer) (bool_value (raw_type v == type)) m₁ refl k₁)
        λ m₂ k₂.
          Post-bind (drop_value-Sound outer v m₂ k₂) λ n k₃. returns (advance-Sound outer 2 n k₃)

  pub concat-Sound : (m : Machine) → Sound outer m → Post (Sound outer) (concat m)
  unfolding concat allocate
  concat-Sound m k = Post-bind (pop_stack-Popped outer m k) λ (v₂, m₁) k₁.
      Post-bind (pop_stack-Popped (with_refs (v₂ ∷ []) outer) m₁ k₁) λ (v₁, m₂) k₂.
        Post-bind (text_of-Post v₁ m₂ (λ a. let before = k₂ a in omega arith)) λ s₁ _.
          Post-bind (text_of-Post v₂ m₂ (λ a. let before = k₂ a in omega arith)) λ s₂ _.
            Post-bind
              (push_text-Sound (with_refs (v₁ ∷ v₂ ∷ []) outer) (s₁ ++ s₂) m₂
                (λ a. let before = k₂ a in omega arith))
              λ m₃ k₃.
                Post-bind
                  (drop_value-Sound (with_refs (v₂ ∷ []) outer) v₁ m₃
                    (λ a. let before = k₃ a in omega arith))
                  λ m₄ k₄.
                    Post-bind (drop_value-Sound outer v₂ m₄ k₄)
                      λ n k₅. returns (advance-Sound outer 1 n k₅)

  pub new_obj-Sound :
      (id argc : ℕ) (m : Machine) → Sound outer m → Post (Sound outer) (new_obj id argc m)
  unfolding new_obj allocate
  new_obj-Sound id argc m k = Post-bind (pop_args-Taken outer argc m k) λ (args, m₁) k₁.
      let fresh =
        allocate-Covers 1 (elements args) (λ a. outer a + machine_refs a m₁) (heap_of m₁)
          (λ a. let before = k₁ a in omega arith) in
      let h = heap_of m₁ ++ live 1 (elements args) ∷ [] in
      Post-bind
        (place-Sound outer (object_value (id % 2147483648) (length (heap_of m₁))) (with_heap h m₁)
          (λ a. let after = fresh a in omega arith))
        λ n k₂. returns (advance-Sound outer 9 n k₂)

  pub jump_if-Sound :
      (wanted : Bool) (address : ℕ) (m : Machine)
      → Sound outer m
      → Post (Sound outer) (jump_if wanted address m)
  unfolding jump_if
  jump_if-Sound wanted address m k =
      Post-bind (pop_stack-Popped outer m k)
        λ (v, n) k₁. at_condition v n (leak-Sound outer (v ∷ []) n k₁)
    where
      either :
          (b : Bool) (n : Machine)
          → Sound outer n
          → Sound outer (elim b [ true ↦ jump address n | false ↦ advance 5 n ])
      either true n k₁ = jump-Sound outer address n k₁
      either false n k₁ = advance-Sound outer 5 n k₁

      other :
          (b : Bool) (n : Machine)
          → Sound outer n
          → Sound outer (elim b [ true ↦ advance 5 n | false ↦ jump address n ])
      other true n k₁ = advance-Sound outer 5 n k₁
      other false n k₁ = jump-Sound outer address n k₁

      at_condition :
          (v : Value) (n : Machine)
          → Sound outer n
          → Post (Sound outer) (elim v [
            | bool_value b ↦ ok (elim b [
              | true ↦ elim wanted [ true ↦ jump address n | false ↦ advance 5 n ]
              | false ↦ elim wanted [ true ↦ advance 5 n | false ↦ jump address n ]
            ])
            | _ ↦ fault assertion
          ])
      at_condition (bool_value true) n k₁ = returns (either wanted n k₁)
      at_condition (bool_value false) n k₁ = returns (other wanted n k₁)
      at_condition _ n k₁ = stops tt

  pub call-Sound :
      (p : Program) (func_idx argc : ℕ) (m : Machine)
      → All NativeSound p.functions
      → Sound outer m
      → Post (Sound outer) (call p func_idx argc m)
  unfolding call
  call-Sound p func_idx argc m natives k = Post-bind (patch_function_idx-Post func_idx p) λ idx _.
      Post-bind (Post-check (ltb (idx % 4294967296) (length p.functions))) λ _ _.
        Post-bind (function_at-Sound (idx % 4294967296) p natives) λ fn native.
          Post-bind (pop_args-Taken outer argc m k) λ (args, n) k₁.
            vm_invoke-Sound outer fn args (advance 9 n) native
              (advance-Sound (with_refs args outer) 9 n k₁)

  pub call_virtual-Sound :
      (p : Program) (id argc : ℕ) (m : Machine)
      → All NativeSound p.functions
      → Sound outer m
      → Post (Sound outer) (call_virtual p id argc m)
  unfolding call_virtual
  call_virtual-Sound p id argc m natives k =
      Post-bind (pop_args-Taken outer argc m k) λ (args, n) k₁.
        Post-bind (object_id-Post args) λ object _.
          Post-bind (selected-Post (select p.virtual_table object id)) λ func_idx _.
            Post-bind (patch_function_idx-Post func_idx p) λ idx _.
              Post-bind (function_at-Sound (idx % 4294967296) p natives) λ fn native.
                vm_invoke-Sound outer fn args (advance 9 n) native
                  (advance-Sound (with_refs args outer) 9 n k₁)

  pub dynamic_call-Sound :
      (p : Program) (argc : ℕ) (m : Machine)
      → All NativeSound p.functions
      → Sound outer m
      → Post (Sound outer) (dynamic_call p argc m)
  unfolding dynamic_call modify_frame
  dynamic_call-Sound p argc m natives k = Post-bind (Post-check (leb argc (length m.stack))) λ _ _.
      Post-bind (pop_stack-Popped outer m k) λ (fn, m₁) k₁.
        Post-bind (Post-check (raw_type fn == 7)) λ _ _.
          Post-bind (Post-defined (leb argc (length m₁.stack))) λ _ _.
            Post-bind (pop_args-Taken (with_refs (fn ∷ []) outer) argc m₁ k₁) λ (args, m₂) k₂.
              Post-bind
                (closure_at-Held fn (with_refs args outer) m₂
                  (λ a. let before = k₂ a in omega arith))
                λ (fn_idx, bound) held.
                  Post-bind
                    (vm_invoke_closure-Sound (with_refs (fn ∷ []) outer) p fn_idx bound args
                      (advance 5 m₂) natives held
                      (advance-Sound (with_refs args (with_refs (fn ∷ []) outer)) 5 m₂ k₂))
                    λ m₃ k₃. drop_value-Sound outer fn m₃ k₃

  pub bind-Sound :
      (p : Program) (idx argc : ℕ) (m : Machine)
      → Sound outer m
      → Post (Sound outer) (bind p idx argc m)
  unfolding bind
  bind-Sound p idx argc m k = Post-bind (Post-defined (leb argc (length m.stack))) λ _ _.
      Post-bind (pop_args-Taken outer argc m k) λ (args, m₁) k₁.
        Post-bind (bind_to_function-Sound outer idx args p m₁ k₁) λ (fn, m₂) k₂.
          let (h, e, k₃) =
            rc_decrement_all-Covers args (λ a. with_refs (fn ∷ []) outer a + machine_refs a m₂)
              (heap_of m₂) (λ a. let before = k₂ a in omega arith) in
          rw e (
            Post-bind (place-Sound outer fn (with_heap h m₂) (λ a. let after = k₃ a in omega arith))
              λ n k₄. returns (advance-Sound outer 9 n k₄))
