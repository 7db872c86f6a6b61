-- ===== src/Vm/Safety/Loop.antt =====
-- The loop of `run_frame`, from the entry point on, touches no freed cell.
use nib_lang.Vm.Safety.Values.{Alive, text_at-Post}
use nib_lang.Base.{
  ℕ, zero, suc, ◌+◌, Bool, true, false, [], ◌∷◌, refl, arith, All, ltb, ◌==◌, length, replicate,
  List,
}
use nib_lang.Vm.{
  Value, null_value, Bytecode, Machine, Function, bytecode_function, native_function, Program,
  str_value,
}
use nib_lang.Vm.Faults.{
  ok, fault, assertion, ◌>>=◌, Post, returns, stops, Post-bind, Post-check, Post-defined,
  native_call,
}
use nib_lang.Vm.Counts.{refs}
use nib_lang.Vm.Numbers.{Floats, text_at}
use nib_lang.Vm.Stack.{pop_stack, heap_of}
use nib_lang.Vm.Calls.{dispatch, handle_exception}
use nib_lang.Vm.Step.{
  Outcome, running, stopped, fetch, resume, step, run_frame, enter, vm_run, exception_message,
}
use nib_lang.Vm.Safety.{Sound, with_refs}
use nib_lang.Vm.Safety.Primitive.{pop_stack-Popped}
use nib_lang.Vm.Safety.Calls.{NativeSound, dispatch-Sound, function_at-Post, refs-replicate}
use nib_lang.Vm.Safety.Run.{IsCounted, Counted, fetch-Counted}

-- What `vm_run` ends with: the references of the machine are covered, and so is the value that it
-- hands out.
abbrev pub HandsOut : Program → Value × Outcome → Type 0
HandsOut p (v, running m) = IsCounted p m
HandsOut p (v, stopped m) = Sound (with_refs (v ∷ []) (λ a. refs a p.constants)) m

exception_message-Post :
    (m : Machine) → Alive m.store.exception (heap_of m) → Post (λ _. Unit) (exception_message m)
unfolding exception_message
exception_message-Post m alive = at_value m.store.exception alive
  where
    at_value :
        (v : Value)
        → Alive v (heap_of m)
        → Post (λ _. Unit) (elim v [ str_value a ↦ text_at (heap_of m) a | _ ↦ ok [] ])
    at_value (str_value a) known = text_at-Post (heap_of m) a known
    at_value _ known = returns tt

module _ (fl : Floats) (p : Program) (natives : All NativeSound p.functions) where
  resume-Counted :
      (m : Machine) (handled : Bool) (n : Machine)
      → IsCounted p n
      → Post (Counted p) (resume fl p m (handled, n))
  unfolding resume exception_message
  resume-Counted m false n k =
      Post-bind (exception_message-Post n (λ a. let covered = k a in omega arith)) λ _ _. returns k
  resume-Counted m true n k =
      Post-bind (Post-defined (length n.frames == length m.frames))
        λ _ _. fetch-Counted fl p natives n k

  step-Counted : (m : Machine) → IsCounted p m → Post (Counted p) (step fl p m)
  unfolding step handle_exception
  step-Counted m k = at_flag m.store.unhandled_exception
    where
      at_flag :
          (unhandled : Bool)
          → Post (Counted p) (elim unhandled [
            | false ↦ fetch fl p m
            | true ↦ dispatch m.frames m >>= resume fl p m
          ])
      at_flag false = fetch-Counted fl p natives m k
      at_flag true =
          Post-bind (dispatch-Sound (λ a. refs a p.constants) m.frames m refl k)
            λ (handled, n) k₁. resume-Counted m handled n k₁

  run_frame-Counted : (n : ℕ) (m : Machine) → IsCounted p m → Post (Counted p) (run_frame n fl p m)
  unfolding run_frame
  run_frame-Counted zero m k = returns k
  run_frame-Counted (suc n) m k =
      Post-bind (step-Counted m k) λ o k₁. at_outcome o k₁ (run_frame-Counted n)
    where
      at_outcome :
          (o : Outcome)
          → Counted p o
          → ((m' : Machine) → IsCounted p m' → Post (Counted p) (run_frame n fl p m'))
          → Post
              (Counted p)
              (elim o [ running m' ↦ run_frame n fl p m' | stopped m' ↦ ok (stopped m') ])
      at_outcome (running m') k₁ rec = rec m' k₁
      at_outcome (stopped m') k₁ rec = returns k₁

  enter-Counted : (idx : ℕ) (m : Machine) → IsCounted p m → Post (IsCounted p) (enter p idx m)
  unfolding enter
  enter-Counted idx m k =
      Post-bind (Post-check (ltb (p.native_functions_count + idx) (length p.functions))) λ _ _.
        Post-bind (function_at-Post (p.native_functions_count + idx) p) λ fn _. at_function fn
    where
      entered : Bytecode → Machine
      entered code = record m {
        frames =
            record {
              code = code;
              pc = 0;
              try_catch_handlers = [];
              locals = replicate code.local_count null_value;
            }
            ∷ [];
      }

      at_function :
          (fn : Function)
          → Post (IsCounted p) (elim fn [
            | native_function argc f ↦ fault assertion
            | bytecode_function argc code ↦ ok (entered code)
          ])
      at_function (native_function argc f) = stops tt
      at_function (bytecode_function argc code) =
          returns
            (λ a. let before = k a in let nulls = refs-replicate a code.local_count in omega arith)

  -- Of native functions that touch no freed cell, and leave the references of others counted.
  vm_run-Safe :
      (n entry_point_idx : ℕ) (m : Machine)
      → IsCounted p m
      → Post (HandsOut p) (vm_run n fl p entry_point_idx m)
  unfolding vm_run
  vm_run-Safe n entry_point_idx m k =
      Post-bind (enter-Counted entry_point_idx m k)
        λ m₁ k₁. Post-bind (run_frame-Counted n m₁ k₁) λ o k₂. at_outcome o k₂
    where
      at_outcome :
          (o : Outcome)
          → Counted p o
          → Post (HandsOut p) (elim o [
            | running m₂ ↦ ok (null_value, running m₂)
            | stopped m₂ ↦ pop_stack m₂ >>= λ (v, m₃). ok (v, stopped m₃)
          ])
      at_outcome (running m₂) k₂ = returns k₂
      at_outcome (stopped m₂) k₂ =
          Post-bind (pop_stack-Popped (λ a. refs a p.constants) m₂ k₂) λ (v, m₃) k₃. returns k₃

-- A native function that the model does not follow.
abbrev unfollowed : Function → Function
unfollowed (native_function argc fn) = native_function argc (λ args s. fault native_call)
unfollowed (bytecode_function argc code) = bytecode_function argc code

abbrev unfollowed_all : List Function → List Function
unfollowed_all [] = []
unfollowed_all (f ∷ fs) = unfollowed f ∷ unfollowed_all fs

-- The program whose runs stop at a call of a native function.
abbrev pub until_native : Program → Program
until_native p = record p { functions = unfollowed_all p.functions }

unfollowed_all-NativeSound : (fs : List Function) → All NativeSound (unfollowed_all fs)
unfollowed_all-NativeSound [] = tt
unfollowed_all-NativeSound (native_function argc fn ∷ fs) =
    (λ outer args s k. stops tt, unfollowed_all-NativeSound fs)
unfollowed_all-NativeSound (bytecode_function argc code ∷ fs) = (tt, unfollowed_all-NativeSound fs)

-- The first thing that goes wrong in a run is never a touch of a cell that its deleter has freed.
-- From a machine whose counts cover the references there are, through any number of turns of the
-- loop and whatever the bytecode, deleters included, `vm_run` goes on or returns, with counts that
-- cover the references, the value that it returns among them; or it stops, without such a touch
-- before, at the first failed assertion, operation that C leaves undefined, count that would pass 32
-- bits, bound closure that is called with too few arguments, or call of a native function. What the
-- code does from there on is not part of the statement.
pub vm_run-HandsOut :
    (fl : Floats) (p : Program) (n entry_point_idx : ℕ) (m : Machine)
    → IsCounted p m
    → Post (HandsOut p) (vm_run n fl (until_native p) entry_point_idx m)
vm_run-HandsOut fl p n entry_point_idx m k =
    vm_run-Safe fl (until_native p) (unfollowed_all-NativeSound p.functions) n entry_point_idx m k
