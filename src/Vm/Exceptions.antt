-- ===== src/Vm/Exceptions.antt =====
-- Where an exception goes: `handle_exception` of src/vm.c.
use nib_lang.Base.{
  ℕ, suc, ◌+◌, ◌≤◌, ◌<◌, Bool, true, false, List, [], ◌∷◌, Option, none, some, ◌≡◌, refl, ◌⊎◌, inl,
  inr, arith, ltb, length, set, Bool-cases, ◌==◌, ◌++◌, ◌∙◌,
}
use nib_lang.Vm.{Value, ref_of, Cell, freed, live, Heap, Frame, Machine, Program}
use nib_lang.Vm.Faults.{Result, ok, fault, count_overflow, undefined, ◌>>=◌}
use nib_lang.Vm.Heap.{
  cell_at, rc_increment, increment_ref, increment_cell, rc_decrement_all, rc_decrement,
}
use nib_lang.Vm.Counts.{count_of, points_to, points_self}
use nib_lang.Vm.Release.{rc_decrement_all-Covers}
use nib_lang.Vm.Stack.{stack_capacity, heap_of, with_heap, push_stack}
use nib_lang.Vm.Calls.{dispatch, handle_exception}
use nib_lang.Vm.Numbers.{Floats}
use nib_lang.Vm.Step.{resume, step}
use nib_lang.Vm.Safety.{machine_refs, Sound}

-- The frames from the innermost one that has a handler, which starts its catch block there and has
-- this handler no more.
unfoldable pub nearest : List Frame → Option (List Frame)
nearest [] = none
nearest (f ∷ fs) = elim (f.try_catch_handlers) [
  | [] ↦ nearest fs
  | (catch_label, finally_label) ∷ handlers ↦
      some (record f { pc = catch_label; try_catch_handlers = handlers } ∷ fs)
]

-- The locals of the frames that are left, from the innermost one out.
unfoldable pub left_locals : List Frame → List Value
left_locals [] = []
left_locals (f ∷ fs) = elim (f.try_catch_handlers) [ [] ↦ f.locals ++ left_locals fs | _ ∷ _ ↦ [] ]

-- The end of the search from machine `m`, where the frames that are left have the locals `vs`: these
-- are released, and nothing else but the count of the exception that is pushed changes in the heap.
pub data Lands (m : Machine) (vs : List Value)
    : Option (List Frame) → Result (Bool × Machine) → Type 0 where
  unhandled :
      (h : Heap)
      → rc_decrement_all vs m.store.heap ≡ ok h
      → Lands m vs none (ok (false, with_heap h (record m { frames = [] })))
  caught :
      (h₁ h : Heap) (gs : List Frame)
      → rc_decrement_all vs m.store.heap ≡ ok h₁
      → rc_increment m.store.exception h₁ ≡ ok h
      → Lands m vs (some gs) (
          ok (
            true,
            record {
              stack = m.store.exception ∷ m.stack;
              frames = gs;
              store = record {
                heap = h;
                exception = m.store.exception;
                unhandled_exception = false;
              };
            },
          ))
  too_many :
      (h₁ : Heap) (gs : List Frame)
      → rc_decrement_all vs m.store.heap ≡ ok h₁
      → rc_increment m.store.exception h₁ ≡ fault count_overflow
      → Lands m vs (some gs) (fault count_overflow)

rc_decrement_all-append :
    (xs ys : List Value) (h : Heap)
    → rc_decrement_all (xs ++ ys) h ≡ (rc_decrement_all xs h >>= rc_decrement_all ys)
unfolding rc_decrement_all
rc_decrement_all-append [] ys h = refl
rc_decrement_all-append (v ∷ xs) ys h = at_first (rc_decrement v h) (rc_decrement_all-append xs ys)
  where
    at_first :
        (r : Result Heap)
        → ((g : Heap)
            → rc_decrement_all (xs ++ ys) g ≡ (rc_decrement_all xs g >>= rc_decrement_all ys))
        → (r >>= rc_decrement_all (xs ++ ys))
          ≡ ((r >>= rc_decrement_all xs) >>= rc_decrement_all ys)
    at_first (ok g) rest = rest g
    at_first (fault e) rest = refl

released_before :
    (xs ys : List Value) (h g : Heap)
    → rc_decrement_all xs h ≡ ok g
    → rc_decrement_all (xs ++ ys) h ≡ rc_decrement_all ys g
released_before xs ys h g r = rc_decrement_all-append xs ys h ∙ rw r refl

-- The search goes on from a frame that is left.
Lands-outwards :
    (m : Machine) (xs ys : List Value) (g : Heap) (fs : List Frame) {o : Option (List Frame)}
    {r : Result (Bool × Machine)}
    → rc_decrement_all xs m.store.heap ≡ ok g
    → Lands (with_heap g (record m { frames = fs })) ys o r
    → Lands m (xs ++ ys) o r
Lands-outwards m xs ys g fs e (unhandled h p) =
    unhandled h (released_before xs ys m.store.heap g e ∙ p)
Lands-outwards m xs ys g fs e (caught h₁ h gs p q) =
    caught h₁ h gs (released_before xs ys m.store.heap g e ∙ p) q
Lands-outwards m xs ys g fs e (too_many h₁ gs p q) =
    too_many h₁ gs (released_before xs ys m.store.heap g e ∙ p) q

-- A counted reference can be counted once more, below the limit.
increment-cases :
    (v : Value) (h : Heap)
    → ((a : ℕ) → points_to a (ref_of v) ≤ count_of (cell_at h a))
    → ((h' : Heap) × (rc_increment v h ≡ ok h')) ⊎ (rc_increment v h ≡ fault count_overflow)
unfolding rc_increment increment_ref increment_cell
increment-cases v h known = at_ref (ref_of v) refl
  where
    at_cell :
        (a : ℕ) (c : Cell)
        → ref_of v ≡ some a
        → cell_at h a ≡ c
        → ((h' : Heap) × (increment_cell h a c ≡ ok h'))
          ⊎ (increment_cell h a c ≡ fault count_overflow)
    at_cell a freed r e =
        let self = points_self a in let one = rw (r, e) at (known a) in absurd (omega arith)
    at_cell a (live n c) r e = elim (Bool-cases (ltb n 4294967295)) [
      | inl t ↦ inl (set h a (live (suc n) c), rw t refl)
      | inr f ↦ inr (rw f refl)
    ]

    at_ref :
        (r : Option ℕ)
        → ref_of v ≡ r
        → ((h' : Heap) × (increment_ref h r ≡ ok h')) ⊎ (increment_ref h r ≡ fault count_overflow)
    at_ref none r = inl (h, refl)
    at_ref (some a) r = at_cell a (cell_at h a) r refl

-- The search over frames that are the machine's.
dispatch-Lands :
    (outer : ℕ → ℕ) (fs : List Frame) (m : Machine)
    → m.frames ≡ fs
    → Sound outer m
    → length m.stack < stack_capacity
    → Lands m (left_locals fs) (nearest fs) (dispatch fs m)
unfolding dispatch nearest left_locals push_stack rc_decrement_all
dispatch-Lands outer [] m e k room = unhandled m.store.heap refl
dispatch-Lands outer (f ∷ fs) m e k room =
    at_handlers f.try_catch_handlers refl (dispatch-Lands outer fs)
  where
    at_handlers :
        (hs : List (ℕ × ℕ))
        → f.try_catch_handlers ≡ hs
        → ((n : Machine)
            → n.frames ≡ fs
            → Sound outer n
            → length n.stack < stack_capacity
            → Lands n (left_locals fs) (nearest fs) (dispatch fs n))
        → Lands m (left_locals (f ∷ fs)) (nearest (f ∷ fs)) (dispatch (f ∷ fs) m)
    at_handlers [] h rec =
        let (heap, r, k₁) =
          rc_decrement_all-Covers f.locals
            (λ a. outer a + machine_refs a (record m { frames = fs })) (heap_of m)
            (λ a. let before = rw e at (k a) in omega arith) in
        rw (h, dispatch, nearest, left_locals, r)
          (Lands-outwards m f.locals (left_locals fs) heap fs r
            (rec (with_heap heap (record m { frames = fs })) refl k₁ room))
    at_handlers ((catch_label, finally_label) ∷ handlers) h rec =
        let gs = record f { pc = catch_label; try_catch_handlers = handlers } ∷ fs in
        let inside : ltb (length m.stack) stack_capacity ≡ true = ground arith in
        let known =
          increment-cases m.store.exception m.store.heap (λ a. let before = k a in omega arith) in
        elim known [
          | inl (heap, r) ↦
              rw (h, dispatch, nearest, left_locals)
                (rw inside (rw r (caught m.store.heap heap gs refl r)))
          | inr r ↦
              rw (h, dispatch, nearest, left_locals)
                (rw inside (rw r (too_many m.store.heap gs refl r)))
        ]

-- `handle_exception` always ends. On a machine whose counts cover the references there are, with
-- room on the stack, it leaves the frames without a handler, from the innermost one out, and
-- releases their locals in this order; the first frame that has a handler goes on at its catch
-- block, without that handler, with the exception on the stack and counted once more, and nothing is
-- unhandled any more. Where no frame has one, no frame is left and the stack is as it was. The heap
-- changes by these releases and this count alone. The only fault is an exception whose count is at
-- its limit after the releases.
pub handle_exception-Lands :
    (outer : ℕ → ℕ) (m : Machine)
    → Sound outer m
    → length m.stack < stack_capacity
    → Lands m (left_locals m.frames) (nearest m.frames) (handle_exception m)
unfolding handle_exception
handle_exception-Lands outer m k room = dispatch-Lands outer m.frames m refl k room

nearest-length : (fs : List Frame) {gs : List Frame} → nearest fs ≡ some gs → length gs ≤ length fs
unfolding nearest
nearest-length [] h = cc
nearest-length (f ∷ fs) {gs} h = at_handlers f.try_catch_handlers refl (λ k. nearest-length fs k)
  where
    at_handlers :
        (hs : List (ℕ × ℕ))
        → f.try_catch_handlers ≡ hs
        → (nearest fs ≡ some gs → length gs ≤ length fs)
        → length gs ≤ length (f ∷ fs)
    at_handlers [] e rec = let below = rec (rw (e, nearest) at h) in omega arith
    at_handlers ((catch_label, finally_label) ∷ handlers) e rec =
        let caught_in = record f { pc = catch_label; try_catch_handlers = handlers } ∷ fs in
        let same : gs ≡ caught_in = cc (rw (e, nearest) at h) in rw same (omega arith)

-- A turn of the loop that dispatches an exception out of the current frame, into a handler of an
-- outer one, does what C leaves undefined: it reads the frame that `exit_current_frame` freed. The
-- counts cover the references there are, there is room on the stack, and the exception's count is
-- below its limit or the turn stops there.
pub step-escapes :
    (fl : Floats) (p : Program) (outer : ℕ → ℕ) (m : Machine) (f : Frame) (fs gs : List Frame)
    → Sound outer m
    → length m.stack < stack_capacity
    → m.store.unhandled_exception ≡ true
    → m.frames ≡ f ∷ fs
    → f.try_catch_handlers ≡ []
    → nearest fs ≡ some gs
    → (step fl p m ≡ fault undefined) ⊎ (step fl p m ≡ fault count_overflow)
unfolding step resume nearest
step-escapes fl p outer m f fs gs k room raised at_f bare found =
    let here : nearest m.frames ≡ some gs = rw (at_f, nearest) (rw bare found) in
    let lands : Lands m (left_locals m.frames) (some gs) (handle_exception m) =
      rw here at (handle_exception-Lands outer m k room) in
    rw (raised, step) (after (handle_exception m) lands)
  where
    after :
        (res : Result (Bool × Machine))
        → Lands m (left_locals m.frames) (some gs) res
        → ((res >>= resume fl p m) ≡ fault undefined)
          ⊎ ((res >>= resume fl p m) ≡ fault count_overflow)
    after _ (caught h₁ h hs p q) =
        let below = nearest-length fs found in
        let fewer : (length hs == length m.frames) ≡ false = rw at_f (ground arith) in
        inl (rw fewer refl)
    after _ (too_many h₁ hs p q) = inr refl
