-- ===== src/Vm/Safety/Primitive.antt =====
-- The primitive operations keep the counts a cover.
use nib_lang.Base.{
  ℕ, zero, suc, ◌+◌, ◌≤◌, List, [], ◌∷◌, Option, none, some, ◌≡◌, refl, arith, ltb, length,
}
use nib_lang.Vm.{Value, ref_of, Cell, freed, live, Heap, Frame, Machine}
use nib_lang.Vm.Faults.{Post, returns, stops, Post-bind, Post-map, Post-check, if_Post}
use nib_lang.Vm.Heap.{cell_at, increment_cell, increment_ref, rc_increment, rc_increment_all}
use nib_lang.Vm.Counts.{
  Covers, Covers-set, count_of, count-set, points_to, points_self, points_ne, refs,
}
use nib_lang.Vm.Release.{rc_decrement-Covers}
use nib_lang.Vm.Stack.{
  stack_capacity, heap_of, place, push_stack, pop_stack, take_top, pop_args, drop_value,
  modify_frame, modify_head, advance, jump,
}
use nib_lang.Vm.Safety.{frame_refs, machine_refs, Sound, with_refs, Known}

-- The counts cover the references, and none fell.
abbrev pub Counted : (ℕ → ℕ) → Heap → Heap → Type 0
Counted outer h h' = Covers outer h' × ((a : ℕ) → count_of (cell_at h a) ≤ count_of (cell_at h' a))

-- A counted reference can be counted once more.
pub rc_increment-Counted :
    (v : Value) (outer : ℕ → ℕ) (h : Heap)
    → ((a : ℕ) → points_to a (ref_of v) ≤ count_of (cell_at h a))
    → Covers outer h
    → Post (Counted (λ a. points_to a (ref_of v) + outer a) h) (rc_increment v h)
unfolding rc_increment increment_ref increment_cell
rc_increment-Counted v outer h known k = at_ref (ref_of v) refl
  where
    at_cell :
        (a : ℕ) (c : Cell)
        → ref_of v ≡ some a
        → cell_at h a ≡ c
        → Post (Counted (λ b. points_to b (ref_of v) + outer b) h) (increment_cell h a c)
    at_cell a freed r e =
        let self = points_self a in let one = rw (r, e) at (known a) in absurd (omega arith)
    at_cell a (live n c) r e =
        let covers =
          Covers-set outer (λ b. points_to b (ref_of v) + outer b) h a n c (live (suc n) c) e
            (let self = points_self a in rw r (omega arith))
            (λ b ne. let other = points_ne a b ne in rw r (omega arith)) k in
        let grows = count-set h a n c (live (suc n) c) e (omega arith) in
        if_Post (ltb n 4294967295) (returns (covers, grows)) (stops tt)

    at_ref :
        (r : Option ℕ)
        → ref_of v ≡ r
        → Post (Counted (λ b. points_to b (ref_of v) + outer b) h) (increment_ref h r)
    at_ref none r = returns (λ a. let before = k a in rw r (omega arith), λ a. omega arith)
    at_ref (some a) r = at_cell a (cell_at h a) r refl

pub rc_increment_all-Counted :
    (vs : List Value) (outer : ℕ → ℕ) (h : Heap)
    → ((a : ℕ) → refs a vs ≤ count_of (cell_at h a))
    → Covers outer h
    → Post (Covers (with_refs vs outer)) (rc_increment_all vs h)
unfolding rc_increment_all
rc_increment_all-Counted [] outer h known k = returns (λ a. let before = k a in omega arith)
rc_increment_all-Counted (v ∷ vs) outer h known k =
    Post-bind (rc_increment-Counted v outer h (λ a. let all = known a in omega arith) k)
      λ h₁ (k₁, grows).
        let rest =
          rc_increment_all-Counted vs (λ a. points_to a (ref_of v) + outer a) h₁
            (λ a. let all = known a in let more = grows a in omega arith) k₁ in
        Post-map (λ h₂ k₂ a. let after = k₂ a in omega arith) rest

modify_head-refs :
    (g : Frame → Frame) (fs : List Frame)
    → ((f : Frame) (a : ℕ) → refs a (g f).locals ≤ refs a f.locals)
    → (a : ℕ) → frame_refs a (modify_head g fs) ≤ frame_refs a fs
modify_head-refs g [] keeps a = omega arith
modify_head-refs g (f ∷ fs) keeps a = let fewer = keeps f a in omega arith

take_top-refs :
    (n : ℕ) (s acc : List Value)
    → Post
        (λ (args, rest). (a : ℕ) → refs a args + refs a rest ≡ refs a s + refs a acc)
        (take_top n s acc)
unfolding take_top
take_top-refs zero s acc = returns (λ a. omega arith)
take_top-refs (suc n) [] acc = stops tt
take_top-refs (suc n) (v ∷ s) acc =
    Post-map (λ (args, rest) same a. let moved = same a in omega arith)
      (take_top-refs n s (v ∷ acc))

module _ (outer : ℕ → ℕ) where
  pub place-Sound :
      (v : Value) (m : Machine)
      → Sound (with_refs (v ∷ []) outer) m
      → Post (Sound outer) (place v m)
  unfolding place
  place-Sound v m k =
      let after : Sound outer (record m { stack = v ∷ m.stack }) =
        λ a. let before = k a in omega arith in
      Post-bind (Post-check (ltb (length m.stack) stack_capacity)) λ _ _. returns after

  pub push_stack-Sound :
      (v : Value) (m : Machine)
      → Known v outer m
      → Sound outer m
      → Post (Sound outer) (push_stack v m)
  unfolding push_stack
  push_stack-Sound v m known k =
      let counted =
        rc_increment-Counted v (λ a. outer a + machine_refs a m) (heap_of m)
          (λ a. let one = known a in let before = k a in omega arith) k in
      Post-bind (Post-check (ltb (length m.stack) stack_capacity)) λ _ _.
        Post-bind counted λ h (k₁, grows).
          let after : Sound outer
              (record m { stack = v ∷ m.stack; store = record m.store { heap = h } }) =
            λ a. let after = k₁ a in omega arith in
          returns after

  -- A value popped is a reference of the operation.
  abbrev pub Popped : Value × Machine → Type 0
  Popped (v, n) = Sound (with_refs (v ∷ []) outer) n

  pub pop_stack-Popped : (m : Machine) → Sound outer m → Post Popped (pop_stack m)
  unfolding pop_stack
  pop_stack-Popped m k = at_stack m.stack refl
    where
      at_stack : (s : List Value) → m.stack ≡ s → Post Popped (pop_stack m)
      at_stack [] e = rw (e, pop_stack) (stops tt)
      at_stack (v ∷ s) e =
          rw (e, pop_stack) (returns (λ a. let before = rw e at (k a) in omega arith))

  pub drop_value-Sound :
      (v : Value) (m : Machine)
      → Sound (with_refs (v ∷ []) outer) m
      → Post (Sound outer) (drop_value v m)
  unfolding drop_value
  drop_value-Sound v m k =
      let (h, e, k₁) =
        rc_decrement-Covers v (λ a. outer a + machine_refs a m) (heap_of m)
          (λ a. let before = k a in omega arith) in
      rw e (returns k₁)

  pub modify_frame-Sound :
      (g : Frame → Frame) (m : Machine)
      → ((f : Frame) (a : ℕ) → refs a (g f).locals ≤ refs a f.locals)
      → Sound outer m
      → Sound outer (modify_frame g m)
  unfolding modify_frame
  modify_frame-Sound g m keeps k a =
      let fewer = modify_head-refs g m.frames keeps a in let before = k a in omega arith

  -- So are the arguments of a call.
  abbrev pub Taken : List Value × Machine → Type 0
  Taken (args, n) = Sound (with_refs args outer) n

  pub pop_args-Taken : (n : ℕ) (m : Machine) → Sound outer m → Post Taken (pop_args n m)
  unfolding pop_args
  pop_args-Taken n m k = Post-bind (take_top-refs n m.stack []) λ (args, s) same.
      let after : Sound (with_refs args outer) (record m { stack = s }) =
        λ a. let before = k a in let moved = same a in omega arith in
      returns after

  pub advance-Sound : (n : ℕ) (m : Machine) → Sound outer m → Sound outer (advance n m)
  advance-Sound n m = modify_frame-Sound (λ f. record f { pc = f.pc + n }) m (λ f a. omega arith)

  pub jump-Sound : (address : ℕ) (m : Machine) → Sound outer m → Sound outer (jump address m)
  jump-Sound address m = modify_frame-Sound (λ f. record f { pc = address }) m (λ f a. omega arith)

  -- A value that is no reference can always be pushed.
  pub push_plain-Sound :
      (v : Value) (m : Machine)
      → ref_of v ≡ none
      → Sound outer m
      → Post (Sound outer) (push_stack v m)
  push_plain-Sound v m plain k = push_stack-Sound v m (λ a. rw plain (omega arith)) k

  -- References that the operation forgets stay counted: they leak.
  pub leak-Sound : (vs : List Value) (m : Machine) → Sound (with_refs vs outer) m → Sound outer m
  leak-Sound vs m k a = let before = k a in omega arith
