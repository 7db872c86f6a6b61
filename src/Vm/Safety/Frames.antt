-- ===== src/Vm/Safety/Frames.antt =====
-- The operations on the current frame, and the turn of the loop, keep the counts a cover.
use nib_lang.Base.{
  ℕ, zero, suc, ◌+◌, ◌≤◌, true, false, List, [], ◌∷◌, none, some, ◌≡◌, refl, arith, ltb, get_or,
  get_elem?, set, if◌then◌else◌,
}
use nib_lang.Vm.{Value, null_value, bool_value, ref_of, Heap, Frame, Machine, Program}
use nib_lang.Vm.Faults.{
  ok, fault, ◌>>=◌, assertion, undefined, Post, returns, stops, Post-bind, Post-check, Post-map,
}
use nib_lang.Vm.Counts.{Covers, points_to, refs}
use nib_lang.Vm.Release.{rc_decrement-Covers}
use nib_lang.Vm.Numbers.{Floats}
use nib_lang.Vm.Stack.{
  heap_of, with_heap, pop_stack, push_stack, current_frame, modify_frame, advance,
}
use nib_lang.Vm.Execute.{store_local, increment_local, pop_from, pop_handler}
use nib_lang.Vm.Step.{push_constant, push_local, stack_dup, stack_del, not_value, throw_value}
use nib_lang.Vm.Safety.{machine_refs, Sound}
use nib_lang.Vm.Safety.Primitive.{
  push_stack-Sound, push_plain-Sound, pop_stack-Popped, drop_value-Sound, modify_frame-Sound,
  advance-Sound, leak-Sound,
}
use nib_lang.Vm.Safety.Values.{value_to_bool-Post, increment-Plain}

refs-set_null :
    (a i : ℕ) (vs : List Value)
    → refs a (set vs i null_value) + points_to a (ref_of (get_or vs i null_value)) ≤ refs a vs
refs-set_null a i [] = omega arith
refs-set_null a zero (v ∷ vs) = omega arith
refs-set_null a (suc i) (v ∷ vs) = let rest = refs-set_null a i vs in omega arith

refs-set :
    (a i : ℕ) (v : Value) (vs : List Value)
    → refs a (set vs i v) ≤ refs a (set vs i null_value) + points_to a (ref_of v)
refs-set a i v [] = omega arith
refs-set a zero v (w ∷ vs) = omega arith
refs-set a (suc i) v (w ∷ vs) = let rest = refs-set a i v vs in omega arith

refs-get_or :
    (a i : ℕ) (vs : List Value) → points_to a (ref_of (get_or vs i null_value)) ≤ refs a vs
refs-get_or a i [] = omega arith
refs-get_or a zero (v ∷ vs) = omega arith
refs-get_or a (suc i) (v ∷ vs) = let rest = refs-get_or a i vs in omega arith

-- The frame that is the current one, where there is one.
pub current_frame-Post :
    (m : Machine) → Post (λ f. (fs : List Frame) × (m.frames ≡ f ∷ fs)) (current_frame m)
unfolding current_frame
current_frame-Post m = at_frames m.frames refl
  where
    at_frames :
        (fs : List Frame)
        → m.frames ≡ fs
        → Post
            (λ f. (gs : List Frame) × (m.frames ≡ f ∷ gs))
            (elim fs [ [] ↦ fault undefined | f ∷ gs ↦ ok f ])
    at_frames [] e = stops tt
    at_frames (f ∷ gs) e = returns (gs, e)

module _ (outer : ℕ → ℕ) where
  -- The local is released while it still stands in the frame.
  pub store_local-Sound :
      (idx : ℕ) (m : Machine) → Sound outer m → Post (Sound outer) (store_local idx m)
  unfolding store_local pop_stack modify_frame
  store_local-Sound idx m k = Post-bind (current_frame-Post m) λ f (fs, at_f).
      Post-bind (Post-check (ltb idx f.code.local_count)) λ _ _.
        let cleared = record m {
          frames = record f { locals = set f.locals idx null_value } ∷ fs;
        } in
        let (h, e, k₁) =
          rc_decrement-Covers (get_or f.locals idx null_value)
            (λ a. outer a + machine_refs a cleared) (heap_of m)
            (λ a.
              let before = rw at_f at (k a) in
              let moved = refs-set_null a idx f.locals in omega arith) in
        rw e (popped f fs h m.stack refl at_f k₁)
    where
      popped :
          (f : Frame) (fs : List Frame) (h : Heap) (s : List Value)
          → m.stack ≡ s
          → m.frames ≡ f ∷ fs
          → Covers
              (λ a.
                outer a
                + machine_refs a
                    (record m { frames = record f { locals = set f.locals idx null_value } ∷ fs }))
              h
          → Post (Sound outer) (
              pop_stack (with_heap h m) >>= λ (v, n).
              ok (advance 5 (modify_frame (λ g. record g { locals = set g.locals idx v }) n)))
      popped f fs h [] e at_f k₁ = rw e (stops tt)
      popped f fs h (v ∷ t) e at_f k₁ = rw e (
          returns (λ a.
            let before = rw e at (k₁ a) in
            let moved = refs-set a idx v f.locals in rw at_f (omega arith)))

  pub increment_local-Sound :
      (idx : ℕ) (m : Machine) → Sound outer m → Post (Sound outer) (increment_local idx m)
  unfolding increment_local
  increment_local-Sound idx m k = Post-bind (current_frame-Post m) λ f (fs, at_f).
      Post-bind (Post-check (ltb idx f.code.local_count)) λ _ _.
        Post-bind (increment-Plain (get_or f.locals idx null_value)) λ v plain.
          let changed = modify_frame (λ g. record g { locals = set g.locals idx v }) m in
          let k₁ : Sound outer changed =
            modify_frame-Sound outer (λ g. record g { locals = set g.locals idx v }) m
              (λ g a.
                let below = refs-set a idx v g.locals in
                let null = refs-set_null a idx g.locals in
                let none_there : points_to a (ref_of v) ≡ 0 = rw plain refl in omega arith)
              k in
          returns (advance-Sound outer 5 changed k₁)

  pub push_local-Sound :
      (idx : ℕ) (m : Machine) → Sound outer m → Post (Sound outer) (push_local idx m)
  unfolding push_local
  push_local-Sound idx m k = Post-bind (current_frame-Post m) λ f (fs, at_f).
      Post-bind (Post-check (ltb idx f.code.local_count)) λ _ _.
        Post-bind
          (push_stack-Sound outer (get_or f.locals idx null_value) m
            (λ a. let among = refs-get_or a idx f.locals in rw at_f (omega arith)) k)
          λ n k₁. returns (advance-Sound outer 5 n k₁)

  pub stack_dup-Sound : (m : Machine) → Sound outer m → Post (Sound outer) (stack_dup m)
  unfolding stack_dup
  stack_dup-Sound m k = at_stack m.stack refl
    where
      at_stack :
          (s : List Value)
          → m.stack ≡ s
          → Post
              (Sound outer)
              (elim s [ [] ↦ fault assertion | v ∷ t ↦ push_stack v m >>= λ n. ok (advance 1 n) ])
      at_stack [] e = stops tt
      at_stack (v ∷ t) e =
          Post-bind (push_stack-Sound outer v m (λ a. rw e (omega arith)) k)
            λ n k₁. returns (advance-Sound outer 1 n k₁)

  pub stack_del-Sound : (m : Machine) → Sound outer m → Post (Sound outer) (stack_del m)
  unfolding stack_del
  stack_del-Sound m k = Post-bind (pop_stack-Popped outer m k) λ (v, m₁) k₁.
      Post-bind (drop_value-Sound outer v m₁ k₁) λ n k₂. returns (advance-Sound outer 1 n k₂)

  pub not_value-Sound :
      (fl : Floats) (m : Machine) → Sound outer m → Post (Sound outer) (not_value fl m)
  unfolding not_value
  not_value-Sound fl m k = Post-bind (pop_stack-Popped outer m k) λ (v, m₁) k₁.
      Post-bind (value_to_bool-Post fl (heap_of m₁) v (λ a. let before = k₁ a in omega arith))
        λ b _.
          Post-bind
            (push_plain-Sound outer (bool_value (if b then false else true)) m₁ refl
              (leak-Sound outer (v ∷ []) m₁ k₁))
            λ n k₂. returns (advance-Sound outer 1 n k₂)

  pub throw_value-Sound : (m : Machine) → Sound outer m → Post (Sound outer) (throw_value m)
  unfolding throw_value
  throw_value-Sound m k = Post-bind (pop_stack-Popped outer m k) λ (v, n) k₁.
      let after : Sound outer
          (record n { store = record n.store { exception = v; unhandled_exception = true } }) =
        λ a. let before = k₁ a in omega arith in
      returns after

  pub pop_handler-Sound : (m : Machine) → Sound outer m → Sound outer (modify_frame pop_handler m)
  pop_handler-Sound m =
      modify_frame-Sound outer pop_handler m (λ f a. kept f.try_catch_handlers a f)
    where
      kept :
          (hs : List (ℕ × ℕ)) (a : ℕ) (f : Frame) → refs a (pop_from hs f).locals ≤ refs a f.locals
      kept [] a f = omega arith
      kept ((c, g) ∷ hs) a f = omega arith

-- The constants of the image are references from outside.
pub push_constant-Sound :
    (p : Program) (idx : ℕ) (m : Machine)
    → Sound (λ a. refs a p.constants) m
    → Post (Sound (λ a. refs a p.constants)) (push_constant idx p m)
unfolding push_constant
push_constant-Sound p idx m k = Post-bind (at_list p.constants idx) λ v among.
    Post-bind
      (push_stack-Sound (λ a. refs a p.constants) v m (λ a. let one = among a in omega arith) k)
      λ n k₁. returns (advance-Sound (λ a. refs a p.constants) 5 n k₁)
  where
    at_list :
        (vs : List Value) (i : ℕ)
        → Post
            (λ v. (a : ℕ) → points_to a (ref_of v) ≤ refs a vs)
            (elim (get_elem? vs i) [ none ↦ fault assertion | some v ↦ ok v ])
    at_list [] i = stops tt
    at_list (v ∷ vs) zero = returns (λ a. omega arith)
    at_list (v ∷ vs) (suc i) =
        Post-map (λ w among a. let one = among a in omega arith) (at_list vs i)
