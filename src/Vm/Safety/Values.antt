-- ===== src/Vm/Safety/Values.antt =====
-- Computing on values touches no freed cell, and makes no reference.
use nib_lang.Base.{
  ℕ, ◌≤◌, Bool, true, false, not, ◌&&◌, none, some, ◌≡◌, refl, arith, if◌then◌else◌, ℤ, pos, negsuc,
  ◌+ℤ◌, ◌-ℤ◌, ◌*ℤ◌, eqb_ℤ, fits_i32,
}
use nib_lang.Vm.{
  Value, bool_value, int_value, float_value, str_value, ref_of, text, closure, elements, Cell,
  freed, live, Heap, Machine,
}
use nib_lang.Vm.Faults.{
  ok, fault, undefined, use_after_free, Post, returns, stops, Post-bind, Post-check, Post-defined,
}
use nib_lang.Vm.Heap.{cell_at}
use nib_lang.Vm.Counts.{count_of, points_to, points_self}
use nib_lang.Vm.Numbers.{
  Floats, NumOp, num_op_add, num_op_sub, num_op_mul, num_op_div, Comparison, is_number_type,
  text_at, value_to_bool, value_to_float, int_or_float, int_op, float_result, handle_number_op,
  compare_values, bitwise_and, modulo, increment,
}
use nib_lang.Vm.Stack.{heap_of}
use nib_lang.Vm.Execute.{number_op, and_values, or_values, text_of}

-- The cell behind the value is counted.
abbrev pub Alive : Value → Heap → Type 0
Alive v h = (a : ℕ) → points_to a (ref_of v) ≤ count_of (cell_at h a)

-- A number, a truth value: nothing to count.
abbrev pub Plain : Value → Type 0
Plain v = ref_of v ≡ none

pub text_at-Post :
    (h : Heap) (a : ℕ)
    → ((b : ℕ) → points_to b (some a) ≤ count_of (cell_at h b))
    → Post (λ _. Unit) (text_at h a)
unfolding text_at
text_at-Post h a alive = at_cell (cell_at h a) refl
  where
    at_cell :
        (c : Cell)
        → cell_at h a ≡ c
        → Post
            (λ _. Unit)
            (elim c [
              | freed ↦ fault use_after_free
              | live n (text s) ↦ ok s
              | live n (closure fn bound) ↦ fault undefined
              | live n (elements vs) ↦ fault undefined
            ])
    at_cell freed e =
        let self = points_self a in let one = rw e at (alive a) in absurd (omega arith)
    at_cell (live n (text s)) e = returns tt
    at_cell (live n (closure fn bound)) e = stops tt
    at_cell (live n (elements vs)) e = stops tt

pub text_of-Post : (v : Value) (m : Machine) → Alive v (heap_of m) → Post (λ _. Unit) (text_of v m)
unfolding text_of
text_of-Post (str_value a) m alive = text_at-Post (heap_of m) a alive
text_of-Post _ m alive = stops tt

pub value_to_bool-Post :
    (fl : Floats) (h : Heap) (v : Value) → Alive v h → Post (λ _. Unit) (value_to_bool fl h v)
unfolding value_to_bool
value_to_bool-Post fl h (str_value a) alive = Post-bind (text_at-Post h a alive) λ s _. returns tt
value_to_bool-Post fl h _ alive = returns tt

value_to_float-Post : (fl : Floats) (v : Value) → Post (λ _. Unit) (value_to_float fl v)
unfolding value_to_float
value_to_float-Post fl (float_value f) = returns tt
value_to_float-Post fl (int_value i) = returns tt
value_to_float-Post fl _ = stops tt

int_or_float-Plain : (fl : Floats) (exact a b : ℤ) → Plain (int_or_float fl exact a b)
unfolding int_or_float
int_or_float-Plain fl exact a b =
    elim (fits_i32 exact)
      as (λ t.
        ref_of (if t then int_value exact else float_value (fl.add_f (fl.of_i32 a) (fl.of_i32 b)))
        ≡ none) [ true ↦ refl | false ↦ refl ]

int_op-Plain : (fl : Floats) (op : NumOp) (a b : ℤ) → Post Plain (int_op fl op a b)
unfolding int_op
int_op-Plain fl num_op_add a b = returns (int_or_float-Plain fl (a +ℤ b) a b)
int_op-Plain fl num_op_sub a b = returns (int_or_float-Plain fl (a -ℤ b) a b)
int_op-Plain fl num_op_mul a b = returns (int_or_float-Plain fl (a *ℤ b) a b)
int_op-Plain fl num_op_div a b = Post-bind (Post-check (not (eqb_ℤ b (pos 0)))) λ _ _.
    Post-bind (Post-check (not (eqb_ℤ a (negsuc 2147483647) && eqb_ℤ b (negsuc 0))))
      λ _ _. returns refl

float_result-Plain : (fl : Floats) (op : NumOp) (a b : Value) → Post Plain (float_result fl op a b)
unfolding float_result
float_result-Plain fl op a b =
    Post-bind (value_to_float-Post fl a)
      λ f₁ _. Post-bind (value_to_float-Post fl b) λ f₂ _. returns refl

handle_number_op-Plain :
    (fl : Floats) (op : NumOp) (a b : Value) → Post Plain (handle_number_op fl op a b)
unfolding handle_number_op
handle_number_op-Plain fl op (int_value a) (int_value b) = int_op-Plain fl op a b
handle_number_op-Plain fl op a b = float_result-Plain fl op a b

pub number_op-Plain :
    (fl : Floats) (op : NumOp) (m : Machine) (a b : Value) → Post Plain (number_op fl op m a b)
unfolding number_op
number_op-Plain fl num_op_add m a b =
    Post-bind (Post-check (is_number_type a && is_number_type b))
      λ _ _. handle_number_op-Plain fl num_op_add b a
number_op-Plain fl num_op_sub m a b =
    Post-bind (Post-check (is_number_type a && is_number_type b))
      λ _ _. handle_number_op-Plain fl num_op_sub a b
number_op-Plain fl num_op_mul m a b =
    Post-bind (Post-check (is_number_type a && is_number_type b))
      λ _ _. handle_number_op-Plain fl num_op_mul a b
number_op-Plain fl num_op_div m a b =
    Post-bind (Post-check (is_number_type a && is_number_type b))
      λ _ _. handle_number_op-Plain fl num_op_div a b

pub compare_values-Plain :
    (fl : Floats) (c : Comparison) (a b : Value) → Post Plain (compare_values fl c a b)
unfolding compare_values
compare_values-Plain fl c (bool_value a) (bool_value b) = returns refl
compare_values-Plain fl c (int_value a) (int_value b) = returns refl
compare_values-Plain fl c (float_value a) (float_value b) = returns refl
compare_values-Plain fl c _ _ = stops tt

pub bitwise_and-Plain : (a b : Value) → Post Plain (bitwise_and a b)
unfolding bitwise_and
bitwise_and-Plain (int_value a) (int_value b) = returns refl
bitwise_and-Plain _ _ = stops tt

pub modulo-Plain : (a b : Value) → Post Plain (modulo a b)
unfolding modulo
modulo-Plain (int_value a) (int_value b) = Post-bind (Post-defined (not (eqb_ℤ b (pos 0)))) λ _ _.
    Post-bind (Post-defined (not (eqb_ℤ a (negsuc 2147483647) && eqb_ℤ b (negsuc 0))))
      λ _ _. returns refl
modulo-Plain _ _ = stops tt

pub increment-Plain : (a : Value) → Post Plain (increment a)
unfolding increment
increment-Plain (int_value a) = Post-bind (Post-defined (fits_i32 (a +ℤ pos 1))) λ _ _. returns refl
increment-Plain _ = stops tt

module _ (fl : Floats) (m : Machine) (a b : Value) where
  pub and_values-Plain :
      Alive a (heap_of m) → Alive b (heap_of m) → Post Plain (and_values fl m a b)
  unfolding and_values
  and_values-Plain alive_a alive_b =
      Post-bind (value_to_bool-Post fl (heap_of m) a alive_a)
        λ t _. Post-bind (second t) λ _ _. returns refl
    where
      second :
          (t : Bool)
          → Post (λ _. Unit) (elim t [ true ↦ value_to_bool fl (heap_of m) b | false ↦ ok false ])
      second true = value_to_bool-Post fl (heap_of m) b alive_b
      second false = returns tt

  pub or_values-Plain : Alive a (heap_of m) → Alive b (heap_of m) → Post Plain (or_values fl m a b)
  unfolding or_values
  or_values-Plain alive_a alive_b =
      Post-bind (value_to_bool-Post fl (heap_of m) a alive_a)
        λ t _. Post-bind (second t) λ _ _. returns refl
    where
      second :
          (t : Bool)
          → Post (λ _. Unit) (elim t [ true ↦ ok true | false ↦ value_to_bool fl (heap_of m) b ])
      second true = returns tt
      second false = value_to_bool-Post fl (heap_of m) b alive_b
