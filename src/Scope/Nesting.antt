-- ===== src/Scope/Nesting.antt =====
-- Entering, leaving and re-entering scopes.
use mathlib.Core.Path.{subst}
use nib_lang.Base.{
  ℕ, zero, suc, ◌≤◌, ◌<◌, Bool, true, false, ◌||◌, List, [], ◌∷◌, ◌++◌, some, ◌≡◌, refl, ap, sym,
  ◌∙◌, ◌⊎◌, inl, inr, arith, ◌==◌, if◌then◌else◌, ltb, ltb→lt, length, set, Bytes, Bool-cases,
  length-append, length-set, get_or-set_self, get_or-set_ne, get_or-append_left,
  get_or-append_right,
}
use nib_lang.Scope.{
  ScopeType, root_scope, Scope, ScopeManager, new_scope, scope_at, is_function_instance,
  create_scope, enter_scope, climb, set_active_scope_id, exit_scope, new_scope_manager,
}
use nib_lang.Errors.{Error}
use nib_lang.Scope.Tree.{
  is_function, Enclosing, here, top, up, Ordered, IsTree, SameShape, Enclosing-SameShape,
}

abbrev nowhere : Scope
nowhere = new_scope root_scope 0 []

-- The scopes that were there keep type and parent.
pub set-SameShape :
    (n i : ℕ) (xs : List Scope) (s : Scope)
    → s.parent_scope_id ≡ (scope_at xs i).parent_scope_id
    → s.scope_type ≡ (scope_at xs i).scope_type
    → i < length xs
    → SameShape n xs (set xs i s)
set-SameShape n i xs s p t h = record {
  parents = λ j k. elim (Bool-cases (i == j)) [
    | inl e ↦ let same : i ≡ j = ground arith in rw (← same, get_or-set_self xs i s nowhere h) p
    | inr e ↦ rw (get_or-set_ne xs i j s nowhere (λ c. ground arith))
  ];
  types = λ j k. elim (Bool-cases (i == j)) [
    | inl e ↦ let same : i ≡ j = ground arith in rw (← same, get_or-set_self xs i s nowhere h) t
    | inr e ↦ rw (get_or-set_ne xs i j s nowhere (λ c. ground arith))
  ];
}

append-SameShape : (xs ys : List Scope) → SameShape (length xs) xs (xs ++ ys)
append-SameShape xs ys = record {
  parents = λ j k. rw (get_or-append_left xs ys j nowhere k);
  types = λ j k. rw (get_or-append_left xs ys j nowhere k);
}

SameShape-trans :
    (n : ℕ) (xs ys zs : List Scope) → SameShape n xs ys → SameShape n ys zs → SameShape n xs zs
SameShape-trans n xs ys zs a b = record {
  parents = λ j k. b.parents j k ∙ a.parents j k;
  types = λ j k. b.types j k ∙ a.types j k;
}

-- What `CreateScope` leaves.
record Creates (type : ScopeType) (m q : ScopeManager) : Type 0 where
  grown : length q.scopes ≡ suc (length m.scopes)
  kept : SameShape (length m.scopes) m.scopes q.scopes
  new_parent : (scope_at q.scopes (length m.scopes)).parent_scope_id ≡ m.active_scope_id
  new_type : (scope_at q.scopes (length m.scopes)).scope_type ≡ type

create_scope-Creates :
    (type : ScopeType) (name : Bytes) (m : ScopeManager)
    → m.active_scope_id ≤ length m.scopes
    → Creates type m (create_scope type name m)
unfolding create_scope
create_scope-Creates type name m h =
    let s = new_scope type m.active_scope_id name in
    let xs = m.scopes ++ s ∷ [] in
    let grow = length-append m.scopes (s ∷ []) in
    let parent = scope_at xs m.active_scope_id in
    let linked = record parent { children = parent.children ++ length m.scopes ∷ [] } in
    let shape =
      set-SameShape (suc (length m.scopes)) m.active_scope_id xs linked refl refl (omega arith) in
    let last = get_or-append_right m.scopes (s ∷ []) (length m.scopes) 0 nowhere (omega arith) in
    record {
      grown = omega (arith, length-set xs m.active_scope_id linked);
      kept =
          SameShape-trans (length m.scopes) m.scopes xs _ (append-SameShape m.scopes (s ∷ []))
            (record {
              parents = λ j k. shape.parents j (omega arith);
              types = λ j k. shape.types j (omega arith);
            });
      new_parent = shape.parents (length m.scopes) (omega arith) ∙ rw last;
      new_type = shape.types (length m.scopes) (omega arith) ∙ rw last;
    }

Creates-Ordered :
    (type : ScopeType) (m q : ScopeManager)
    → Creates type m q
    → Ordered m.scopes
    → (m.active_scope_id < length m.scopes) ⊎ ((m.active_scope_id ≡ 0) × (length m.scopes ≡ 0))
    → Ordered q.scopes
Creates-Ordered type m q c o a i h = elim (Bool-cases (ltb i (length m.scopes))) [
  | inl k ↦
      subst (λ (p : ℕ). (p < i) ⊎ ((i ≡ 0) × (p ≡ 0))) (sym (c.kept.parents i (ltb→lt _ _ k)))
        (o i (ltb→lt _ _ k))
  | inr k ↦
      let grown = c.grown in
      let last : length m.scopes ≡ i = ground arith in
      let parent = c.new_parent in
      subst
        (λ (j : ℕ).
          ((scope_at q.scopes j).parent_scope_id < j)
          ⊎ ((j ≡ 0) × ((scope_at q.scopes j).parent_scope_id ≡ 0)))
        last (elim a [ inl n ↦ inl (omega arith) | inr (z, e) ↦ inr (e, omega arith) ])
]

-- What `EnterScope` makes of the enclosing function.
enter-Enclosing :
    (type : ScopeType) (m q : ScopeManager)
    → Creates type m q
    → IsTree m
    → (b : Bool) → is_function_instance type ≡ b
    → Enclosing q.scopes (length m.scopes) (if b then length m.scopes else m.function_scope_id)
enter-Enclosing type m q c t true e =
    here (length m.scopes) (ap is_function_instance c.new_type ∙ e)
enter-Enclosing type m q c t false e =
    let active = t.active in
    up (length m.scopes) m.function_scope_id (λ z. omega arith)
      (ap is_function_instance c.new_type ∙ e)
      (subst (λ (p : ℕ). Enclosing q.scopes p m.function_scope_id) (sym c.new_parent)
        (Enclosing-SameShape m.scopes q.scopes m.active_scope_id m.function_scope_id t.ordered
          c.kept t.active t.enclosing))

-- Entering a scope keeps the tree, and the manager knows the function around the new scope.
pub enter_scope-IsTree :
    (type : ScopeType) (name : Bytes) (m : ScopeManager)
    → IsTree m
    → IsTree (enter_scope type name m)
unfolding enter_scope
enter_scope-IsTree type name m t =
    let active = t.active in
    let c = create_scope-Creates type name m (omega arith) in
    let grown = c.grown in
    record {
      ordered = Creates-Ordered type m (create_scope type name m) c t.ordered (inl active);
      active = omega arith;
      enclosing =
          enter-Enclosing type m (create_scope type name m) c t (is_function_instance type) refl;
    }

-- The function around the scope that the climb reaches.
abbrev reached : List Scope → ℕ → ℕ
reached scopes id = if is_function_instance (scope_at scopes id).scope_type then id else 0

stop_at : (b c : Bool) → c ≡ true → (b || c) ≡ true
stop_at true c e = refl
stop_at false c e = e

go_on : (b c : Bool) → b ≡ false → c ≡ false → (b || c) ≡ false
go_on b c e f = rw (e, f)

climb-Enclosing :
    (f : ℕ) (xs : List Scope) (id e : ℕ)
    → Ordered xs
    → id < length xs
    → id < f
    → Enclosing xs id e
    → (i : ℕ) × (climb f xs id ≡ some i) × (reached xs i ≡ e)
unfolding climb
climb-Enclosing zero xs id e o h k r = absurd (omega arith)
climb-Enclosing (suc f) xs id e o h k (here _ t) =
    (id, rw (stop_at (id == 0) (is_function xs id) t, climb) refl, rw t)
climb-Enclosing (suc f) xs id e o h k (top t) = (0, refl, rw t)
climb-Enclosing (suc f) xs id e o h k (up _ _ n t r) =
    let low : (id == 0) ≡ false = ground arith in
    let p = (scope_at xs id).parent_scope_id in
    let lt : p < id = elim (o id h) [ inl l ↦ l | inr (z, _) ↦ absurd (n z) ] in
    let (i, found, is) = climb-Enclosing f xs p e o (omega arith) (omega arith) r in
    (i, rw (go_on (id == 0) (is_function xs id) low t, climb) found, is)

-- Every scope has an enclosing function, or none.
Enclosing-total :
    (n : ℕ) (xs : List Scope) (id : ℕ)
    → Ordered xs
    → id < length xs
    → id < n
    → (f : ℕ) × Enclosing xs id f
Enclosing-total zero xs id o h k = absurd (omega arith)
Enclosing-total (suc n) xs id o h k = elim (Bool-cases (is_function xs id)) [
  | inl e ↦ (id, here id e)
  | inr e ↦ elim (o id h) [
    | inl l ↦
        let (f, r) =
          Enclosing-total n xs (scope_at xs id).parent_scope_id o (omega arith) (omega arith) in
        (f, up id f (λ z. omega arith) e r)
    | inr (z, _) ↦
        (0, subst (λ (i : ℕ). Enclosing xs i 0) (sym z) (top (ap (is_function xs) (sym z) ∙ e)))
  ]
]

set_active-eq :
    (id e : ℕ) (m : ScopeManager)
    → Ordered m.scopes
    → id < length m.scopes
    → Enclosing m.scopes id e
    → set_active_scope_id id m ≡ some (record m { active_scope_id = id; function_scope_id = e })
unfolding set_active_scope_id
set_active-eq id e m o h r =
    let (i, found, is) = climb-Enclosing (suc id) m.scopes id e o h (omega arith) r in
    rw (found, set_active_scope_id, is) refl

-- The loop of `SetActiveScopeId` ends for every scope there is, and leaves a manager that knows the
-- function around that scope; nothing but the active scope and its function changes.
pub set_active_scope_id-IsTree :
    (id : ℕ) (m : ScopeManager)
    → IsTree m
    → id < length m.scopes
    → (f : ℕ) × (set_active_scope_id id m
        ≡ some (record m { active_scope_id = id; function_scope_id = f }))
      × IsTree (record m { active_scope_id = id; function_scope_id = f })
set_active_scope_id-IsTree id m t h =
    let (f, r) = Enclosing-total (suc id) m.scopes id t.ordered h (omega arith) in
    (
      f,
      set_active-eq id f m t.ordered h r,
      record { ordered = t.ordered; active = h; enclosing = r },
    )

-- Leaving the scope that was just entered ends, and restores the active scope and the enclosing
-- function: what stays of the two calls is the new scope in the tree.
pub exit_scope-enter_scope :
    (type : ScopeType) (name : Bytes) (m : ScopeManager)
    → IsTree m
    → exit_scope (enter_scope type name m) ≡ some (create_scope type name m)
unfolding exit_scope enter_scope create_scope
exit_scope-enter_scope type name m t =
    let active = t.active in
    let c = create_scope-Creates type name m (omega arith) in
    let grown = c.grown in
    let q = enter_scope type name m in
    let o = Creates-Ordered type m (create_scope type name m) c t.ordered (inl active) in
    let r =
      Enclosing-SameShape m.scopes q.scopes m.active_scope_id m.function_scope_id t.ordered c.kept
        t.active t.enclosing in
    ap (λ (id : ℕ). set_active_scope_id id q) c.new_parent
    ∙ set_active-eq m.active_scope_id m.function_scope_id q o (omega arith) r

-- A new manager is a tree of the root scope alone, in no function.
pub new_scope_manager-IsTree : (errors : List Error) → IsTree (new_scope_manager errors)
unfolding enter_scope create_scope is_function_instance
new_scope_manager-IsTree errors = record {
  ordered = root_first;
  active = omega arith;
  enclosing = top refl;
}
  where
    root_first : Ordered (new_scope_manager errors).scopes
    root_first zero h = inr (refl, refl)
    root_first (suc i) h = absurd (omega arith)
