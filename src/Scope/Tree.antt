-- ===== src/Scope/Tree.antt =====
-- The tree of scopes: parents come before their children, and the scope of the enclosing function
-- is known.
use mathlib.Core.Path.{subst}
use nib_lang.Base.{
  ℕ, ◌<◌, Bool, true, false, List, ◌≡◌, ◌≢◌, ap, sym, ◌∙◌, ◌⊎◌, inl, inr, arith, length,
}
use nib_lang.Scope.{Scope, ScopeManager, scope_at, is_function_instance}

-- The scope of `id` is one of a function.
abbrev pub is_function : List Scope → ℕ → Bool
is_function scopes id = is_function_instance (scope_at scopes id).scope_type

-- `f` is the nearest scope of a function around `id`, 0 where there is none.
pub data Enclosing (scopes : List Scope) : ℕ → ℕ → Type 0 where
  here : (id : ℕ) → is_function scopes id ≡ true → Enclosing scopes id id
  top : is_function scopes 0 ≡ false → Enclosing scopes 0 0
  up :
      (id f : ℕ)
      → id ≢ 0
      → is_function scopes id ≡ false
      → Enclosing scopes (scope_at scopes id).parent_scope_id f
      → Enclosing scopes id f

-- Parents come before their children; the first scope is its own parent.
abbrev pub Ordered : List Scope → Type 0
Ordered scopes =
    (i : ℕ)
    → i < length scopes
    → ((scope_at scopes i).parent_scope_id < i)
      ⊎ ((i ≡ 0) × ((scope_at scopes i).parent_scope_id ≡ 0))

pub record IsTree (m : ScopeManager) : Type 0 where
  pub ordered : Ordered m.scopes
  pub active : m.active_scope_id < length m.scopes
  pub enclosing : Enclosing m.scopes m.active_scope_id m.function_scope_id

-- Both lists have the same scopes up to `n`, but for children and bindings.
pub record SameShape (n : ℕ) (xs ys : List Scope) : Type 0 where
  pub parents : (i : ℕ) → i < n → (scope_at ys i).parent_scope_id ≡ (scope_at xs i).parent_scope_id
  pub types : (i : ℕ) → i < n → (scope_at ys i).scope_type ≡ (scope_at xs i).scope_type

parent_lt :
    (xs : List Scope) (i : ℕ)
    → Ordered xs
    → i < length xs
    → (scope_at xs i).parent_scope_id < length xs
parent_lt xs i o h = elim (o i h) [ inl k ↦ omega arith | inr (e, k) ↦ omega arith ]

pub Enclosing-SameShape :
    (xs ys : List Scope) (id f : ℕ)
    → Ordered xs
    → SameShape (length xs) xs ys
    → id < length xs
    → Enclosing xs id f
    → Enclosing ys id f
Enclosing-SameShape xs ys id f o s h (here _ e) =
    here id (ap is_function_instance (s.types id h) ∙ e)
Enclosing-SameShape xs ys id f o s h (top e) = top (ap is_function_instance (s.types 0 h) ∙ e)
Enclosing-SameShape xs ys id f o s h (up _ _ k e r) =
    up id f k (ap is_function_instance (s.types id h) ∙ e) (
      subst (λ (p : ℕ). Enclosing ys p f) (sym (s.parents id h))
        (Enclosing-SameShape xs ys (scope_at xs id).parent_scope_id f o s (parent_lt xs id o h) r))
