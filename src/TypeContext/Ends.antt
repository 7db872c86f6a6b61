-- ===== src/TypeContext/Ends.antt =====
-- `IsTypeSubsetOf` ends on registries without cycles.
use nib_lang.Base.{
  ℕ, zero, suc, ◌+◌, ◌≤◌, ◌<◌, Bool, true, false, ◌||◌, Option, none, some, ◌≡◌, refl, inl, inr,
  ◌==◌, if◌then◌else◌, arith, Option-cases,
}
use nib_lang.Types.{
  TypeVariant, optional_type, placeholder_type, struct_type, template_variable_type, union_type,
  TypeRegistry,
}
use nib_lang.TypeContext.{
  StructSymbol, error_type, any_type, never_type, nil_type, variant_of, target_of, follow_alias,
  subset_of_variants, is_type_subset_of,
}

abbrev pub Known : TypeRegistry → ℕ → Type 0
Known r id = (v : TypeVariant) × (variant_of r id ≡ some v)

-- No alias and no optional leads back to itself: a rank falls along both; and they lead to types of
-- the registry.
pub record IsAcyclic (r : TypeRegistry) (rank : ℕ → ℕ) : Type 0 where
  pub alias_rank :
      (id target : ℕ) → target_of r id ≡ some target → (rank target < rank id) × Known r target
  pub optional_rank :
      (id w : ℕ) → variant_of r id ≡ some (optional_type w) → (rank w < rank id) × Known r w

module _ (s : ℕ → StructSymbol) (r : TypeRegistry) (rank : ℕ → ℕ) (acyclic : IsAcyclic r rank) where
  follow_alias-ends :
      (n a : ℕ)
      → rank a < n
      → Known r a
      → (b : ℕ) × (follow_alias n r a ≡ some b) × (rank b ≤ rank a) × Known r b
  unfolding follow_alias
  follow_alias-ends zero a h k = absurd (omega arith)
  follow_alias-ends (suc n) a h k = elim (Option-cases (target_of r a)) [
    | inl e ↦ (a, rw (e, follow_alias) refl, omega arith, k)
    | inr (t, e) ↦
        let (falls, known) = acyclic.alias_rank a t e in
        let (b, f, below, k') = follow_alias-ends n t (omega arith) known in
        (b, rw (e, follow_alias) f, omega arith, k')
  ]

  abbrev Decides : Option Bool → Type 0
  Decides o = (t : Bool) × (o ≡ some t)

  if_Decides : (b : Bool) {x y : Option Bool} → Decides x → Decides y → Decides (if b then x else y)
  if_Decides true p q = p
  if_Decides false p q = q

  variants-decide :
      (again : ℕ → ℕ → Option Bool) (sub super : ℕ) (v w : TypeVariant)
      → ((x y : ℕ)
          → rank x + rank y < rank sub + rank super
          → Known r x
          → Known r y
          → Decides (again x y))
      → variant_of r sub ≡ some v
      → variant_of r super ≡ some w
      → Decides (subset_of_variants again s sub super v w)
  unfolding subset_of_variants
  variants-decide again sub super (union_type xs) (union_type ys) rec at_sub at_super = (_, refl)
  variants-decide again sub super (union_type xs) _ rec at_sub at_super = (_, refl)
  variants-decide again sub super _ (union_type ys) rec at_sub at_super = (_, refl)
  variants-decide again sub super (optional_type x) (optional_type y) rec at_sub at_super =
      let (fx, kx) = acyclic.optional_rank sub x at_sub in
      let (fy, ky) = acyclic.optional_rank super y at_super in
      if_Decides (sub == nil_type) (true, refl) (rec x y (omega arith) kx ky)
  variants-decide again sub super v (optional_type y) rec at_sub at_super =
      let (fy, ky) = acyclic.optional_rank super y at_super in
      if_Decides (sub == nil_type) (true, refl) (rec sub y (omega arith) (_, at_sub) ky)
  variants-decide again sub super (struct_type x xs) (struct_type y ys) rec at_sub at_super =
      (_, refl)
  variants-decide again sub super (template_variable_type n none) (struct_type y ys) rec at_sub
        at_super =
      (_, refl)
  variants-decide again sub super (template_variable_type n (some t)) (struct_type y ys) rec at_sub
        at_super =
      (_, refl)
  variants-decide again sub super (placeholder_type i) _ rec at_sub at_super = (_, refl)
  variants-decide again sub super _ _ rec at_sub at_super = (_, refl)

  -- `IsTypeSubsetOf` ends for all types of a registry in which no alias and no optional leads back
  -- to itself, or to a type that is not there: as many rounds as the ranks of the two types add up
  -- to, and one more, are enough.
  pub is_type_subset_of-ends :
      (n a b : ℕ)
      → rank a + rank b < n
      → Known r a
      → Known r b
      → (t : Bool) × (is_type_subset_of n s r a b ≡ some t)
  unfolding is_type_subset_of
  is_type_subset_of-ends zero a b h ka kb = absurd (omega arith)
  is_type_subset_of-ends (suc n) a b h ka kb =
      let (sub, e₁, below₁, (v, k₁)) = follow_alias-ends (suc n) a (omega arith) ka in
      let (super, e₂, below₂, (w, k₂)) = follow_alias-ends (suc n) b (omega arith) kb in
      let inner =
        variants-decide (λ x y. is_type_subset_of n s r x y) sub super v w
          (λ x y falls kx ky. is_type_subset_of-ends n x y (omega arith) kx ky) k₁ k₂ in
      if_Decides (a == b) (true, refl)
        (rw (e₁, e₂)
          (if_Decides
            (sub == super
              || (sub == never_type || super == any_type)
              || (sub == error_type || super == error_type))
            (true, refl) (rw (k₁, k₂) inner)))
