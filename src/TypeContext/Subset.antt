-- ===== src/TypeContext/Subset.antt =====
-- `IsTypeSubsetOf` ends, and is right about what types mean.
use nib_lang.Base.{
  ℕ, zero, suc, ◌≢◌, Bool, true, false, not, ◌&&◌, ◌||◌, List, [], ◌∷◌, Option, none, some, ◌≡◌,
  refl, ◌⊎◌, inl, inr, ◌==◌, if◌then◌else◌, ◌>>=◌, arith, Bool-cases, Option-cases, bind-eq-some,
}
use nib_lang.Scope.{SpannedText}
use nib_lang.Types.{
  TypeVariant, optional_type, placeholder_type, struct_type, template_variable_type, union_type,
  TypeRegistry, SpannedType,
}
use nib_lang.TypeContext.{
  StructSymbol, error_type, any_type, never_type, nil_type, variant_of, contains, contains_all,
  target_of, follow_alias, subset_of_variants, is_type_subset_of,
}

-- What types mean as sets of values, kind by kind.
pub record IsMeaning (V : Type 0) (s : ℕ → StructSymbol) (r : TypeRegistry) (Means : ℕ → V → Type 0)
    : Type 0 where
  pub alias_to :
      (id target : ℕ) → target_of r id ≡ some target → (v : V) → Means id v → Means target v
  pub alias_from :
      (id target : ℕ) → target_of r id ≡ some target → (v : V) → Means target v → Means id v
  pub never_empty : (v : V) → Means never_type v → ⊥
  pub error_empty : (v : V) → Means error_type v → ⊥
  pub any_full : (v : V) → Means any_type v
  pub union_member :
      (id : ℕ) (xs : List ℕ)
      → variant_of r id ≡ some (union_type xs)
      → (v : V) → Means id v
      → (x : ℕ) × (contains x xs ≡ true) × Means x v
  pub member_union :
      (id : ℕ) (xs : List ℕ)
      → variant_of r id ≡ some (union_type xs)
      → (v : V) (x : ℕ) → contains x xs ≡ true
      → Means x v
      → Means id v
  pub optional_of :
      (id w : ℕ)
      → variant_of r id ≡ some (optional_type w)
      → (v : V) → Means id v
      → Means nil_type v ⊎ Means w v
  pub nil_optional :
      (id w : ℕ)
      → variant_of r id ≡ some (optional_type w)
      → (v : V) → Means nil_type v
      → Means id v
  pub wrapped_optional :
      (id w : ℕ) → variant_of r id ≡ some (optional_type w) → (v : V) → Means w v → Means id v
  pub implements :
      (id x interface : ℕ) (ts : List ℕ)
      → variant_of r id ≡ some (struct_type x ts)
      → contains interface (s x).interface_types ≡ true
      → (v : V) → Means id v
      → Means interface v
  pub constrained :
      (id : ℕ) {name : SpannedText} (t : SpannedType)
      → variant_of r id ≡ some (template_variable_type name (some t))
      → (v : V) → Means id v
      → Means t.type_id v

-- No placeholders, as while types are inferred, and no alias or optional of the error type.
pub record IsSettled (r : TypeRegistry) : Type 0 where
  pub no_placeholder : (id i : ℕ) → variant_of r id ≢ some (placeholder_type i)
  pub no_error_alias : (id target : ℕ) → target_of r id ≡ some target → target ≢ error_type
  pub no_error_optional : (id w : ℕ) → variant_of r id ≡ some (optional_type w) → w ≢ error_type

and_parts : (a b : Bool) → (a && b) ≡ true → (a ≡ true) × (b ≡ true)
and_parts true b h = (refl, h)
and_parts false b h = cc

or_parts : (a b : Bool) → (a || b) ≡ true → (a ≡ true) ⊎ (b ≡ true)
or_parts true b h = inl refl
or_parts false b h = inr h

pub some_eq {ℓ} : {A : Type ℓ} {a b : A} → some a ≡ some b → a ≡ b
some_eq h = cc

module _ (V : Type 0) (s : ℕ → StructSymbol) (r : TypeRegistry) (Means : ℕ → V → Type 0)
    (laws : IsMeaning V s r Means) (settled : IsSettled r) where
  -- An alias means what its target means, and the target is no error where the alias is none.
  record Same (a b : ℕ) : Type 0 where
    to_target : (v : V) → Means a v → Means b v
    from_target : (v : V) → Means b v → Means a v
    no_error : a ≢ error_type → b ≢ error_type

  follow_alias-Same : (n a b : ℕ) → follow_alias n r a ≡ some b → Same a b
  unfolding follow_alias
  follow_alias-Same zero a b h = cc
  follow_alias-Same (suc n) a b h = elim (Option-cases (target_of r a)) [
    | inl e ↦
        let same : a ≡ b = cc (rw (e, follow_alias) at h) in
        rw same (record { to_target = λ v m. m; from_target = λ v m. m; no_error = λ ne. ne })
    | inr (t, e) ↦
        let rest = follow_alias-Same n t b (rw (e, follow_alias) at h) in
        record {
          to_target = λ v m. rest.to_target v (laws.alias_to a t e v m);
          from_target = λ v m. laws.alias_from a t e v (rest.from_target v m);
          no_error = λ ne. rest.no_error (settled.no_error_alias a t e);
        }
  ]

  abbrev Below : ℕ → ℕ → Type 0
  Below a b = (v : V) → Means a v → Means b v

  contains_all-contains :
      (xs ys : List ℕ) (x : ℕ)
      → contains_all xs ys ≡ true
      → contains x xs ≡ true
      → contains x ys ≡ true
  unfolding contains_all contains
  contains_all-contains [] ys x h k = cc
  contains_all-contains (z ∷ xs) ys x h k =
      let (here, there) = and_parts (contains z ys) (contains_all xs ys) h in
      elim (or_parts (x == z) (contains x xs) k) [
        | inl e ↦ let same : x ≡ z = ground arith in rw same here
        | inr t ↦ contains_all-contains xs ys x there t
      ]

  subset_of_variants-Below :
      (again : ℕ → ℕ → Option Bool) (sub super : ℕ) (v w : TypeVariant)
      → ((x y : ℕ) → again x y ≡ some true → y ≢ error_type → Below x y)
      → variant_of r sub ≡ some v
      → variant_of r super ≡ some w
      → subset_of_variants again s sub super v w ≡ some true
      → Below sub super
  unfolding subset_of_variants
  subset_of_variants-Below again sub super (union_type xs) (union_type ys) rec at_sub at_super h =
      λ v m.
        let (x, c, mx) = laws.union_member sub xs at_sub v m in
        laws.member_union super ys at_super v x (contains_all-contains xs ys x (some_eq h) c) mx
  subset_of_variants-Below again sub super _ (union_type ys) rec at_sub at_super h =
      λ v m. laws.member_union super ys at_super v sub (some_eq h) m
  subset_of_variants-Below again sub super (union_type xs) _ rec at_sub at_super h = cc
  subset_of_variants-Below again sub super (optional_type x) (optional_type y) rec at_sub at_super
        h =
      elim (Bool-cases (sub == nil_type)) [
        | inl e ↦
            let same : sub ≡ nil_type = ground arith in
            λ v m. laws.nil_optional super y at_super v (rw same at m)
        | inr e ↦
            let inner = rec x y (rw e at h) (settled.no_error_optional super y at_super) in
            λ v m. elim (laws.optional_of sub x at_sub v m) [
              | inl n ↦ laws.nil_optional super y at_super v n
              | inr w ↦ laws.wrapped_optional super y at_super v (inner v w)
            ]
      ]
  subset_of_variants-Below again sub super _ (optional_type y) rec at_sub at_super h =
      elim (Bool-cases (sub == nil_type)) [
        | inl e ↦
            let same : sub ≡ nil_type = ground arith in
            λ v m. laws.nil_optional super y at_super v (rw same at m)
        | inr e ↦
            let inner = rec sub y (rw e at h) (settled.no_error_optional super y at_super) in
            λ v m. laws.wrapped_optional super y at_super v (inner v m)
      ]
  subset_of_variants-Below again sub super (struct_type x xs) (struct_type y ys) rec at_sub at_super
        h =
      elim (Bool-cases (not (s x).is_interface && (s y).is_interface)) [
        | inl e ↦ λ v m. laws.implements sub x super xs at_sub (some_eq (rw e at h)) v m
        | inr e ↦ cc (rw e at h)
      ]
  subset_of_variants-Below again sub super (template_variable_type n none) (struct_type y ys) rec
        at_sub at_super h =
      cc
  subset_of_variants-Below again sub super (template_variable_type n (some t)) (struct_type y ys)
        rec at_sub at_super h =
      elim (Bool-cases (s y).is_interface) [
        | inl e ↦
            let holds : (t.type_id == super) ≡ true = some_eq (rw e at h) in
            let same : t.type_id ≡ super = ground arith in
            λ v m. rw same at (laws.constrained sub t at_sub v m)
        | inr e ↦ cc (rw e at h)
      ]
  subset_of_variants-Below again sub super (placeholder_type i) _ rec at_sub at_super h =
      absurd (settled.no_placeholder sub i at_sub)
  subset_of_variants-Below again sub super _ _ rec at_sub at_super h = cc

  -- The comparisons of identities, behind the aliases.
  at_once :
      (sub super : ℕ)
      → (sub == super
          || (sub == never_type || super == any_type)
          || (sub == error_type || super == error_type))
        ≡ true
      → super ≢ error_type
      → Below sub super
  at_once sub super h ne v m =
      elim (or_parts (sub == super || (sub == never_type || super == any_type))
        (sub == error_type || super == error_type) h) [
          | inl c ↦ elim (or_parts (sub == super) (sub == never_type || super == any_type) c) [
            | inl e ↦ let same : sub ≡ super = ground arith in rw same at m
            | inr d ↦ elim (or_parts (sub == never_type) (super == any_type) d) [
              | inl e ↦
                  let same : sub ≡ never_type = ground arith in
                  absurd (laws.never_empty v (rw same at m))
              | inr e ↦ let same : super ≡ any_type = ground arith in rw same (laws.any_full v)
            ]
          ]
          | inr c ↦ elim (or_parts (sub == error_type) (super == error_type) c) [
            | inl e ↦
                let same : sub ≡ error_type = ground arith in
                absurd (laws.error_empty v (rw same at m))
            | inr e ↦ let same : super ≡ error_type = ground arith in absurd (ne same)
          ]
        ]

  -- Where `IsTypeSubsetOf` says yes, every value of the first type is one of the second, whatever
  -- types mean, as long as aliases mean their targets, unions their members, optionals nil and the
  -- wrapped type, structs no more than the interfaces they implement, type variables no more than
  -- their constraints, `Never` and the error type nothing and `Any` everything. The second type is
  -- not the error type, and the registry has no placeholders, and no alias or optional of the error
  -- type.
  pub is_type_subset_of-Below :
      (n a b : ℕ)
      → is_type_subset_of n s r a b ≡ some true
      → b ≢ error_type
      → (v : V) → Means a v
      → Means b v
  unfolding is_type_subset_of
  is_type_subset_of-Below zero a b h ne = cc
  is_type_subset_of-Below (suc n) a b h ne = elim (Bool-cases (a == b)) [
    | inl e ↦ let same : a ≡ b = ground arith in λ v m. rw same at m
    | inr e ↦
        let (sub, e₁, h₁) = bind-eq-some (follow_alias (suc n) r a) _ (rw e at h) in
        let (super, e₂, h₂) = bind-eq-some (follow_alias (suc n) r b) _ h₁ in
        let first = follow_alias-Same (suc n) a sub e₁ in
        let second = follow_alias-Same (suc n) b super e₂ in
        let inner = behind sub super h₂ (second.no_error ne) (is_type_subset_of-Below n) in
        λ v m. second.from_target v (inner v (first.to_target v m))
  ]
    where
      behind :
          (sub super : ℕ)
          → (if sub == super
                || (sub == never_type || super == any_type)
                || (sub == error_type || super == error_type)
              then some true
              else (variant_of r sub >>= λ v. variant_of r super >>= λ w.
                  subset_of_variants (λ x y. is_type_subset_of n s r x y) s sub super v w))
            ≡ some true
          → super ≢ error_type
          → ((x y : ℕ) → is_type_subset_of n s r x y ≡ some true → y ≢ error_type → Below x y)
          → Below sub super
      behind sub super k no_error rec =
          elim (Bool-cases (
            sub == super
            || (sub == never_type || super == any_type)
            || (sub == error_type || super == error_type))) [
              | inl c ↦ at_once sub super c no_error
              | inr c ↦
                  let (v, at_sub, k₁) = bind-eq-some (variant_of r sub) _ (rw c at k) in
                  let (w, at_super, k₂) = bind-eq-some (variant_of r super) _ k₁ in
                  subset_of_variants-Below (λ x y. is_type_subset_of n s r x y) sub super v w rec
                    at_sub at_super k₂
            ]
