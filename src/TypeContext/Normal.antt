-- ===== src/TypeContext/Normal.antt =====
-- The normal form of unions, and the symmetry of `AreDisjointTypes`.
use nib_lang.Base.{
  ℕ, ◌<◌, Bool, true, false, not, ◌&&◌, ◌||◌, List, [], ◌∷◌, Option, none, some, ◌≡◌, refl, ap, ◌∙◌,
  inl, inr, ◌==◌, if◌then◌else◌, arith, All, Bool-cases,
}
use nib_lang.Types.{TypeRegistry}
use nib_lang.TypeContext.{
  StructSymbol, never_type, nil_type, contains, struct_symbol, implemented_by, both_interfaces,
  are_disjoint_types,
}
use nib_lang.TypeContext.Union.{
  set_of, all_members, keep_if, is_absorbed, flatten_subtypes_union, normalize,
}
use nib_lang.TypeContext.Order.{IsSorted, set_of-IsSorted, contains-set_of}

pub All-keep_if :
    (P : ℕ → Type 0) (keep : ℕ → Bool) (xs : List ℕ) → All P xs → All P (keep_if keep xs)
unfolding keep_if
All-keep_if P keep [] a = tt
All-keep_if P keep (x ∷ xs) (p, a) =
    elim (keep x) as (λ b. All P (if b then x ∷ keep_if keep xs else keep_if keep xs)) [
      | true ↦ (p, All-keep_if P keep xs a)
      | false ↦ All-keep_if P keep xs a
    ]

keep_if-IsSorted : (keep : ℕ → Bool) (xs : List ℕ) → IsSorted xs → IsSorted (keep_if keep xs)
unfolding keep_if
keep_if-IsSorted keep [] h = tt
keep_if-IsSorted keep (x ∷ xs) (a, h) =
    elim (keep x) as (λ b. IsSorted (if b then x ∷ keep_if keep xs else keep_if keep xs)) [
      | true ↦ (All-keep_if (λ y. x < y) keep xs a, keep_if-IsSorted keep xs h)
      | false ↦ keep_if-IsSorted keep xs h
    ]

pub contains-keep_if :
    (z : ℕ) (keep : ℕ → Bool) (xs : List ℕ)
    → contains z (keep_if keep xs) ≡ (keep z && contains z xs)
unfolding contains keep_if
contains-keep_if z keep [] = elim (keep z) as (λ b. false ≡ (b && false)) [
  | true ↦ refl
  | false ↦ refl
]
contains-keep_if z keep (x ∷ xs) =
    let rest = contains-keep_if z keep xs in
    elim (Bool-cases (z == x)) [
      | inl e ↦
          let same : z ≡ x = ground arith in
          elim (Bool-cases (keep x)) [
            | inl k ↦ let k' : keep z ≡ true = rw same k in rw (k, e, k')
            | inr k ↦ let k' : keep z ≡ false = rw same k in rw (k, rest, k')
          ]
      | inr e ↦ elim (Bool-cases (keep x)) [ inl k ↦ rw (k, e, rest) | inr k ↦ rw (k, e, rest) ]
    ]

-- The members of a union: in order, once each, neither `Never` nor nil.
pub record IsNormal (types : List ℕ) : Type 0 where
  pub sorted : IsSorted types
  pub no_never : contains never_type types ≡ false
  pub no_nil : contains nil_type types ≡ false

dropped : (z : ℕ) (xs : List ℕ) → contains z (keep_if (λ id. not (id == z)) xs) ≡ false
dropped z xs =
    let same : (z == z) ≡ true = ground arith in
    contains-keep_if z (λ id. not (id == z)) xs ∙ rw same refl

still_dropped :
    (z : ℕ) (keep : ℕ → Bool) (xs : List ℕ)
    → contains z xs ≡ false
    → contains z (keep_if keep xs) ≡ false
still_dropped z keep xs h =
    contains-keep_if z keep xs
    ∙ elim (keep z) as (λ b. (b && contains z xs) ≡ false) [ true ↦ h | false ↦ refl ]

-- The normalized set, and the flag for nil.
pub normalize-IsNormal :
    (s : ℕ → StructSymbol) (r : TypeRegistry) (types : List ℕ)
    → IsNormal (normalize s r types).0
      × ((normalize s r types).1 ≡ contains nil_type (all_members r types))
unfolding normalize flatten_subtypes_union
normalize-IsNormal s r types =
    let all = set_of (all_members r types) in
    let some_values = keep_if (λ id. not (id == never_type)) all in
    let no_nils = keep_if (λ id. not (id == nil_type)) some_values in
    let keep = λ (id : ℕ). not (is_absorbed s r no_nils id) in
    (
      record {
        sorted = keep_if-IsSorted keep no_nils (
            keep_if-IsSorted (λ id. not (id == nil_type)) some_values
              (keep_if-IsSorted (λ id. not (id == never_type)) all
                (set_of-IsSorted (all_members r types))));
        no_never = still_dropped never_type keep no_nils (
            still_dropped never_type (λ id. not (id == nil_type)) some_values
              (dropped never_type all));
        no_nil = still_dropped nil_type keep no_nils (dropped nil_type some_values);
      },
      contains-keep_if nil_type (λ id. not (id == never_type)) all
          ∙ contains-set_of nil_type (all_members r types),
    )

and_comm : (a b : Bool) → (a && b) ≡ (b && a)
and_comm true true = refl
and_comm true false = refl
and_comm false true = refl
and_comm false false = refl

or_comm : (a b : Bool) → (a || b) ≡ (b || a)
or_comm true true = refl
or_comm true false = refl
or_comm false true = refl
or_comm false false = refl

both_interfaces_comm : (x y : Option StructSymbol) → both_interfaces x y ≡ both_interfaces y x
both_interfaces_comm none none = refl
both_interfaces_comm none (some y) = refl
both_interfaces_comm (some x) none = refl
both_interfaces_comm (some x) (some y) = and_comm x.is_interface y.is_interface

-- `AreDisjointTypes` does not depend on the order of its arguments.
pub are_disjoint_types_comm :
    (s : ℕ → StructSymbol) (r : TypeRegistry) (a b : ℕ)
    → are_disjoint_types s r a b ≡ are_disjoint_types s r b a
unfolding are_disjoint_types
are_disjoint_types_comm s r a b =
    let x = struct_symbol s r a in
    let y = struct_symbol s r b in
    let same_test : (a == b) ≡ (b == a) = ground arith in
    let shared : (both_interfaces x y || (implemented_by a x y || implemented_by b y x))
        ≡ (both_interfaces y x || (implemented_by b y x || implemented_by a x y)) =
      ap (λ t. t || (implemented_by a x y || implemented_by b y x)) (both_interfaces_comm x y)
      ∙ ap (λ t. both_interfaces y x || t)
          (or_comm (implemented_by a x y) (implemented_by b y x)) in
    rw (same_test, shared)
