-- ===== src/TypeContext/Order.antt =====
-- The order and the repetition of the arguments of `GetUnionOf` do not matter.
use nib_lang.Base.{
  ℕ, ◌<◌, Bool, true, false, ◌||◌, List, [], ◌∷◌, ◌++◌, ◌≡◌, refl, sym, ap, ◌∙◌, ◌⊎◌, inl, inr,
  ◌==◌, ltb, if◌then◌else◌, arith, All, Bool-cases,
}
use nib_lang.Types.{TypeRegistry}
use nib_lang.TypeContext.{StructSymbol, contains}
use nib_lang.TypeContext.Union.{
  set_insert, set_of, members_of, all_members, normalize, get_union_of,
}

-- In order, without repetition.
abbrev pub IsSorted : List ℕ → Type 0
IsSorted [] = Unit
IsSorted (x ∷ xs) = All (λ y. x < y) xs × IsSorted xs

All-weaken : (a b : ℕ) (xs : List ℕ) → a < b → All (λ y. b < y) xs → All (λ y. a < y) xs
All-weaken a b [] h k = tt
All-weaken a b (x ∷ xs) h (k, ks) = (omega arith, All-weaken a b xs h ks)

pub All-set_insert :
    (P : ℕ → Type 0) (id : ℕ) (xs : List ℕ) → P id → All P xs → All P (set_insert id xs)
unfolding set_insert
All-set_insert P id [] p k = (p, tt)
All-set_insert P id (x ∷ xs) p (k, ks) =
    let rest = All-set_insert P id xs p ks in
    elim (ltb id x)
      as (λ b.
        All P (if b then id ∷ x ∷ xs else if id == x then x ∷ xs else x ∷ set_insert id xs)) [
          | true ↦ (p, (k, ks))
          | false ↦ elim (id == x) as (λ b. All P (if b then x ∷ xs else x ∷ set_insert id xs)) [
            | true ↦ (k, ks)
            | false ↦ (k, rest)
          ]
        ]

set_insert-IsSorted : (id : ℕ) (xs : List ℕ) → IsSorted xs → IsSorted (set_insert id xs)
unfolding set_insert
set_insert-IsSorted id [] h = (tt, tt)
set_insert-IsSorted id (x ∷ xs) (a, h) =
    let rest = set_insert-IsSorted id xs h in
    elim (Bool-cases (ltb id x)) [
      | inl t ↦ rw t ((ground arith, All-weaken id x xs (ground arith) a), (a, h))
      | inr f ↦ elim (Bool-cases (id == x)) [
        | inl e ↦ rw (f, e) (a, h)
        | inr e ↦ rw (f, e) (All-set_insert (λ y. x < y) id xs (ground arith) a, rest)
      ]
    ]

pub set_of-IsSorted : (xs : List ℕ) → IsSorted (set_of xs)
unfolding set_of
set_of-IsSorted [] = tt
set_of-IsSorted (x ∷ xs) = set_insert-IsSorted x (set_of xs) (set_of-IsSorted xs)

or_same : (a b : Bool) → (a || (a || b)) ≡ (a || b)
or_same true b = refl
or_same false b = refl

or_swap : (a b c : Bool) → (a || (b || c)) ≡ (b || (a || c))
or_swap true true c = refl
or_swap true false c = refl
or_swap false b c = refl

or_true : (a b : Bool) → (a || b) ≡ true → (a ≡ true) ⊎ (b ≡ true)
or_true true b h = inl refl
or_true false b h = inr h

true_or : (a b : Bool) → b ≡ true → (a || b) ≡ true
true_or true b h = refl
true_or false b h = h

pub both_ways : (a b : Bool) → (a ≡ true → b ≡ true) → (b ≡ true → a ≡ true) → a ≡ b
both_ways true true f g = refl
both_ways true false f g = cc (f refl)
both_ways false true f g = cc (g refl)
both_ways false false f g = refl

contains-set_insert :
    (y id : ℕ) (xs : List ℕ) → contains y (set_insert id xs) ≡ (y == id || contains y xs)
unfolding contains set_insert
contains-set_insert y id [] = refl
contains-set_insert y id (x ∷ xs) =
    let rest = contains-set_insert y id xs in
    elim (Bool-cases (ltb id x)) [
      | inl t ↦ rw t refl
      | inr f ↦ elim (Bool-cases (id == x)) [
        | inl e ↦
            let same : id ≡ x = ground arith in
            rw (f, e) (rw same (sym (or_same (y == x) (contains y xs))))
        | inr e ↦ rw (f, e, rest) (or_swap (y == x) (y == id) (contains y xs))
      ]
    ]

pub contains-set_of : (y : ℕ) (xs : List ℕ) → contains y (set_of xs) ≡ contains y xs
unfolding contains set_of
contains-set_of y [] = refl
contains-set_of y (x ∷ xs) =
    contains-set_insert y x (set_of xs) ∙ ap (λ b. y == x || b) (contains-set_of y xs)

contains-above : (x z : ℕ) (xs : List ℕ) → All (λ y. x < y) xs → contains z xs ≡ true → x < z
unfolding contains
contains-above x z [] a h = cc
contains-above x z (y ∷ ys) (b, a) h = elim (or_true (z == y) (contains z ys) h) [
  | inl e ↦ ground arith
  | inr t ↦ contains-above x z ys a t
]

contains-absent : (x : ℕ) (xs : List ℕ) → All (λ y. x < y) xs → contains x xs ≡ false
contains-absent x xs a = elim (Bool-cases (contains x xs)) [
  | inl t ↦ let less = contains-above x x xs a t in absurd (omega arith)
  | inr f ↦ f
]

contains_head : (x : ℕ) (xs : List ℕ) → contains x (x ∷ xs) ≡ true
unfolding contains
contains_head x xs = let same : (x == x) ≡ true = ground arith in rw same refl

-- A set is what it contains.
IsSorted-same :
    (xs ys : List ℕ)
    → IsSorted xs
    → IsSorted ys
    → ((z : ℕ) → contains z xs ≡ contains z ys)
    → xs ≡ ys
unfolding contains
IsSorted-same [] [] p q h = refl
IsSorted-same [] (y ∷ ys) p q h = cc (h y, contains_head y ys)
IsSorted-same (x ∷ xs) [] p q h = cc (h x, contains_head x xs)
IsSorted-same (x ∷ xs) (y ∷ ys) (a, p) (b, q) h =
    let left = or_true (x == y) (contains x ys) (sym (h x) ∙ contains_head x xs) in
    let right = or_true (y == x) (contains y xs) (h y ∙ contains_head y ys) in
    let same : x ≡ y = elim left [
      | inl e ↦ ground arith
      | inr t ↦ elim right [
        | inl e ↦ ground arith
        | inr u ↦
            let less = contains-above y x ys b t in
            let more = contains-above x y xs a u in absurd (omega arith)
      ]
    ] in
    let tails = IsSorted-same xs ys p q (tail same) in rw (same, tails)
  where
    tail : x ≡ y → (z : ℕ) → contains z xs ≡ contains z ys
    tail same z = elim (Bool-cases (z == x)) [
      | inl e ↦
          let at_x : z ≡ x = ground arith in
          let at_y : z ≡ y = at_x ∙ same in
          let absent = contains-absent x xs a in
          let missing = contains-absent y ys b in
          ap (λ w. contains w xs) at_x ∙ absent ∙ sym (ap (λ w. contains w ys) at_y ∙ missing)
      | inr e ↦ let f : (z == y) ≡ false = rw (← same) e in rw (e, f) at (h z)
    ]

contains-append :
    (z : ℕ) (xs ys : List ℕ) → contains z (xs ++ ys) ≡ (contains z xs || contains z ys)
unfolding contains
contains-append z [] ys = refl
contains-append z (x ∷ xs) ys =
    elim (z == x) as (λ b. (b || contains z (xs ++ ys)) ≡ ((b || contains z xs) || contains z ys)) [
      | true ↦ refl
      | false ↦ contains-append z xs ys
    ]

module _ (r : TypeRegistry) (z : ℕ) where
  all_members-contains :
      (types : List ℕ)
      → contains z (all_members r types) ≡ true
      → (t : ℕ) × (contains t types ≡ true) × (contains z (members_of r t) ≡ true)
  unfolding contains all_members
  all_members-contains [] h = cc
  all_members-contains (t ∷ types) h =
      let split = sym (contains-append z (members_of r t) (all_members r types)) ∙ h in
      elim (or_true (contains z (members_of r t)) (contains z (all_members r types)) split) [
        | inl e ↦ (t, contains_head t types, e)
        | inr e ↦
            let (u, k, m) = all_members-contains types e in
            (u, true_or (u == t) (contains u types) k, m)
      ]

  contains-all_members :
      (types : List ℕ) (t : ℕ)
      → contains t types ≡ true
      → contains z (members_of r t) ≡ true
      → contains z (all_members r types) ≡ true
  unfolding contains all_members
  contains-all_members [] t k m = cc
  contains-all_members (u ∷ types) t k m =
      contains-append z (members_of r u) (all_members r types)
      ∙ elim (or_true (t == u) (contains t types) k) [
        | inl e ↦
            let same : t ≡ u = ground arith in
            let here : contains z (members_of r u) ≡ true = rw same at m in rw here refl
        | inr there ↦
            true_or (contains z (members_of r u)) (contains z (all_members r types))
              (contains-all_members types t there m)
      ]

-- `GetUnionOf` gives the same type, and the same registry, for arguments that are the same as a set:
-- their order does not matter, nor how often one is given.
pub get_union_of_same :
    (s : ℕ → StructSymbol) (r : TypeRegistry) (types others : List ℕ)
    → ((t : ℕ) → contains t types ≡ contains t others)
    → get_union_of s types r ≡ get_union_of s others r
unfolding get_union_of normalize
get_union_of_same s r types others h =
    let sets : set_of (all_members r types) ≡ set_of (all_members r others) =
      IsSorted-same _ _ (set_of-IsSorted (all_members r types))
        (set_of-IsSorted (all_members r others)) same in
    rw sets
  where
    moved :
        (z : ℕ) (ts us : List ℕ)
        → ((t : ℕ) → contains t ts ≡ contains t us)
        → contains z (all_members r ts) ≡ true
        → contains z (all_members r us) ≡ true
    moved z ts us k e =
        let (t, at_t, m) = all_members-contains r z ts e in
        contains-all_members r z us t (sym (k t) ∙ at_t) m

    same :
        (z : ℕ)
        → contains z (set_of (all_members r types)) ≡ contains z (set_of (all_members r others))
    same z =
        contains-set_of z (all_members r types)
        ∙ both_ways _ _ (moved z types others h) (moved z others types (λ t. sym (h t)))
        ∙ sym (contains-set_of z (all_members r others))
