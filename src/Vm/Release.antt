-- ===== src/Vm/Release.antt =====
-- The loop of releases: it ends, and goes wrong nowhere where the counts cover the references.
use nib_lang.Base.{
  ℕ, zero, suc, ◌+◌, ◌≤◌, List, [], ◌∷◌, ◌++◌, Option, none, some, ◌≡◌, refl, ap, arith, length,
  set, length-append,
}
use nib_lang.Vm.{Value, ref_of, held_values, Cell, freed, live, Heap}
use nib_lang.Vm.Faults.{Result, ok, fault, ◌>>=◌}
use nib_lang.Vm.Heap.{
  cell_at, drop_cell, drop_ref, drop_one, release, held_count, rc_decrement, rc_decrement_all,
}
use nib_lang.Vm.Counts.{
  Covers, points_to, refs, refs-append, cell_size, held_count-set, live_below, drop_one-Dropped,
}

-- The calls that wait, with enough fuel, all succeed.
pub release-Covers :
    (fuel : ℕ) (pending : List Value) (outer : ℕ → ℕ) (h : Heap)
    → length pending + held_count h ≤ fuel
    → Covers (λ a. refs a pending + outer a) h
    → (h' : Heap) × (release fuel pending h ≡ ok h') × Covers outer h'
unfolding release
release-Covers fuel [] outer h f k = (h, refl, λ a. let before = k a in omega arith)
release-Covers zero (v ∷ pending) outer h f k = absurd (omega arith)
release-Covers (suc fuel) (v ∷ pending) outer h f k =
    let d =
      drop_one-Dropped v (λ a. refs a pending + outer a) h (λ a. let before = k a in omega arith) in
    let sizes = length-append d.given_up pending in
    let fewer = d.fewer in
    let (h', e, covers) =
      release-Covers fuel (d.given_up ++ pending) outer d.heap (omega arith)
        (λ a. let both = refs-append a d.given_up pending in let c = d.covers a in omega arith) in
    (h', rw (d.result, release) e, covers)

-- `rc_decrement` of a reference that is covered ends, without a failed assertion and without
-- touching a freed cell, deleters included, and the references that are left stay covered.
pub rc_decrement-Covers :
    (v : Value) (outer : ℕ → ℕ) (h : Heap)
    → Covers (λ a. points_to a (ref_of v) + outer a) h
    → (h' : Heap) × (rc_decrement v h ≡ ok h') × Covers outer h'
unfolding rc_decrement
rc_decrement-Covers v outer h k =
    release-Covers (1 + held_count h) (v ∷ []) outer h (omega arith)
      (λ a. let before = k a in omega arith)

pub rc_decrement_all-Covers :
    (vs : List Value) (outer : ℕ → ℕ) (h : Heap)
    → Covers (λ a. refs a vs + outer a) h
    → (h' : Heap) × (rc_decrement_all vs h ≡ ok h') × Covers outer h'
unfolding rc_decrement_all
rc_decrement_all-Covers [] outer h k = (h, refl, λ a. let before = k a in omega arith)
rc_decrement_all-Covers (v ∷ vs) outer h k =
    let (h₁, e₁, k₁) =
      rc_decrement-Covers v (λ a. refs a vs + outer a) h (λ a. let before = k a in omega arith) in
    let (h₂, e₂, k₂) = rc_decrement_all-Covers vs outer h₁ k₁ in
    (h₂, rw (e₁, rc_decrement_all) e₂, k₂)

-- Whatever the heap, no more values wait after a call than it held.
drop_ref-fewer :
    (h : Heap) (r : Option ℕ) (vs : List Value) (h' : Heap)
    → drop_ref h r ≡ ok (vs, h')
    → length vs + held_count h' ≤ held_count h
unfolding drop_ref drop_cell
drop_ref-fewer h none vs h' e =
    let vs_eq : vs ≡ [] = cc in let h_eq : h' ≡ h = cc in rw (vs_eq, h_eq) (omega arith)
drop_ref-fewer h (some a) vs h' e₀ = at_cell (cell_at h a) refl e₀
  where
    at_cell :
        (c : Cell)
        → cell_at h a ≡ c
        → drop_cell h a c ≡ ok (vs, h')
        → length vs + held_count h' ≤ held_count h
    at_cell freed r e = cc
    at_cell (live zero c) r e = cc
    at_cell (live (suc zero) c) r e =
        let sizes = held_count-set a h freed (live_below h a 1 c r) in
        let was = ap cell_size r in
        let vs_eq : vs ≡ held_values c = cc in
        let h_eq : h' ≡ set h a freed = cc in rw (vs_eq, h_eq) (omega arith)
    at_cell (live (suc (suc n)) c) r e =
        let sizes = held_count-set a h (live (suc n) c) (live_below h a (suc (suc n)) c r) in
        let was = ap cell_size r in
        let vs_eq : vs ≡ [] = cc in
        let h_eq : h' ≡ set h a (live (suc n) c) = cc in rw (vs_eq, h_eq) (omega arith)

-- The fuel of `rc_decrement` is enough: more changes nothing, whatever the heap.
pub release_enough :
    (fuel more : ℕ) (pending : List Value) (h : Heap)
    → length pending + held_count h ≤ fuel
    → release (fuel + more) pending h ≡ release fuel pending h
unfolding release drop_one
release_enough fuel more [] h f = refl
release_enough zero more (v ∷ pending) h f = absurd (omega arith)
release_enough (suc fuel) more (v ∷ pending) h f =
    let more_fuel : suc fuel + more ≡ suc (fuel + more) = omega arith in
    rw (more_fuel, release) (go (drop_ref h (ref_of v)) refl (release_enough fuel more))
  where
    go :
        (r : Result (List Value × Heap))
        → drop_ref h (ref_of v) ≡ r
        → ((ws : List Value) (k : Heap)
            → length ws + held_count k ≤ fuel
            → release (fuel + more) ws k ≡ release fuel ws k)
        → (r >>= λ (vs, h'). release (fuel + more) (vs ++ pending) h')
          ≡ (r >>= λ (vs, h'). release fuel (vs ++ pending) h')
    go (fault x) e rec = refl
    go (ok (vs, h')) e rec =
        let fewer = drop_ref-fewer h (ref_of v) vs h' e in
        let sizes = length-append vs pending in rec (vs ++ pending) h' (omega arith)
