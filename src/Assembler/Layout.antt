-- ===== src/Assembler/Layout.antt =====
-- Where the patch windows of a buffer lie, for the methods of `class Assembler`, and what `Build`
-- writes into them.
use Prim.Native.String.{String}
use nib_lang.Base.{
  ℕ, ◌+◌, ◌≤◌, List, [], ◌∷◌, ◌++◌, Option, some, ◌≡◌, ◌∙◌, length, get_or, All, All-map_of, Bytes,
  bind-eq-some,
}
use nib_lang.Assembler.{Assembler, find_label, find_idx}
use nib_lang.Assembler.Patch.{Apart, Outside, Spread, patch_all}
use nib_lang.Assembler.Build.{
  by_label, build, addresses_of, Reads, Known, length-patch_all, get_or-patch_all, patch_all-Reads,
  patch_all_total, Reads-patch_all,
}

-- The addresses that `Build` overwrites, in its order.
abbrev pub addresses : Assembler → List ℕ
addresses a =
    addresses_of (by_label a.patch_locations)
    ++ (addresses_of a.call_patch_locations ++ addresses_of a.virtual_patch_locations)

-- `n` bytes hold the windows at `ps`, which do not meet.
pub record Laid (n : ℕ) (ps : List ℕ) : Type 0 where
  pub fits : All (λ p. p + 4 ≤ n) ps
  pub spread : Spread ps

abbrev pub IsLaidOut : Assembler → Type 0
IsLaidOut a = Laid (length a.bytes) (addresses a)

-- What `Build` made of buffer `a`: every patched word, and every byte outside the windows.
pub record Linked (a : Assembler) (calls objects : List (ℕ × ℕ)) (r : Bytes) : Type 0 where
  pub same_length : length r ≡ length a.bytes
  pub jump_words : Reads (λ l. find_label l a.label_to_location) r (by_label a.patch_locations)
  pub call_words : Reads (λ i. find_idx i calls) r a.call_patch_locations
  pub object_words : Reads (λ i. find_idx i objects) r a.virtual_patch_locations
  pub untouched : (i : ℕ) → All (Outside i) (addresses a) → get_or r i 0 ≡ get_or a.bytes i 0

-- Every label and index that the buffer waits for is known.
pub record Resolvable (a : Assembler) (calls objects : List (ℕ × ℕ)) : Type 0 where
  pub labels : Known (λ l. find_label l a.label_to_location) (by_label a.patch_locations)
  pub call_idx : Known (λ i. find_idx i calls) a.call_patch_locations
  pub object_ids : Known (λ i. find_idx i objects) a.virtual_patch_locations

pub All-split {ℓ κ} :
    {A : Type ℓ} (P : A → Type κ) (xs ys : List A) → All P (xs ++ ys) → All P xs × All P ys
All-split P [] ys a = (tt, a)
All-split P (x ∷ xs) ys a = let (l, r) = All-split P xs ys a.1 in ((a.0, l), r)

Spread-split :
    (xs ys : List ℕ) → Spread (xs ++ ys) → Spread xs × Spread ys × All (λ x. All (Apart x) ys) xs
Spread-split [] ys s = (tt, s, tt)
Spread-split (x ∷ xs) ys s =
    let (l, r, m) = Spread-split xs ys s.1 in
    let (here, there) = All-split (Apart x) xs ys s.0 in ((here, l), r, (there, m))

module _ (a : Assembler) (calls objects : List (ℕ × ℕ)) where
  abbrev jumps_of : List (String × ℕ)
  jumps_of = by_label a.patch_locations

  abbrev find_jump : String → Option ℕ
  find_jump l = find_label l a.label_to_location

  -- The results of the three loops.
  record Loops (r : Bytes) : Type 0 where
    r₁ : Bytes
    r₂ : Bytes
    first : patch_all find_jump jumps_of a.bytes ≡ some r₁
    second : patch_all (λ i. find_idx i calls) a.call_patch_locations r₁ ≡ some r₂
    third : patch_all (λ i. find_idx i objects) a.virtual_patch_locations r₂ ≡ some r

  build-Loops :
      {r : Bytes} {m : ℕ} → build a calls objects ≡ some (r, m) → Loops r × (m ≡ a.max_local_index)
  unfolding build
  build-Loops {r} {m} h =
      let (r₁, e₁, h₁) = bind-eq-some (patch_all find_jump jumps_of a.bytes) _ h in
      let (r₂, e₂, h₂) =
        bind-eq-some (patch_all (λ i. find_idx i calls) a.call_patch_locations r₁) _ h₁ in
      let (r₃, e₃, h₃) =
        bind-eq-some (patch_all (λ i. find_idx i objects) a.virtual_patch_locations r₂) _ h₂ in
      (record { r₁ = r₁; r₂ = r₂; first = e₁; second = e₂; third = cc (e₃, h₃) }, cc h₃)

  Loops-Linked : {r : Bytes} → IsLaidOut a → Loops r → Linked a calls objects r
  Loops-Linked t loops =
      let C = a.call_patch_locations in
      let V = a.virtual_patch_locations in
      let l₁ = length-patch_all find_jump jumps_of a.bytes loops.first in
      let l₂ = length-patch_all _ C loops.r₁ loops.second in
      let l₃ = length-patch_all _ V loops.r₂ loops.third in
      let (fit_j, fit_cv) = All-split _ (addresses_of jumps_of) _ t.fits in
      let (fit_c, fit_v) = All-split _ (addresses_of C) _ fit_cv in
      let (s_j, s_cv, j_cv) = Spread-split (addresses_of jumps_of) _ t.spread in
      let (s_c, s_v, c_v) = Spread-split (addresses_of C) _ s_cv in
      let j_c =
        All-map_of _ _ (addresses_of jumps_of) (λ p h. (All-split (Apart p) (addresses_of C) _ h).0)
          j_cv in
      let j_v =
        All-map_of _ _ (addresses_of jumps_of) (λ p h. (All-split (Apart p) (addresses_of C) _ h).1)
          j_cv in
      let j₁ = patch_all-Reads find_jump jumps_of a.bytes loops.first fit_j s_j in
      let j₂ = Reads-patch_all find_jump jumps_of _ C loops.r₁ loops.second j_c j₁ in
      let c₂ = patch_all-Reads _ C loops.r₁ loops.second (rw l₁ fit_c) s_c in
      record {
        same_length = l₃ ∙ l₂ ∙ l₁;
        jump_words = Reads-patch_all find_jump jumps_of _ V loops.r₂ loops.third j_v j₂;
        call_words = Reads-patch_all _ C _ V loops.r₂ loops.third c_v c₂;
        object_words = patch_all-Reads _ V loops.r₂ loops.third (rw (l₂ ∙ l₁) fit_v) s_v;
        untouched = λ i o.
            let (o_j, o_cv) = All-split (Outside i) (addresses_of jumps_of) _ o in
            let (o_c, o_v) = All-split (Outside i) (addresses_of C) _ o_cv in
            get_or-patch_all _ V loops.r₂ i loops.third o_v
            ∙ get_or-patch_all _ C loops.r₁ i loops.second o_c
            ∙ get_or-patch_all find_jump jumps_of a.bytes i loops.first o_j;
      }

  pub build-Linked :
      {r : Bytes} {m : ℕ}
      → IsLaidOut a
      → build a calls objects ≡ some (r, m)
      → Linked a calls objects r × (m ≡ a.max_local_index)
  build-Linked t h = let (loops, e) = build-Loops h in (Loops-Linked t loops, e)

  -- `Build` does not abort when every label, call and object that is waited for is known.
  pub build_total :
      Resolvable a calls objects
      → (r : Bytes) × (build a calls objects ≡ some (r, a.max_local_index))
  unfolding build
  build_total k =
      let (r₁, e₁) = patch_all_total find_jump jumps_of a.bytes k.labels in
      let (r₂, e₂) = patch_all_total _ a.call_patch_locations r₁ k.call_idx in
      let (r₃, e₃) = patch_all_total _ a.virtual_patch_locations r₂ k.object_ids in
      (r₃, rw (e₁, e₂, e₃))
