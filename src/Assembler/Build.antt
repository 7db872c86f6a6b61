-- ===== src/Assembler/Build.antt =====
-- `Assembler::Build`, and what each of its three loops does to the buffer.
use Prim.Native.String.{String}
use nib_lang.Base.{
  ℕ, ◌+◌, ◌%◌, ◌^◌, ◌≤◌, List, [], ◌∷◌, Option, some, ◌≡◌, refl, inl, inr, ◌∙◌, arith, length,
  get_or, All, Bytes, read_word, ◌>>=◌, Option-cases,
}
use nib_lang.Assembler.{Assembler, find_label, find_idx}
use nib_lang.Assembler.Patch.{
  put_word, Apart, Outside, Spread, length-put_word, get_or-put_word, read_word-put_word-Apart,
  read_word-put_word, patch_all,
}

abbrev pub by_label : List (ℕ × String) → List (String × ℕ)
by_label [] = []
by_label ((pc, l) ∷ es) = (l, pc) ∷ by_label es

-- The second part of the result is what `metadata->max_local_index` receives.
unfoldable pub build : Assembler → List (ℕ × ℕ) → List (ℕ × ℕ) → Option (Bytes × ℕ)
build a call_link_mapping virtual_object_ids = do
  jumps ← patch_all (λ l. find_label l a.label_to_location) (by_label a.patch_locations) a.bytes
  calls ← patch_all (λ i. find_idx i call_link_mapping) a.call_patch_locations jumps
  result ← patch_all (λ i. find_idx i virtual_object_ids) a.virtual_patch_locations calls
  some (result, a.max_local_index)

abbrev pub addresses_of {ℓ} : {K : Type ℓ} → List (K × ℕ) → List ℕ
addresses_of [] = []
addresses_of ((k, pc) ∷ es) = pc ∷ addresses_of es

module _ {ℓ} {K : Type ℓ} where
  -- Every entry is known to `find`, and its word in `r` is its value.
  abbrev pub Reads : (K → Option ℕ) → Bytes → List (K × ℕ) → Type 0
  Reads find r [] = Unit
  Reads find r ((k, pc) ∷ es) =
      ((v : ℕ) × (find k ≡ some v) × (read_word r pc ≡ v % 2 ^ 32)) × Reads find r es

  abbrev pub Known : (K → Option ℕ) → List (K × ℕ) → Type 0
  Known find [] = Unit
  Known find ((k, pc) ∷ es) = ((v : ℕ) × (find k ≡ some v)) × Known find es

  patch-inv :
      (find : K → Option ℕ) (k : K) (pc : ℕ) (es : List (K × ℕ)) (bs : Bytes) {r : Bytes}
      → patch_all find ((k, pc) ∷ es) bs ≡ some r
      → (v : ℕ) × (find k ≡ some v) × (patch_all find es (put_word bs pc v) ≡ some r)
  unfolding patch_all
  patch-inv find k pc es bs h = elim (Option-cases (find k)) [
    | inl e ↦ cc
    | inr (v, e) ↦ (v, e, rw (e, patch_all) at h)
  ]

  pub length-patch_all :
      (find : K → Option ℕ) (es : List (K × ℕ)) (bs : Bytes) {r : Bytes}
      → patch_all find es bs ≡ some r
      → length r ≡ length bs
  unfolding patch_all
  length-patch_all find [] bs h = ground arith
  length-patch_all find ((k, pc) ∷ es) bs h =
      let (v, e, rest) = patch-inv find k pc es bs h in
      length-patch_all find es (put_word bs pc v) rest ∙ length-put_word bs pc v

  pub get_or-patch_all :
      (find : K → Option ℕ) (es : List (K × ℕ)) (bs : Bytes) {r : Bytes} (i : ℕ)
      → patch_all find es bs ≡ some r
      → All (Outside i) (addresses_of es)
      → get_or r i 0 ≡ get_or bs i 0
  unfolding patch_all
  get_or-patch_all find [] bs i h o = ground arith
  get_or-patch_all find ((k, pc) ∷ es) bs i h o =
      let (v, e, rest) = patch-inv find k pc es bs h in
      get_or-patch_all find es (put_word bs pc v) i rest o.1 ∙ get_or-put_word bs pc v i o.0

  pub read_word-patch_all :
      (find : K → Option ℕ) (es : List (K × ℕ)) (bs : Bytes) {r : Bytes} (p : ℕ)
      → patch_all find es bs ≡ some r
      → All (Apart p) (addresses_of es)
      → read_word r p ≡ read_word bs p
  unfolding patch_all
  read_word-patch_all find [] bs p h o = ground arith
  read_word-patch_all find ((k, pc) ∷ es) bs p h o =
      let (v, e, rest) = patch-inv find k pc es bs h in
      read_word-patch_all find es (put_word bs pc v) p rest o.1
      ∙ read_word-put_word-Apart bs pc v p (flip o.0)
    where
      flip : Apart p pc → Apart pc p
      flip (inl h) = inr h
      flip (inr h) = inl h

  pub patch_all-Reads :
      (find : K → Option ℕ) (es : List (K × ℕ)) (bs : Bytes) {r : Bytes}
      → patch_all find es bs ≡ some r
      → All (λ p. p + 4 ≤ length bs) (addresses_of es)
      → Spread (addresses_of es)
      → Reads find r es
  unfolding patch_all
  patch_all-Reads find [] bs h f s = tt
  patch_all-Reads find ((k, pc) ∷ es) bs h f s =
      let (v, e, rest) = patch-inv find k pc es bs h in
      let word = read_word-patch_all find es (put_word bs pc v) pc rest s.0 in
      (
        (v, e, word ∙ read_word-put_word bs pc v f.0),
        patch_all-Reads find es (put_word bs pc v) rest (rw (length-put_word bs pc v) f.1) s.1,
      )

  pub patch_all_total :
      (find : K → Option ℕ) (es : List (K × ℕ)) (bs : Bytes)
      → Known find es
      → (r : Bytes) × (patch_all find es bs ≡ some r)
  unfolding patch_all
  patch_all_total find [] bs k = (bs, refl)
  patch_all_total find ((k, pc) ∷ es) bs known =
      let (r, e) = patch_all_total find es (put_word bs pc known.0.0) known.1 in
      (r, rw (known.0.1, patch_all) e)

module _ {ℓ κ} {K : Type ℓ} {L : Type κ} where
  -- A later loop over other windows keeps what an earlier one wrote.
  pub Reads-patch_all :
      (find : K → Option ℕ) (es : List (K × ℕ)) (other : L → Option ℕ) (ls : List (L × ℕ))
      (bs : Bytes) {r : Bytes}
      → patch_all other ls bs ≡ some r
      → All (λ p. All (Apart p) (addresses_of ls)) (addresses_of es)
      → Reads find bs es
      → Reads find r es
  Reads-patch_all find [] other ls bs h a t = tt
  Reads-patch_all find ((k, pc) ∷ es) other ls bs h a t = (
    (t.0.0, t.0.1, read_word-patch_all other ls bs pc h a.0 ∙ t.0.2),
    Reads-patch_all find es other ls bs h a.1 t.1,
  )
