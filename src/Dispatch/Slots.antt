-- ===== src/Dispatch/Slots.antt =====
-- The slots of the dispatch table: the search for a shift, growth and writes.
use nib_lang.Base.{
  ℕ, zero, suc, ◌+◌, ◌-◌, ◌≤◌, ◌<◌, max, Bool, true, false, List, [], ◌∷◌, Option, none, some, ◌≡◌,
  ◌≢◌, refl, sym, ◌∙◌, ◌⊎◌, inl, inr, arith, ◌==◌, if◌then◌else◌, ltb, length, get_or, set,
  replicate, All, Bool-cases, Option-cases, get_or-append_left, get_or-append_right, get_or-beyond,
  get_or-replicate, length-append, length-replicate, get_or-set_self, get_or-set_ne, length-set,
  ltb→lt,
}
use nib_lang.Dispatch.{
  empty_slot, add32, Entries, occupied, fits, find_shift, max_slot, grow, write_entries,
}

-- Every column is below `w`.
abbrev pub Below : ℕ → Entries → Type 0
Below w es = All (λ e. e.0 < w) es

-- The last of the entries at column `col`: what a row promises.
unfoldable pub entry_of : Entries → ℕ → Option ℕ
entry_of [] col = none
entry_of ((c, f) ∷ es) col = elim (entry_of es col) [
  | some g ↦ some g
  | none ↦ if c == col then some f else none
]

abbrev pub or_else {ℓ} : {A : Type ℓ} → Option A → A → A
or_else none d = d
or_else (some a) d = a

-- The last of the entries that fall on slot `s`.
unfoldable pub entry_at : ℕ → Entries → ℕ → Option ℕ
entry_at shift [] s = none
entry_at shift ((c, f) ∷ es) s = elim (entry_at shift es s) [
  | some g ↦ some g
  | none ↦ if add32 shift c == s then some f else none
]

abbrev pub owner_at : Option ℕ → ℕ → ℕ → ℕ
owner_at none object_id d = d
owner_at (some f) object_id d = object_id

pub grow-length : (t : List ℕ) (s : ℕ) → length (grow t s) ≡ max (length t) (suc s)
unfolding grow
grow-length t s = omega (
  arith,
  length-append t (replicate (suc s - length t) empty_slot),
  length-replicate (suc s - length t) empty_slot,
)

pub get_or-grow : (t : List ℕ) (s i : ℕ) → get_or (grow t s) i empty_slot ≡ get_or t i empty_slot
unfolding grow
get_or-grow t s i = elim (Bool-cases (ltb i (length t))) [
  | inl h ↦
      get_or-append_left t (replicate (suc s - length t) empty_slot) i empty_slot (ltb→lt _ _ h)
  | inr h ↦
      let le : length t ≤ i = ground arith in
      get_or-append_right t (replicate (suc s - length t) empty_slot) i (i - length t) empty_slot
        (omega arith)
      ∙ get_or-replicate (suc s - length t) (i - length t) empty_slot
      ∙ sym (get_or-beyond t i empty_slot le)
]

-- Every slot of the row is in a table of `n` slots.
abbrev pub Inside : ℕ → ℕ → Entries → Type 0
Inside n shift es = All (λ e. add32 shift e.0 < n) es

pub write_entries-length :
    (shift o : ℕ) (es : Entries) (t u : List ℕ)
    → (length (write_entries shift o es (t, u)).0 ≡ length t)
      × (length (write_entries shift o es (t, u)).1 ≡ length u)
unfolding write_entries
write_entries-length shift o [] t u = (refl, refl)
write_entries-length shift o ((c, f) ∷ es) t u =
    let r = write_entries-length shift o es (set t (add32 shift c) f) (set u (add32 shift c) o) in
    (r.0 ∙ length-set t (add32 shift c) f, r.1 ∙ length-set u (add32 shift c) o)

get_or-set_if :
    (t : List ℕ) (i s v : ℕ)
    → i < length t
    → get_or (set t i v) s empty_slot ≡ (if i == s then v else get_or t s empty_slot)
get_or-set_if t i s v h = elim (Bool-cases (i == s)) [
  | inl e ↦ let same : i ≡ s = ground arith in rw (e, ← same) (get_or-set_self t i v empty_slot h)
  | inr e ↦ let differ : i ≢ s = λ c. ground arith in rw e (get_or-set_ne t i s v empty_slot differ)
]

pub write_entries-get :
    (shift o : ℕ) (es : Entries) (t u : List ℕ) (s : ℕ)
    → Inside (length t) shift es
    → length u ≡ length t
    → (get_or (write_entries shift o es (t, u)).0 s empty_slot
        ≡ or_else (entry_at shift es s) (get_or t s empty_slot))
      × (get_or (write_entries shift o es (t, u)).1 s empty_slot
          ≡ owner_at (entry_at shift es s) o (get_or u s empty_slot))
unfolding write_entries entry_at
write_entries-get shift o [] t u s h l = (refl, refl)
write_entries-get shift o ((c, f) ∷ es) t u s (b, h) l =
    let i = add32 shift c in
    let inside : Inside (length (set t i f)) shift es = rw (length-set t i f) h in
    let (rt, ru) =
      write_entries-get shift o es (set t i f) (set u i o) s inside
        (length-set u i o ∙ l ∙ sym (length-set t i f)) in
    let st = get_or-set_if t i s f b in
    let su = get_or-set_if u i s o (omega arith) in
    elim (Option-cases (entry_at shift es s)) [
      | inr (g, e) ↦ (rw (e, entry_at) (rt ∙ rw e), rw (e, entry_at) (ru ∙ rw e))
      | inl e ↦ elim (Bool-cases (i == s)) [
        | inl k ↦
            (rw (e, k, entry_at) (rt ∙ rw (e, st, k)), rw (e, k, entry_at) (ru ∙ rw (e, su, k)))
        | inr k ↦
            (rw (e, k, entry_at) (rt ∙ rw (e, st, k)), rw (e, k, entry_at) (ru ∙ rw (e, su, k)))
      ]
    ]

max_slot-le : (shift : ℕ) (es : Entries) (m : ℕ) → m ≤ max_slot shift es m
unfolding max_slot
max_slot-le shift [] m = omega arith
max_slot-le shift ((c, f) ∷ es) m = omega (arith, max_slot-le shift es (max m (add32 shift c)))

pub max_slot-Inside :
    (n shift : ℕ) (es : Entries) (m : ℕ) → max_slot shift es m < n → Inside n shift es
unfolding max_slot
max_slot-Inside n shift [] m h = tt
max_slot-Inside n shift ((c, f) ∷ es) m h =
    let le = max_slot-le shift es (max m (add32 shift c)) in
    (omega arith, max_slot-Inside n shift es (max m (add32 shift c)) h)

-- A row of columns below `w` grows the table to at most `shift + w` slots.
pub max_slot-bound :
    (w n shift : ℕ) (es : Entries) (m : ℕ)
    → Below w es
    → m < n
    → shift + w ≤ n
    → n ≤ 4294967296
    → max_slot shift es m < n
unfolding max_slot
max_slot-bound w n shift [] m b h k l = h
max_slot-bound w n shift ((c, f) ∷ es) m (b, bs) h k l =
    max_slot-bound w n shift es (max m (add32 shift c)) bs (omega arith) k l

false-true : false ≡ true → ⊥
false-true h = cc

-- A slot that is not occupied reads as empty.
free-empty : (t : List ℕ) (s : ℕ) → occupied t s ≡ false → get_or t s empty_slot ≡ empty_slot
unfolding occupied
free-empty t s h = elim (Bool-cases (ltb s (length t))) [
  | inl k ↦ ground arith
  | inr k ↦ get_or-beyond t s empty_slot (ground arith)
]

unless-true : (b x : Bool) → (elim b [ true ↦ false | false ↦ x ]) ≡ true → (b ≡ false) × (x ≡ true)
unless-true true x h = cc
unless-true false x h = (refl, h)

no_entry : (b : Bool) (f g : ℕ) → b ≡ false → (if b then some f else none) ≡ some g → ⊥
no_entry true f g k e = cc
no_entry false f g k e = cc

hit : (b : Bool) (f g : ℕ) → b ≡ true → (if b then some f else none) ≡ some g → f ≡ g
hit true f g k e = cc
hit false f g k e = cc

pub entry_at-cons :
    (shift c f : ℕ) (es : Entries) (s g : ℕ)
    → entry_at shift ((c, f) ∷ es) s ≡ some g
    → (entry_at shift es s ≡ some g) ⊎ ((add32 shift c ≡ s) × (f ≡ g))
unfolding entry_at
entry_at-cons shift c f es s g h = go (entry_at shift es s) h
  where
    go :
        (o : Option ℕ)
        → (elim o [ some k ↦ some k | none ↦ if add32 shift c == s then some f else none ]) ≡ some g
        → (o ≡ some g) ⊎ ((add32 shift c ≡ s) × (f ≡ g))
    go (some k) e = inl e
    go none e = elim (Bool-cases (add32 shift c == s)) [
      | inl k ↦ inr (ground arith, hit _ f g k e)
      | inr k ↦ absurd (no_entry _ f g k e)
    ]

-- A row that fits falls on empty slots.
pub fits-empty :
    (t : List ℕ) (shift : ℕ) (es : Entries) (s g : ℕ)
    → fits t shift es ≡ true
    → entry_at shift es s ≡ some g
    → get_or t s empty_slot ≡ empty_slot
unfolding fits entry_at
fits-empty t shift [] s g h e = cc
fits-empty t shift ((c, f) ∷ es) s g h e =
    let (free, rest) = unless-true (occupied t (add32 shift c)) (fits t shift es) h in
    elim (entry_at-cons shift c f es s g e) [
      | inl k ↦ fits-empty t shift es s g rest k
      | inr (k, _) ↦ rw (← k) (free-empty t (add32 shift c) free)
    ]

free-beyond : (t : List ℕ) (s : ℕ) → length t ≤ s → occupied t s ≡ false
unfolding occupied
free-beyond t s h = ground arith

-- A row fits behind the table.
pub fits-beyond :
    (w : ℕ) (t : List ℕ) (shift : ℕ) (es : Entries)
    → Below w es
    → length t ≤ shift
    → shift + w ≤ 4294967296
    → fits t shift es ≡ true
unfolding fits
fits-beyond w t shift [] b h k = refl
fits-beyond w t shift ((c, f) ∷ es) (b, bs) h k =
    rw (free-beyond t (add32 shift c) (omega arith), fits) (fits-beyond w t shift es bs h k)

-- The search ends at a shift where the row fits, at most the size of the table.
pub find_shift-fits :
    (w f : ℕ) (t : List ℕ) (shift : ℕ) (es : Entries)
    → Below w es
    → length t + w < 4294967296
    → shift ≤ length t
    → length t < shift + f
    → (d : ℕ) × (find_shift f t es shift ≡ some d) × (fits t d es ≡ true) × (d ≤ length t)
unfolding find_shift
find_shift-fits w zero t shift es b k l e = absurd (omega arith)
find_shift-fits w (suc f) t shift es b k l e = elim (Bool-cases (fits t shift es)) [
  | inl h ↦ (shift, rw (h, find_shift) refl, h, l)
  | inr h ↦
      let before : shift < length t = elim (Bool-cases (ltb shift (length t))) [
        | inl m ↦ ltb→lt _ _ m
        | inr m ↦
            absurd (false-true (sym h ∙ fits-beyond w t shift es b (ground arith) (omega arith)))
      ] in
      let next : add32 shift 1 ≡ suc shift = omega arith in
      let (d, found, fit, le) =
        find_shift-fits w f t (add32 shift 1) es b k (omega arith) (omega arith) in
      (d, rw (h, find_shift) found, fit, le)
]

-- Where no sum wraps, the slots of a row stand apart like its columns.
pub entry_at-column :
    (w shift : ℕ) (es : Entries) (col : ℕ)
    → Below w es
    → col < w
    → shift + w ≤ 4294967296
    → entry_at shift es (add32 shift col) ≡ entry_of es col
unfolding entry_at entry_of
entry_at-column w shift [] col b h k = refl
entry_at-column w shift ((c, f) ∷ es) col (b, bs) h k =
    let same : (add32 shift c == add32 shift col) ≡ (c == col) = ground arith in
    let ih = entry_at-column w shift es col bs h k in
    elim (Option-cases (entry_of es col)) [
      | inr (g, e) ↦ rw (ih ∙ e, e, entry_at, entry_of) refl
      | inl e ↦ rw (ih ∙ e, e, same, entry_at, entry_of) refl
    ]
