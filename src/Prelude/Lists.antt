-- ===== src/Prelude/Lists.antt =====
-- Lists over the native numbers: indexing, updates in place, and predicates on all elements.
use Prim.Native.Nat.{ℕ, zero, suc, ◌+◌, ◌≤◌, ◌<◌}
use mathlib.Core.Path.{◌≡◌, refl, sym, ap}
use mathlib.Core.Logic.{◌≢◌}
use mathlib.Core.Bool.{Bool, true, false}
use mathlib.Core.Option.{Option, none, some}
use mathlib.Core.List.{List, [], ◌∷◌, ◌++◌}
use native.Mathlib.Omega.{arith}

module _ {ℓ} {A : Type ℓ} where
  abbrev pub length : List A → ℕ
  length [] = 0
  length (x ∷ xs) = suc (length xs)

  -- `vector::empty`
  abbrev pub is_empty : List A → Bool
  is_empty [] = true
  is_empty (x ∷ xs) = false

  -- `vector::operator[]`; `none` is an access out of range.
  abbrev pub get_elem? : List A → ℕ → Option A
  get_elem? [] i = none
  get_elem? (x ∷ xs) zero = some x
  get_elem? (x ∷ xs) (suc i) = get_elem? xs i

  -- A change of the element at an index; out of range nothing changes.
  abbrev pub modify : List A → ℕ → (A → A) → List A
  modify [] i f = []
  modify (x ∷ xs) zero f = f x ∷ xs
  modify (x ∷ xs) (suc i) f = x ∷ modify xs i f

  -- The same where an index out of range is a fault.
  abbrev pub modify? : List A → ℕ → (A → A) → Option (List A)
  modify? [] i f = none
  modify? (x ∷ xs) zero f = some (f x ∷ xs)
  modify? (x ∷ xs) (suc i) f = elim (modify? xs i f) [ none ↦ none | some ys ↦ some (x ∷ ys) ]

  abbrev pub drop : ℕ → List A → List A
  drop zero xs = xs
  drop (suc n) [] = []
  drop (suc n) (x ∷ xs) = drop n xs

  abbrev pub All {κ} : (A → Type κ) → List A → Type κ
  All P [] = Unit
  All P (x ∷ xs) = P x × All P xs

  pub length-append : (xs ys : List A) → length (xs ++ ys) ≡ length xs + length ys
  length-append [] ys = omega arith
  length-append (x ∷ xs) ys = omega (arith, length-append xs ys)

  pub length-modify : (xs : List A) (i : ℕ) (f : A → A) → length (modify xs i f) ≡ length xs
  length-modify [] i f = refl
  length-modify (x ∷ xs) zero f = refl
  length-modify (x ∷ xs) (suc i) f = ap suc (length-modify xs i f)

  pub modify?-eq-modify :
      (xs : List A) (i : ℕ) (f : A → A) → i < length xs → modify? xs i f ≡ some (modify xs i f)
  modify?-eq-modify [] i f h = absurd (omega arith)
  modify?-eq-modify (x ∷ xs) zero f h = refl
  modify?-eq-modify (x ∷ xs) (suc i) f h = ground (arith, modify?-eq-modify xs i f)

  pub get_elem?-lt : (xs : List A) (i : ℕ) → i < length xs → (x : A) × (get_elem? xs i ≡ some x)
  get_elem?-lt [] i h = absurd (omega arith)
  get_elem?-lt (x ∷ xs) zero h = (x, refl)
  get_elem?-lt (x ∷ xs) (suc i) h = get_elem?-lt xs i (omega arith)

  pub get_elem?-append_left :
      (xs ys : List A) (i : ℕ) {a : A} → get_elem? xs i ≡ some a → get_elem? (xs ++ ys) i ≡ some a
  get_elem?-append_left [] ys i h = cc
  get_elem?-append_left (x ∷ xs) ys zero h = h
  get_elem?-append_left (x ∷ xs) ys (suc i) h = get_elem?-append_left xs ys i h

  pub get_elem?-append_last :
      (xs : List A) (i : ℕ) (a : A) → i ≡ length xs → get_elem? (xs ++ a ∷ []) i ≡ some a
  get_elem?-append_last [] zero a h = refl
  get_elem?-append_last [] (suc i) a h = absurd (omega arith)
  get_elem?-append_last (x ∷ xs) zero a h = absurd (omega arith)
  get_elem?-append_last (x ∷ xs) (suc i) a h = get_elem?-append_last xs i a (omega arith)

  pub drop-suc :
      (n : ℕ) (xs : List A) {x : A} {ys : List A} → drop n xs ≡ x ∷ ys → drop (suc n) xs ≡ ys
  drop-suc zero [] h = cc
  drop-suc zero (y ∷ xs) h = cc
  drop-suc (suc n) [] h = cc
  drop-suc (suc n) (y ∷ xs) h = drop-suc n xs h

  pub get_elem?-drop :
      (n : ℕ) (xs : List A) {x : A} {ys : List A} → drop n xs ≡ x ∷ ys → get_elem? xs n ≡ some x
  get_elem?-drop zero [] h = cc
  get_elem?-drop zero (y ∷ xs) h = cc
  get_elem?-drop (suc n) [] h = cc
  get_elem?-drop (suc n) (y ∷ xs) h = get_elem?-drop n xs h

  pub drop-modify :
      (n : ℕ) (xs : List A) (f : A → A) → drop (suc n) (modify xs n f) ≡ drop (suc n) xs
  drop-modify n [] f = refl
  drop-modify zero (x ∷ xs) f = refl
  drop-modify (suc n) (x ∷ xs) f = drop-modify n xs f

  pub modify-modify :
      (xs : List A) (n : ℕ) (f g : A → A) → modify (modify xs n f) n g ≡ modify xs n (λ x. g (f x))
  modify-modify [] n f g = refl
  modify-modify (x ∷ xs) zero f g = refl
  modify-modify (x ∷ xs) (suc n) f g = ap (◌∷◌ x) (modify-modify xs n f g)

  -- Two changes that agree on the element at the index are one.
  pub modify_congr :
      (xs : List A) (n : ℕ) (f g : A → A)
      → ((x : A) → get_elem? xs n ≡ some x → f x ≡ g x)
      → modify xs n f ≡ modify xs n g
  modify_congr [] n f g h = refl
  modify_congr (x ∷ xs) zero f g h = ap (λ y. y ∷ xs) (h x refl)
  modify_congr (x ∷ xs) (suc n) f g h = ap (◌∷◌ x) (modify_congr xs n f g h)

  pub modify_id :
      (xs : List A) (n : ℕ) (f : A → A)
      → ((x : A) → get_elem? xs n ≡ some x → f x ≡ x)
      → modify xs n f ≡ xs
  modify_id [] n f h = refl
  modify_id (x ∷ xs) zero f h = ap (λ y. y ∷ xs) (h x refl)
  modify_id (x ∷ xs) (suc n) f h = ap (◌∷◌ x) (modify_id xs n f h)

  -- A change of every element from an index on.
  abbrev pub map_from : ℕ → (A → A) → List A → List A
  map_from n f [] = []
  map_from zero f (x ∷ xs) = f x ∷ map_from zero f xs
  map_from (suc n) f (x ∷ xs) = x ∷ map_from n f xs

  pub map_from-modify :
      (n : ℕ) (f : A → A) (xs : List A) → map_from (suc n) f (modify xs n f) ≡ map_from n f xs
  map_from-modify n f [] = refl
  map_from-modify zero f (x ∷ xs) = refl
  map_from-modify (suc n) f (x ∷ xs) = ap (◌∷◌ x) (map_from-modify n f xs)

  pub map_from_fixed :
      (n : ℕ) (f : A → A) (xs : List A) {x : A} {ys : List A}
      → drop n xs ≡ x ∷ ys
      → f x ≡ x
      → map_from (suc n) f xs ≡ map_from n f xs
  map_from_fixed n f [] h e = refl
  map_from_fixed zero f (y ∷ xs) {x} h e =
      let same : y ≡ x = cc in ap (λ z. z ∷ map_from zero f xs) (rw same (sym e))
  map_from_fixed (suc n) f (y ∷ xs) h e = ap (◌∷◌ y) (map_from_fixed n f xs h e)

  pub map_from_end : (n : ℕ) (f : A → A) (xs : List A) → drop n xs ≡ [] → map_from n f xs ≡ xs
  map_from_end n f [] h = refl
  map_from_end zero f (x ∷ xs) h = cc
  map_from_end (suc n) f (x ∷ xs) h = ap (◌∷◌ x) (map_from_end n f xs h)

  pub get_elem?-modify_ne :
      (xs : List A) (i j : ℕ) (f : A → A) → i ≢ j → get_elem? (modify xs i f) j ≡ get_elem? xs j
  get_elem?-modify_ne [] i j f h = refl
  get_elem?-modify_ne (x ∷ xs) zero zero f h = absurd (h refl)
  get_elem?-modify_ne (x ∷ xs) zero (suc j) f h = refl
  get_elem?-modify_ne (x ∷ xs) (suc i) zero f h = refl
  get_elem?-modify_ne (x ∷ xs) (suc i) (suc j) f h =
      get_elem?-modify_ne xs i j f (λ e. h (ap suc e))

  pub get_elem?-ge : (xs : List A) (i : ℕ) → length xs ≤ i → get_elem? xs i ≡ none
  get_elem?-ge [] i h = refl
  get_elem?-ge (x ∷ xs) zero h = absurd (omega arith)
  get_elem?-ge (x ∷ xs) (suc i) h = get_elem?-ge xs i (omega arith)

  pub get_elem?-modify_self :
      (xs : List A) (i : ℕ) (f : A → A) {x : A}
      → get_elem? xs i ≡ some x
      → get_elem? (modify xs i f) i ≡ some (f x)
  get_elem?-modify_self [] i f h = cc
  get_elem?-modify_self (y ∷ xs) zero f h = cc
  get_elem?-modify_self (y ∷ xs) (suc i) f h = get_elem?-modify_self xs i f h

  pub lt-get_elem? : (xs : List A) (i : ℕ) {x : A} → get_elem? xs i ≡ some x → i < length xs
  lt-get_elem? [] i h = cc
  lt-get_elem? (x ∷ xs) zero h = omega arith
  lt-get_elem? (x ∷ xs) (suc i) h = omega (arith, lt-get_elem? xs i h)
