-- ===== src/Base/Lists.antt =====
-- Vectors: measured, indexed and filtered by native numbers and Boolean tests.
use Prim.Native.Nat.{max, ℕ, zero, suc, ◌+◌, ◌-◌, ◌≤◌, ◌<◌}
use mathlib.Core.Path.{◌≡◌, refl, ap, sym, ◌∙◌}
use mathlib.Core.Logic.{◌⊎◌}
use mathlib.Core.Bool.{Bool, false, ◌||◌}
use mathlib.Core.List.{List, [], ◌∷◌, ◌++◌, append-nil}
use mathlib.Core.Option
use mathlib.Core.Option.{Option, none, some}
use native.Mathlib.Omega.{arith}
use id2203_project.Base.Tests.{Key, ◌==◌, if◌then◌else◌, id_eqb, ltb}

suc-max : (a b : ℕ) → suc (max a b) ≡ max (suc a) (suc b)
suc-max a b = omega arith

module _ {ℓ} {A : Type ℓ} where
  abbrev pub length : List A → ℕ
  length [] = 0
  length (x ∷ xs) = suc (length xs)

  abbrev pub get_elem? : List A → ℕ → Option A
  get_elem? [] i = none
  get_elem? (x ∷ xs) zero = some x
  get_elem? (x ∷ xs) (suc i) = get_elem? xs i

  -- A write out of bounds changes nothing; the callers test the index first.
  abbrev pub set : List A → ℕ → A → List A
  set [] i v = []
  set (x ∷ xs) zero v = v ∷ xs
  set (x ∷ xs) (suc i) v = x ∷ set xs i v

  abbrev pub take : ℕ → List A → List A
  take zero xs = []
  take (suc n) [] = []
  take (suc n) (x ∷ xs) = x ∷ take n xs

  abbrev pub drop : ℕ → List A → List A
  drop zero xs = xs
  drop (suc n) [] = []
  drop (suc n) (x ∷ xs) = drop n xs

  abbrev pub replicate : ℕ → A → List A
  replicate zero a = []
  replicate (suc n) a = a ∷ replicate n a

  -- `retain`, and `filter` on iterators.
  abbrev pub retain : (A → Bool) → List A → List A
  retain p [] = []
  retain p (x ∷ xs) = if p x then x ∷ retain p xs else retain p xs

  -- `iter().find`
  abbrev pub find : (A → Bool) → List A → Option A
  find p [] = none
  find p (x ∷ xs) = if p x then some x else find p xs

  -- `iter().position`
  abbrev pub position : (A → Bool) → List A → Option ℕ
  position p [] = none
  position p (x ∷ xs) = if p x then some 0 else Option.map suc (position p xs)

  abbrev pub any : (A → Bool) → List A → Bool
  any p [] = false
  any p (x ∷ xs) = p x || any p xs

  pub length-append : (xs ys : List A) → length (xs ++ ys) ≡ length xs + length ys
  length-append [] ys = omega arith
  length-append (x ∷ xs) ys = omega (arith, length-append xs ys)

  pub take-nil : (n : ℕ) → take n [] ≡ []
  take-nil zero = refl
  take-nil (suc n) = refl

  pub drop-nil : (n : ℕ) → drop n [] ≡ []
  drop-nil zero = refl
  drop-nil (suc n) = refl

  pub drop-add : (n k : ℕ) (xs : List A) → drop (n + k) xs ≡ drop k (drop n xs)
  drop-add zero k xs = ap (λ n. drop n xs) (omega arith)
  drop-add (suc n) k [] = drop-nil (suc n + k) ∙ sym (drop-nil k)
  drop-add (suc n) k (x ∷ xs) =
      let e : suc n + k ≡ suc (n + k) = omega arith in rw e (drop-add n k xs)

  pub drop-take : (p q : ℕ) (xs : List A) → drop p (take q xs) ≡ take (q - p) (drop p xs)
  drop-take zero q xs = ap (λ n. take n xs) (omega arith)
  drop-take (suc p) zero xs = let e : 0 - suc p ≡ 0 = omega arith in rw e refl
  drop-take (suc p) (suc q) [] = sym (take-nil (suc q - suc p))
  drop-take (suc p) (suc q) (x ∷ xs) =
      let e : suc q - suc p ≡ q - p = omega arith in rw e (drop-take p q xs)

  pub length-take-le : (count : ℕ) (items : List A) → length (take count items) ≤ count
  length-take-le (suc count) (x ∷ items) = omega (arith, length-take-le count items)
  length-take-le (suc count) [] = omega arith
  length-take-le zero items = omega arith

  pub length-drop : (n : ℕ) (xs : List A) → length (drop n xs) ≡ length xs - n
  length-drop zero xs = omega arith
  length-drop (suc n) [] = omega arith
  length-drop (suc n) (x ∷ xs) = omega (arith, length-drop n xs)

  take_past : (s b : ℕ) (xs : List A) → take s xs ++ drop s (take b xs) ≡ take (max b s) xs
  take_past zero b xs = ap (λ n. take n xs) (omega arith)
  take_past (suc s) zero xs =
      let e : max 0 (suc s) ≡ suc s = omega arith in rw e (append-nil (take (suc s) xs))
  take_past (suc s) (suc b) [] = sym (take-nil (max (suc b) (suc s)))
  take_past (suc s) (suc b) (x ∷ xs) =
      ap (λ r. x ∷ r) (take_past s b xs) ∙ ap (λ n. take n (x ∷ xs)) (suc-max b s)

  -- Up to the larger of `a` and `s`, then on to `b`.
  pub take-append-segment :
      (a s b : ℕ) (xs : List A)
      → a ≤ b
      → take (max a s) xs ++ drop (s - a) (take (b - a) (drop a xs)) ≡ take (max b s) xs
  take-append-segment zero s b xs h =
      let e : max 0 s ≡ s = omega arith in
      let d : s - 0 ≡ s = omega arith in
      let d' : b - 0 ≡ b = omega arith in rw (e, d, d') (take_past s b xs)
  take-append-segment (suc a) s zero xs h = absurd (omega arith)
  take-append-segment (suc a) s (suc b) [] h = rw (take-nil, take-nil, drop-nil) (rw take-nil)
  take-append-segment (suc a) zero (suc b) (x ∷ xs) h =
      let e : max (suc a) 0 ≡ suc (max a 0) = omega arith in
      let e' : max (suc b) 0 ≡ suc (max b 0) = omega arith in
      let d : 0 - suc a ≡ 0 - a = omega arith in
      let d' : suc b - suc a ≡ b - a = omega arith in
      rw (e, e', d, d') (ap (λ r. x ∷ r) (take-append-segment a 0 b xs (omega arith)))
  take-append-segment (suc a) (suc s) (suc b) (x ∷ xs) h =
      let d : suc s - suc a ≡ s - a = omega arith in
      let d' : suc b - suc a ≡ b - a = omega arith in
      rw (← suc-max a s, ← suc-max b s, d, d')
        (ap (λ r. x ∷ r) (take-append-segment a s b xs (omega arith)))

  pub take-append-take :
      (a b : ℕ) (xs : List A) → a ≤ b → take a xs ++ take (b - a) (drop a xs) ≡ take b xs
  take-append-take a b xs h =
      let e : max a 0 ≡ a = omega arith in
      let e' : max b 0 ≡ b = omega arith in
      let none_dropped : 0 - a ≡ 0 = omega arith in
      let both = take-append-segment a 0 b xs h in rw (e, e', none_dropped) at both

  -- The predicate at every entry, and at some entry.
  abbrev pub All {κ} : (A → Type κ) → List A → Type κ
  All P [] = Unit
  All P (x ∷ xs) = P x × All P xs

  abbrev pub Some : (A → Type 0) → List A → Type 0
  Some P [] = ⊥
  Some P (x ∷ xs) = P x ⊎ Some P xs

pub get_elem?-total {ℓ} :
    {A : Type ℓ} (xs : List A) (i : ℕ) → i < length xs → (a : A) × (get_elem? xs i ≡ some a)
get_elem?-total [] i h = absurd (omega arith)
get_elem?-total (x ∷ xs) zero h = (x, refl)
get_elem?-total (x ∷ xs) (suc i) h = get_elem?-total xs i (omega arith)

pub get_elem?-none {ℓ} : {A : Type ℓ} (xs : List A) (i : ℕ) → length xs ≤ i → get_elem? xs i ≡ none
get_elem?-none [] i h = refl
get_elem?-none (x ∷ xs) zero h = absurd (omega arith)
get_elem?-none (x ∷ xs) (suc i) h = get_elem?-none xs i (omega arith)

pub length-set {ℓ} : {A : Type ℓ} (xs : List A) (i : ℕ) (v : A) → length (set xs i v) ≡ length xs
length-set [] i v = refl
length-set (x ∷ xs) zero v = refl
length-set (x ∷ xs) (suc i) v = omega (arith, length-set xs i v)

pub get_elem?-lt {ℓ} :
    {A : Type ℓ} (xs : List A) (i : ℕ) (a : A) → get_elem? xs i ≡ some a → i < length xs
get_elem?-lt [] i a e = absurd (ground (arith, e))
get_elem?-lt (x ∷ xs) zero a e = omega arith
get_elem?-lt (x ∷ xs) (suc i) a e = omega (arith, get_elem?-lt xs i a e)

-- Reading after a write: in bounds the written slot has the new value, and the others stay.
pub get_elem?-set {ℓ} :
    {A : Type ℓ} (xs : List A) (i j : ℕ) (v : A)
    → i < length xs
    → get_elem? (set xs i v) j ≡ (if id_eqb i j then some v else get_elem? xs j)
get_elem?-set [] i j v h = absurd (omega arith)
get_elem?-set (x ∷ xs) zero zero v h = refl
get_elem?-set (x ∷ xs) zero (suc j) v h = ground arith
get_elem?-set (x ∷ xs) (suc i) zero v h = ground arith
get_elem?-set (x ∷ xs) (suc i) (suc j) v h = get_elem?-set xs i j v (omega arith) ∙ ground arith

pub length-replicate {ℓ} : {A : Type ℓ} (n : ℕ) (a : A) → length (replicate n a) ≡ n
length-replicate zero a = refl
length-replicate (suc n) a = omega (arith, length-replicate n a)

pub get_elem?-replicate {ℓ} :
    {A : Type ℓ} (n i : ℕ) (a : A)
    → get_elem? (replicate n a) i ≡ (if ltb i n then some a else none)
get_elem?-replicate zero i a = ground arith
get_elem?-replicate (suc n) zero a = ground arith
get_elem?-replicate (suc n) (suc i) a = get_elem?-replicate n i a ∙ ground arith

abbrev pub zip {ℓ κ} : {A : Type ℓ} {B : Type κ} → List A → List B → List (A × B)
zip [] ys = []
zip (x ∷ xs) [] = []
zip (x ∷ xs) (y ∷ ys) = (x, y) ∷ zip xs ys

module _ {ℓ} {A : Type ℓ} ⦃e : Key A⦄ where
  abbrev pub contains : A → List A → Bool
  contains a [] = false
  contains a (x ∷ xs) = (x == a) || contains a xs
