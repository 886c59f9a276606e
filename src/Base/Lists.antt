-- ===== src/Base/Lists.antt =====
-- Lists measured by native numbers, under the library's names.
use Prim.Native.Nat.{ℕ, zero, suc, ◌+◌, ◌-◌, ◌≤◌}
use mathlib.Core.Path.{◌≡◌, refl, ap}
use mathlib.Core.List.{map, List, [], ◌∷◌, ◌++◌}
use native.Mathlib.Omega.{arith}
use mathlib.Core.Option.{Option, none, some}
use mathlib.Core.Option
use df_ai.Base.Tests.{if◌then◌else◌, ◌==◌, ltb}

module _ {ℓ} {A : Type ℓ} where
  abbrev pub length : List A → ℕ
  length [] = 0
  length (x ∷ xs) = suc (length xs)

  abbrev pub take : ℕ → List A → List A
  take zero xs = []
  take (suc n) [] = []
  take (suc n) (x ∷ xs) = x ∷ take n xs

  abbrev pub drop : ℕ → List A → List A
  drop zero xs = xs
  drop (suc n) [] = []
  drop (suc n) (x ∷ xs) = drop n xs

  abbrev pub get_elem? : List A → ℕ → Option A
  get_elem? [] i = none
  get_elem? (x ∷ xs) zero = some x
  get_elem? (x ∷ xs) (suc i) = get_elem? xs i

  -- A change of the element at an index; out of range it changes nothing.
  abbrev pub modify : ℕ → (A → A) → List A → List A
  modify i f [] = []
  modify zero f (x ∷ xs) = f x ∷ xs
  modify (suc i) f (x ∷ xs) = x ∷ modify i f xs

  pub get_elem?-modify :
      (i j : ℕ) (f : A → A) (xs : List A)
      → get_elem? (modify i f xs) j
        ≡ (if i == j then Option.map f (get_elem? xs j) else get_elem? xs j)
  get_elem?-modify i j f [] = ground arith
  get_elem?-modify zero zero f (x ∷ xs) = refl
  get_elem?-modify zero (suc j) f (x ∷ xs) = ground arith
  get_elem?-modify (suc i) zero f (x ∷ xs) = ground arith
  get_elem?-modify (suc i) (suc j) f (x ∷ xs) = ground (arith, get_elem?-modify i j f xs)

  pub length-modify : (i : ℕ) (f : A → A) (xs : List A) → length (modify i f xs) ≡ length xs
  length-modify i f [] = refl
  length-modify zero f (x ∷ xs) = refl
  length-modify (suc i) f (x ∷ xs) = ap suc (length-modify i f xs)

  pub get_elem?-append :
      (xs ys : List A) (i : ℕ)
      → get_elem? (xs ++ ys) i
        ≡ (if ltb i (length xs) then get_elem? xs i else get_elem? ys (i - length xs))
  get_elem?-append [] ys i = ground arith
  get_elem?-append (x ∷ xs) ys zero = ground arith
  get_elem?-append (x ∷ xs) ys (suc i) = ground (arith, get_elem?-append xs ys i)

  pub length-take-le : (n : ℕ) (xs : List A) → length (take n xs) ≤ n
  length-take-le zero xs = omega arith
  length-take-le (suc n) [] = omega arith
  length-take-le (suc n) (x ∷ xs) = omega (arith, length-take-le n xs)

  pub length-append : (xs ys : List A) → length (xs ++ ys) ≡ length xs + length ys
  length-append [] ys = omega arith
  length-append (x ∷ xs) ys = omega (arith, length-append xs ys)

  pub take-append : (xs ys : List A) → take (length xs) (xs ++ ys) ≡ xs
  take-append [] ys = refl
  take-append (x ∷ xs) ys = ap (λ l. x ∷ l) (take-append xs ys)

  pub drop-append : (xs ys : List A) → drop (length xs) (xs ++ ys) ≡ ys
  drop-append [] ys = refl
  drop-append (x ∷ xs) ys = drop-append xs ys

module _ {ℓ κ} {A : Type ℓ} where
  -- Every element satisfies `P`.
  abbrev pub All : (A → Type κ) → List A → Type κ
  All P [] = Unit {κ}
  All P (x ∷ xs) = P x × All P xs

pub length-map {ℓ κ} :
    {A : Type ℓ} {B : Type κ} (f : A → B) (l : List A) → length (map f l) ≡ length l
length-map f [] = refl
length-map f (x ∷ xs) = ap suc (length-map f xs)

pub map-map {ℓ κ μ} :
    {A : Type ℓ} {B : Type κ} {C : Type μ} (g : B → C) (f : A → B) (l : List A)
    → map g (map f l) ≡ map (λ x. g (f x)) l
map-map g f [] = refl
map-map g f (x ∷ xs) = ap (λ l. g (f x) ∷ l) (map-map g f xs)

pub map-pointwise {ℓ κ} :
    {A : Type ℓ} {B : Type κ} (f g : A → B) (l : List A) → ((x : A) → f x ≡ g x) → map f l ≡ map g l
map-pointwise f g [] h = refl
map-pointwise f g (x ∷ xs) h = rw (h x, map-pointwise f g xs h) refl

pub map-identity {ℓ} : {A : Type ℓ} (l : List A) → map (λ x. x) l ≡ l
map-identity [] = refl
map-identity (x ∷ xs) = ap (λ l. x ∷ l) (map-identity xs)

module _ {ℓ κ} {A : Type ℓ} (P : A → Type κ) where
  pub All-modify :
      (i : ℕ) (f : A → A) (xs : List A)
      → ((x : A) → get_elem? xs i ≡ some x → P x → P (f x))
      → All P xs
      → All P (modify i f xs)
  All-modify i f [] keep h = tt
  All-modify zero f (x ∷ xs) keep h = (keep x refl h.0, h.1)
  All-modify (suc i) f (x ∷ xs) keep h = (h.0, All-modify i f xs keep h.1)

  pub All-append : (xs ys : List A) → All P xs → All P ys → All P (xs ++ ys)
  All-append [] ys h k = k
  All-append (x ∷ xs) ys h k = (h.0, All-append xs ys h.1 k)

  pub All-get_elem? : (xs : List A) (i : ℕ) {x : A} → All P xs → get_elem? xs i ≡ some x → P x
  All-get_elem? [] i h e = cc
  All-get_elem? (x ∷ xs) zero {x = y} h e = let same : x ≡ y = cc in rw (← same) h.0
  All-get_elem? (x ∷ xs) (suc i) h e = All-get_elem? xs i h.1 e

module _ {ℓ} {A : Type ℓ} where
  pub modify_end :
      (xs : List A) (x : A) (f : A → A) → modify (length xs) f (xs ++ x ∷ []) ≡ xs ++ f x ∷ []
  modify_end [] x f = refl
  modify_end (y ∷ xs) x f = ap (λ l. y ∷ l) (modify_end xs x f)

  pub get_elem?_end : (xs : List A) (x : A) → get_elem? (xs ++ x ∷ []) (length xs) ≡ some x
  get_elem?_end [] x = refl
  get_elem?_end (y ∷ xs) x = get_elem?_end xs x
