-- ===== src/Prelude/Lists.antt =====
-- Lists measured by native numbers, and Boolean searches through them.
use Prim.Native.Nat.{ℕ, zero, suc, ◌+◌}
use mathlib.Core.Path.{◌≡◌, refl, sym, ap, ◌∙◌}
use mathlib.Core.Bool.{Bool, true, false, ◌||◌, ◌&&◌}
use mathlib.Core.List.{List, [], ◌∷◌, ◌++◌, map}
use mathlib.Core.Option.{Option, none, some}
use native.Mathlib.Omega.{arith}
use sqlite_reconcile.Prelude.Tests.{if◌then◌else◌}

module _ {ℓ} {A : Type ℓ} where
  abbrev pub length : List A → ℕ
  length [] = 0
  length (x ∷ xs) = suc (length xs)

  abbrev pub get_elem? : List A → ℕ → Option A
  get_elem? [] i = none
  get_elem? (x ∷ xs) zero = some x
  get_elem? (x ∷ xs) (suc i) = get_elem? xs i

  abbrev pub take : ℕ → List A → List A
  take zero xs = []
  take (suc n) [] = []
  take (suc n) (x ∷ xs) = x ∷ take n xs

  abbrev pub drop : ℕ → List A → List A
  drop zero xs = xs
  drop (suc n) [] = []
  drop (suc n) (x ∷ xs) = drop n xs

  -- `del xs[i]` and `xs[i] = v`, out of range without an effect
  abbrev pub delete_at : List A → ℕ → List A
  delete_at [] i = []
  delete_at (x ∷ xs) zero = xs
  delete_at (x ∷ xs) (suc i) = x ∷ delete_at xs i

  abbrev pub set : List A → ℕ → A → List A
  set [] i v = []
  set (x ∷ xs) zero v = v ∷ xs
  set (x ∷ xs) (suc i) v = x ∷ set xs i v

  -- `bool(xs)`
  abbrev pub nonempty : List A → Bool
  nonempty [] = false
  nonempty (x ∷ xs) = true

  -- `any(p(x) for x in xs)`
  abbrev pub any : (A → Bool) → List A → Bool
  any p [] = false
  any p (x ∷ xs) = p x || any p xs

  -- `all(p(x) for x in xs)`
  abbrev pub all : (A → Bool) → List A → Bool
  all p [] = true
  all p (x ∷ xs) = p x && all p xs

  -- `[x for x in xs if p(x)]`
  abbrev pub filter_by : (A → Bool) → List A → List A
  filter_by p [] = []
  filter_by p (x ∷ xs) = if p x then x ∷ filter_by p xs else filter_by p xs

  pub length-append : (xs ys : List A) → length (xs ++ ys) ≡ length xs + length ys
  length-append [] ys = omega arith
  length-append (x ∷ xs) ys = omega (arith, length-append xs ys)

  pub any-append : (p : A → Bool) (xs ys : List A) → any p (xs ++ ys) ≡ (any p xs || any p ys)
  any-append p [] ys = refl
  any-append p (x ∷ xs) ys = ground (arith, any-append p xs ys)

  pub any_ext : (p q : A → Bool) (xs : List A) → ((x : A) → p x ≡ q x) → any p xs ≡ any q xs
  any_ext p q [] h = refl
  any_ext p q (x ∷ xs) h = ground (arith, h x, any_ext p q xs h)

  pub any-or : (p q : A → Bool) (xs : List A) → any (λ x. p x || q x) xs ≡ (any p xs || any q xs)
  any-or p q [] = refl
  any-or p q (x ∷ xs) = ground (arith, any-or p q xs)

  pub any-and : (b : Bool) (p : A → Bool) (xs : List A) → any (λ x. b && p x) xs ≡ (b && any p xs)
  any-and b p [] = ground arith
  any-and b p (x ∷ xs) = ground (arith, any-and b p xs)

  pub any-false : (xs : List A) → any (λ x. false) xs ≡ false
  any-false [] = refl
  any-false (x ∷ xs) = any-false xs

  pub any-true : (xs : List A) → any (λ x. true) xs ≡ nonempty xs
  any-true [] = refl
  any-true (x ∷ xs) = refl

  pub nonempty-filter_by : (p : A → Bool) (xs : List A) → nonempty (filter_by p xs) ≡ any p xs
  nonempty-filter_by p [] = refl
  nonempty-filter_by p (x ∷ xs) = ground (arith, nonempty-filter_by p xs)

  pub any-filter_by :
      (p q : A → Bool) (xs : List A) → any q (filter_by p xs) ≡ any (λ x. p x && q x) xs
  any-filter_by p q [] = refl
  any-filter_by p q (x ∷ xs) = ground (arith, any-filter_by p q xs)

  pub nonempty-append : (xs ys : List A) → nonempty (xs ++ ys) ≡ (nonempty xs || nonempty ys)
  nonempty-append [] ys = refl
  nonempty-append (x ∷ xs) ys = refl

module _ {ℓ κ} {A : Type ℓ} {B : Type κ} where
  pub any-map : (p : B → Bool) (f : A → B) (xs : List A) → any p (map f xs) ≡ any (λ x. p (f x)) xs
  any-map p f [] = refl
  any-map p f (x ∷ xs) = ground (arith, any-map p f xs)

  -- The two searches commute.
  pub any-swap :
      (p : A → B → Bool) (xs : List A) (ys : List B)
      → any (λ x. any (λ y. p x y) ys) xs ≡ any (λ y. any (λ x. p x y) xs) ys
  any-swap p [] ys = sym (any-false ys)
  any-swap p (x ∷ xs) ys =
      ap (λ b. any (λ y. p x y) ys || b) (any-swap p xs ys)
      ∙ sym (any-or (λ y. p x y) (λ y. any (λ x'. p x' y) xs) ys)

module _ {ℓ} {A : Type ℓ} where
  pub length-set : (xs : List A) (i : ℕ) (v : A) → length (set xs i v) ≡ length xs
  length-set [] i v = refl
  length-set (x ∷ xs) zero v = refl
  length-set (x ∷ xs) (suc i) v = ap suc (length-set xs i v)

  pub length-delete_at :
      (xs : List A) (i : ℕ) {x : A}
      → get_elem? xs i ≡ some x
      → length xs ≡ suc (length (delete_at xs i))
  length-delete_at [] i h = cc
  length-delete_at (x ∷ xs) zero h = refl
  length-delete_at (x ∷ xs) (suc i) h = ap suc (length-delete_at xs i h)
