-- ===== src/Prelude/Equality.antt =====
-- Equality tests as an interface, and Python's `in` over a list.
use Prim.Native.Nat.{ℕ}
use Prim.Native.String.{String}
use text.Mathlib.Text.{◌==◌ as str_eq}
use text.Mathlib.TextEquality.{eq_iff}
use mathlib.Core.Path.{◌≡◌, refl, sym, ◌∙◌}
use mathlib.Core.Logic.{◌↔◌, inl, inr}
use mathlib.Core.Bool.{◌&&◌, Bool, true, false, ◌||◌}
use mathlib.Core.List.{List, [], ◌∷◌, ◌++◌}
use native.Mathlib.Omega.{arith}
use sqlite_reconcile.Prelude.Tests.{
  nat_beq, nat_beq_iff, bool_ext, or_false, Bool-cases, if◌then◌else◌,
}
use sqlite_reconcile.Prelude.Lists.{any, any-append}

-- A Boolean test for equality that is right.
pub record Eq {ℓ} (K : Type ℓ) : Type ℓ where
  pub beq : K → K → Bool
  pub beq_iff : (j k : K) → (beq j k ≡ true) ↔ (j ≡ k)

instance abbrev pub string_eq : Eq String
string_eq = record { beq = str_eq; beq_iff = eq_iff }

instance abbrev pub nat_eq : Eq ℕ
nat_eq = record { beq = nat_beq; beq_iff = nat_beq_iff }

infix 50 ◌==◌
abbrev pub ◌==◌ {ℓ} : {K : Type ℓ} ⦃test : Eq K⦄ → K → K → Bool
◌==◌ ⦃test⦄ j k = test.beq j k

module _ {ℓ} {A : Type ℓ} ⦃e : Eq A⦄ where
  pub ==_iff : (a b : A) → ((a == b) ≡ true) ↔ (a ≡ b)
  ==_iff = e.beq_iff

  pub ==_refl : (a : A) → (a == a) ≡ true
  ==_refl a = (e.beq_iff a a).1 refl

  pub ==_comm : (a b : A) → (a == b) ≡ (b == a)
  ==_comm a b =
      bool_ext (a == b) (b == a) (λ h. (e.beq_iff b a).1 (sym ((e.beq_iff a b).0 h)))
        (λ h. (e.beq_iff a b).1 (sym ((e.beq_iff b a).0 h)))

  -- `a in xs`
  abbrev pub contains : List A → A → Bool
  contains [] a = false
  contains (x ∷ xs) a = x == a || contains xs a

  -- `xs.add(a)` and `xs.update(ys)` on a set kept in the order of insertion.
  abbrev pub set_add : List A → A → List A
  set_add xs a = if contains xs a then xs else xs ++ a ∷ []

  abbrev pub set_update : List A → List A → List A
  set_update xs [] = xs
  set_update xs (y ∷ ys) = set_update (set_add xs y) ys

  pub contains-append :
      (xs ys : List A) (a : A) → contains (xs ++ ys) a ≡ (contains xs a || contains ys a)
  contains-append [] ys a = refl
  contains-append (x ∷ xs) ys a = ground (arith, contains-append xs ys a)

  pub any-contains :
      (p : A → Bool) (xs : List A) (a : A) → contains xs a ≡ true → p a ≡ true → any p xs ≡ true
  any-contains p [] a h k = h
  any-contains p (x ∷ xs) a h k = ground (arith, any-contains p xs a, e.beq_iff x a)

  pub contains-set_add :
      (xs : List A) (b a : A) → contains (set_add xs b) a ≡ (contains xs a || (b == a))
  contains-set_add xs b a = elim (Bool-cases (contains xs b)) [
    | inl h ↦ rw h (bool_ext _ _ (λ k. ground arith) (λ k. ground (arith, e.beq_iff b a)))
    | inr h ↦ rw (h, contains-append) (ground arith)
  ]

  pub any-set_add : (p : A → Bool) (xs : List A) (b : A) → any p (set_add xs b) ≡ (any p xs || p b)
  any-set_add p xs b = elim (Bool-cases (contains xs b)) [
    | inl h ↦ rw h (bool_ext _ _ (λ k. ground arith) (λ k. ground (arith, any-contains p xs b)))
    | inr h ↦ rw (h, any-append) (ground arith)
  ]

  pub any-set_update :
      (p : A → Bool) (xs ys : List A) → any p (set_update xs ys) ≡ (any p xs || any p ys)
  any-set_update p xs [] = sym (or_false (any p xs))
  any-set_update p xs (y ∷ ys) =
      any-set_update p (set_add xs y) ys ∙ ground (arith, any-set_add p xs y)

-- Lists and pairs are compared part by part.
abbrev pub list_beq {ℓ} : {A : Type ℓ} ⦃e : Eq A⦄ → List A → List A → Bool
list_beq [] [] = true
list_beq (x ∷ xs) (y ∷ ys) = x == y && list_beq xs ys
list_beq _ _ = false

pub list_beq_iff {ℓ} :
    {A : Type ℓ} ⦃e : Eq A⦄ (xs ys : List A) → (list_beq xs ys ≡ true) ↔ (xs ≡ ys)
list_beq_iff [] [] = (λ h. refl, λ h. refl)
list_beq_iff [] (y ∷ ys) = (λ h. cc, λ h. cc)
list_beq_iff (x ∷ xs) [] = (λ h. cc, λ h. cc)
list_beq_iff ⦃e⦄ (x ∷ xs) (y ∷ ys) = (
  λ h. ground (arith, e.beq_iff x y, list_beq_iff xs ys),
  λ h. ground (arith, e.beq_iff x y, list_beq_iff xs ys),
)

instance abbrev pub list_eq {ℓ} : {A : Type ℓ} ⦃e : Eq A⦄ → Eq (List A)
list_eq = record { beq = list_beq; beq_iff = list_beq_iff }
