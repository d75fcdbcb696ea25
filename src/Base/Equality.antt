-- ===== src/Base/Equality.antt =====
-- Python's `==` and `in`: a Boolean equality that decides equality, and a list used as a set.
use Prim.Native.Nat.{ℕ, ◌+◌}
use Prim.Native.String.{String}
use mathlib.Core.Path.{◌≡◌, refl}
use mathlib.Core.Logic.{◌↔◌}
use mathlib.Core.Bool.{Bool, true, false, not, ◌&&◌, ◌||◌}
use mathlib.Core.Option.{Option, none, some}
use mathlib.Core.List.{List, [], ◌∷◌, ◌++◌, Memᴰ}
use native.Mathlib.Omega.{arith}
use text.Mathlib.Text.{◌==◌ as str_eq}
use text.Mathlib.TextEquality.{eq_iff}
use coretrace_python_analyze.Base.Tests.{eqb, eqb_iff, if◌then◌else◌}
use coretrace_python_analyze.Base.Lists.{Memᴰ-nil, Memᴰ-cons}

pub record Eq {ℓ} (A : Type ℓ) : Type ℓ where
  pub test : A → A → Bool
  pub tells : (a b : A) → (test a b ≡ true) ↔ (a ≡ b)

infix 50 ◌==◌
abbrev pub ◌==◌ {ℓ} : {A : Type ℓ} ⦃e : Eq A⦄ → A → A → Bool
◌==◌ ⦃e⦄ = e.test

pub ==_iff {ℓ} : {A : Type ℓ} ⦃e : Eq A⦄ (a b : A) → ((a == b) ≡ true) ↔ (a ≡ b)
==_iff ⦃e⦄ = e.tells

instance abbrev pub nat_eq : Eq ℕ
nat_eq = record { test = eqb; tells = eqb_iff }

instance abbrev pub string_eq : Eq String
string_eq = record { test = str_eq; tells = eq_iff }

module _ {ℓ} {A B : Type ℓ} ⦃ea : Eq A⦄ ⦃eb : Eq B⦄ where
  pub pair_equals_iff : (p q : A × B) → ((p.0 == q.0 && p.1 == q.1) ≡ true) ↔ (p ≡ q)
  pair_equals_iff p q = ground (arith, ==_iff p.0 q.0, ==_iff p.1 q.1)

  instance abbrev pub pair_eq : Eq (A × B)
  pair_eq = record { test = λ p q. p.0 == q.0 && p.1 == q.1; tells = pair_equals_iff }

module _ {ℓ} {A : Type ℓ} ⦃e : Eq A⦄ where
  abbrev pub option_equals : Option A → Option A → Bool
  option_equals none none = true
  option_equals none (some _) = false
  option_equals (some _) none = false
  option_equals (some a) (some b) = a == b

  pub option_equals_iff : (p q : Option A) → (option_equals p q ≡ true) ↔ (p ≡ q)
  option_equals_iff none none = (λ _. refl, λ _. refl)
  option_equals_iff none (some _) = ((λ h. cc), (λ h. cc))
  option_equals_iff (some _) none = ((λ h. cc), (λ h. cc))
  option_equals_iff (some a) (some b) = ground (arith, ==_iff a b)

  instance abbrev pub option_eq : Eq (Option A)
  option_eq = record { test = option_equals; tells = option_equals_iff }

  abbrev pub list_equals : List A → List A → Bool
  list_equals [] [] = true
  list_equals [] (_ ∷ _) = false
  list_equals (_ ∷ _) [] = false
  list_equals (a ∷ p) (b ∷ q) = a == b && list_equals p q

  pub list_equals_iff : (p q : List A) → (list_equals p q ≡ true) ↔ (p ≡ q)
  list_equals_iff [] [] = (λ _. refl, λ _. refl)
  list_equals_iff [] (_ ∷ _) = ((λ h. cc), (λ h. cc))
  list_equals_iff (_ ∷ _) [] = ((λ h. cc), (λ h. cc))
  list_equals_iff (a ∷ p) (b ∷ q) = ground (arith, ==_iff a b, list_equals_iff p q)

  instance abbrev pub list_eq : Eq (List A)
  list_eq = record { test = list_equals; tells = list_equals_iff }

module _ {ℓ} {A : Type ℓ} ⦃e : Eq A⦄ where
  pub ==_refl : (a : A) → (a == a) ≡ true
  ==_refl a = (==_iff a a).1 refl

  -- `a in xs`
  unfoldable pub contains : List A → A → Bool
  contains [] a = false
  contains (x ∷ xs) a = a == x || contains xs a

  -- `xs.add(a)` of a set.
  unfoldable pub add : A → List A → List A
  add a xs = if contains xs a then xs else a ∷ xs

  pub contains_iff : (xs : List A) (a : A) → (contains xs a ≡ true) ↔ Memᴰ a xs
  unfolding contains
  contains_iff [] a = ((λ h. cc), λ m. absurd (Memᴰ-nil m))
  contains_iff (x ∷ xs) a = ground (arith, ==_iff a x, contains_iff xs a, Memᴰ-cons a x xs)

  pub contains-add : (a b : A) (xs : List A) → contains (add a xs) b ≡ (b == a || contains xs b)
  unfolding add contains
  contains-add a b xs = ground (arith, ==_iff b a)

  pub contains-append :
      (xs ys : List A) (a : A) → contains (xs ++ ys) a ≡ (contains xs a || contains ys a)
  unfolding contains
  contains-append [] ys a = refl
  contains-append (x ∷ xs) ys a = ground (arith, contains-append xs ys a)

  -- How often `a` stands in `xs`.
  unfoldable pub count : A → List A → ℕ
  count a [] = 0
  count a (x ∷ xs) = (if a == x then 1 else 0) + count a xs

  pub count-append : (a : A) (xs ys : List A) → count a (xs ++ ys) ≡ count a xs + count a ys
  unfolding count
  count-append a [] ys = omega arith
  count-append a (x ∷ xs) ys = omega (arith, count-append a xs ys)

  -- `xs.remove(a)` of a set.
  unfoldable pub remove : A → List A → List A
  remove a [] = []
  remove a (x ∷ xs) = let rest = remove a xs in if a == x then rest else x ∷ rest

  pub remove-absent : (a : A) (xs : List A) → contains xs a ≡ false → remove a xs ≡ xs
  unfolding remove contains
  remove-absent a [] h = refl
  remove-absent a (x ∷ xs) h = ground (arith, remove-absent a xs)

  pub remove_head : (a : A) (xs : List A) → contains xs a ≡ false → remove a (a ∷ xs) ≡ xs
  unfolding remove
  remove_head a xs h = rw ==_refl (remove-absent a xs h)

  pub contains_head : (a : A) (xs : List A) → contains (a ∷ xs) a ≡ true
  unfolding contains
  contains_head a xs = rw ==_refl

  pub contains-cons_of : (a b : A) (xs : List A) → contains xs b ≡ true → contains (a ∷ xs) b ≡ true
  unfolding contains
  contains-cons_of a b xs h = ground arith

  pub contains_of_cons :
      (a b : A) (xs : List A) → (b == a) ≡ false → contains (a ∷ xs) b ≡ true → contains xs b ≡ true
  unfolding contains
  contains_of_cons a b xs o h = rw o at h

  pub contains-cons_none :
      (a b : A) (xs : List A) → contains xs b ≡ false → (b ≡ a → ⊥) → contains (a ∷ xs) b ≡ false
  unfolding contains
  contains-cons_none a b xs h ne = ground (arith, ==_iff b a)

  pub contains-remove :
      (a b : A) (xs : List A) → contains (remove a xs) b ≡ (not (b == a) && contains xs b)
  unfolding remove contains
  contains-remove a b [] = ground arith
  contains-remove a b (x ∷ xs) =
      ground (arith, ==_iff a x, ==_iff b x, ==_iff b a, contains-remove a b xs)

  -- `xs | ys` of two sets.
  unfoldable pub union : List A → List A → List A
  unfolding add contains
  union [] ys = ys
  union (x ∷ xs) ys = add x (union xs ys)

  -- `xs <= ys` of two sets.
  unfoldable pub subset : List A → List A → Bool
  unfolding contains
  subset [] ys = true
  subset (x ∷ xs) ys = contains ys x && subset xs ys

  -- `xs == ys` of two sets.
  unfoldable pub same_set : List A → List A → Bool
  unfolding subset
  same_set xs ys = subset xs ys && subset ys xs

  pub contains-union :
      (xs ys : List A) (a : A) → contains (union xs ys) a ≡ (contains xs a || contains ys a)
  unfolding union contains
  contains-union [] ys a = refl
  contains-union (x ∷ xs) ys a =
      ground (arith, contains-add x a (union xs ys), contains-union xs ys a)

  pub contains-subset :
      (xs ys : List A) (a : A) → subset xs ys ≡ true → contains xs a ≡ true → contains ys a ≡ true
  unfolding subset contains
  contains-subset [] ys a h m = cc
  contains-subset (x ∷ xs) ys a h m = ground (arith, ==_iff a x, contains-subset xs ys a)

  pub contains-same_set :
      (xs ys : List A) (a : A) → same_set xs ys ≡ true → contains xs a ≡ true → contains ys a ≡ true
  unfolding same_set
  contains-same_set xs ys a h m = ground (arith, contains-subset xs ys a)

  pub subset-of :
      (xs ys : List A)
      → ((a : A) → contains xs a ≡ true → contains ys a ≡ true)
      → subset xs ys ≡ true
  unfolding subset contains
  subset-of [] ys h = refl
  subset-of (x ∷ xs) ys h =
      let rest = subset-of xs ys (λ a m. h a (rw m (or_true (a == x)))) in
      let now = h x (rw (==_refl x) refl) in ground arith
    where
      or_true : (b : Bool) → (b || true) ≡ true
      or_true true = refl
      or_true false = refl

  pub subset-same_set : (xs ys : List A) → same_set xs ys ≡ true → subset xs ys ≡ true
  unfolding same_set
  subset-same_set xs ys h = ground arith
