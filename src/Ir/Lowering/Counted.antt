-- ===== src/Ir/Lowering/Counted.antt =====
-- Values below a count, and what instructions define and read: lemmas on lowered code.
use coretrace_python_analyze.Findings.{SourceSpan}
use coretrace_python_analyze.Ir.{
  Value, Instruction, computes, affects, value_result, operands, from_option,
}
use coretrace_python_analyze.Base.{
  All, Dict, List, [], ◌∷◌, ◌++◌, ◌&&◌, Option, none, some, ℕ, suc, ◌+◌, ◌≤◌, ◌≡◌, count, leb, ltb,
  if◌then◌else◌, arith, nat_eq, put, get, Eq, Bool-cases, inl, inr, ◌==◌, ==_iff, list_eq,
  option_eq, pair_eq, string_eq,
}

abbrev pub Below : ℕ → Value → Type 0
Below n v = suc v ≤ n

pub All-Below : (n k : ℕ) (vs : List Value) → n ≤ k → All (Below n) vs → All (Below k) vs
All-Below n k [] le h = tt
All-Below n k (v ∷ vs) le h = (omega (arith, le, h.0), All-Below n k vs le h.1)

pub All-Below-append :
    (n : ℕ) (us vs : List Value) → All (Below n) us → All (Below n) vs → All (Below n) (us ++ vs)
All-Below-append n [] vs h k = k
All-Below-append n (u ∷ us) vs h k = (h.0, All-Below-append n us vs h.1 k)

-- Of a dictionary's values.
abbrev pub AllValues : {K : Type 0} → ℕ → Dict K Value → Type 0
AllValues n [] = Unit {0}
AllValues n ((_, v) ∷ d) = Below n v × AllValues n d

-- A value that is there, if one is.
abbrev pub IfAny : ℕ → Option Value → Type 0
IfAny n none = Unit {0}
IfAny n (some v) = Below n v

-- What a method gives, after so many values.
abbrev pub IsValue : Value → ℕ → Type 0
IsValue v k = Below k v

abbrev pub IsDone : Unit {0} → ℕ → Type 0
IsDone _ _ = Unit {0}

abbrev pub AreValues : List Value → ℕ → Type 0
AreValues vs k = All (Below k) vs

abbrev pub IsOption : Option Value → ℕ → Type 0
IsOption o k = IfAny k o

pub IsOption-values :
    (o : Option Value) (n k : ℕ) → n ≤ k → IsOption o n → All (Below k) (from_option o)
IsOption-values none n k le h = tt
IsOption-values (some v) n k le h = (omega (arith, le, h), tt)

module _ {K : Type 0} where
  pub AllValues-mono : (n k : ℕ) (d : Dict K Value) → n ≤ k → AllValues n d → AllValues k d
  AllValues-mono n k [] le h = tt
  AllValues-mono n k ((_, v) ∷ d) le h = (omega (arith, le, h.0), AllValues-mono n k d le h.1)

  pub AllValues-put :
      ⦃e : Eq K⦄ (n : ℕ) (x : K) (v : Value) (d : Dict K Value)
      → Below n v
      → AllValues n d
      → AllValues n (put x v d)
  unfolding put
  AllValues-put n x v [] h k = (h, tt)
  AllValues-put n x v ((y, w) ∷ d) h k = elim (Bool-cases (x == y)) [
    | inl same ↦ rw same (h, k.1)
    | inr other ↦ rw other (k.0, AllValues-put n x v d h k.1)
  ]

  pub AllValues-get :
      ⦃e : Eq K⦄ (n : ℕ) (x : K) (d : Dict K Value) → AllValues n d → IfAny n (get x d)
  unfolding get
  AllValues-get n x [] h = tt
  AllValues-get n x ((y, w) ∷ d) h = elim (Bool-cases (x == y)) [
    | inl same ↦ rw same h.0
    | inr other ↦ rw other (AllValues-get n x d h.1)
  ]

-- The values that instructions define, and those that they read.
unfoldable pub defined_values : {T : Type 0} → List (Instruction T SourceSpan) → List Value
unfolding value_result
defined_values [] = []
defined_values (computes i ∷ more) = value_result i ∷ defined_values more
defined_values (affects i ∷ more) = defined_values more

-- What each reads.
abbrev pub IsRead : {T : Type 0} → ℕ → List (Instruction T SourceSpan) → Type 0
IsRead n [] = Unit {0}
IsRead n (i ∷ more) = All (Below n) (operands i) × IsRead n more

-- One, from `a` up to `b`.
abbrev pub among : ℕ → ℕ → Value → ℕ
among a b v = if leb a v && ltb v b then 1 else 0

pub among_none : (a : ℕ) (v : Value) (x y : ℕ) → x ≡ y + 0 → x ≡ y + among a a v
among_none a v x y h = ground (arith, h)

pub among_both :
    (a b c : ℕ) (v : Value) (x y z : ℕ)
    → a ≤ b
    → b ≤ c
    → y ≡ x + among a b v
    → z ≡ y + among b c v
    → z ≡ x + among a c v
among_both a b c v x y z le le' h k = ground (arith, le, le', h, k)

pub among_first :
    (a c v : ℕ) (x y z : ℕ)
    → suc a ≤ c
    → y ≡ x + among (suc a) c v
    → z ≡ y + ((if v == a then 1 else 0) + 0)
    → z ≡ x + among a c v
among_first a c v x y z le h k = ground (arith, le, h, k, ==_iff v a)

module _ {T : Type 0} where
  pub defined_values-append :
      (v : Value) (is js : List (Instruction T SourceSpan))
      → count v (defined_values (is ++ js))
        ≡ count v (defined_values is) + count v (defined_values js)
  unfolding defined_values count
  defined_values-append v [] js = omega arith
  defined_values-append v (computes i ∷ is) js = omega (arith, defined_values-append v is js)
  defined_values-append v (affects i ∷ is) js = defined_values-append v is js

  pub IsRead-mono :
      (n k : ℕ) (is : List (Instruction T SourceSpan)) → n ≤ k → IsRead n is → IsRead k is
  IsRead-mono n k [] le h = tt
  IsRead-mono n k (i ∷ is) le h = (All-Below n k (operands i) le h.0, IsRead-mono n k is le h.1)

  pub IsRead-append :
      (n : ℕ) (is : List (Instruction T SourceSpan)) (i : Instruction T SourceSpan)
      → IsRead n is
      → All (Below n) (operands i)
      → IsRead n (is ++ i ∷ [])
  IsRead-append n [] i h k = (k, tt)
  IsRead-append n (j ∷ is) i h k = (h.0, IsRead-append n is i h.1 k)
