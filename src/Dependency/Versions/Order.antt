-- ===== src/Dependency/Versions/Order.antt =====
-- The order of versions, whatever the length to which dependency/graph.py pads them.
use coretrace_python_analyze.Dependency.Versions.{Version, zeros, padded, tuple_lt}
use coretrace_python_analyze.Base.{
  Bool, [], ap, arith, eqb, false, inr, length, list_eq, ltb, nat_eq, option_eq, pair_eq, refl,
  string_eq, suc, sym, true, ℕ, ◌&&◌, ◌++◌, ◌-◌, ◌||◌, ◌∙◌, ◌∷◌, ◌≡◌, ◌≤◌, ◌⊎◌, not, zero, ◌==◌,
}

-- `v` is before `w`, the parts that are missing being 0.
unfoldable pub before : Version → Version → Bool
before v [] = false
before [] (y ∷ ys) = ltb 0 y || before [] ys
before (x ∷ xs) (y ∷ ys) = ltb x y || (eqb x y && before xs ys)

pub before-asym : (v w : Version) → before v w ≡ true → before w v ≡ false
unfolding before
before-asym v [] h = cc h
before-asym [] (y ∷ ys) h = refl
before-asym (x ∷ xs) (y ∷ ys) h = ground (arith, before-asym xs ys)

pub before-split : (v w u : Version) → before v w ≡ true → (before v u ≡ true) ⊎ (before u w ≡ true)
unfolding before
before-split v [] u h = cc h
before-split [] (y ∷ ys) [] h = inr h
before-split [] (y ∷ ys) (z ∷ zs) h = ground (arith, before-split [] ys zs)
before-split (x ∷ xs) (y ∷ ys) [] h = ground (arith, before-split xs ys [])
before-split (x ∷ xs) (y ∷ ys) (z ∷ zs) h = ground (arith, before-split xs ys zs)

padded-cons : (n x : ℕ) (xs : Version) → padded (suc n) (x ∷ xs) ≡ x ∷ padded n xs
unfolding padded
padded-cons n x xs =
    let e : suc n - suc (length xs) ≡ n - length xs = omega arith in ap (λ k. x ∷ xs ++ zeros k) e

padded-nil : (n : ℕ) → padded (suc n) [] ≡ 0 ∷ padded n []
unfolding padded
padded-nil n =
    let e : suc n - 0 ≡ suc n = omega arith in
    let g : n - 0 ≡ n = omega arith in ap (λ k. zeros k) e ∙ ap (λ k. 0 ∷ zeros k) (sym g)

-- At any length that takes both, `<` of the padded tuples is `before`.
pub tuple_lt-padded :
    (n : ℕ) (v w : Version)
    → length v ≤ n
    → length w ≤ n
    → tuple_lt (padded n v) (padded n w) ≡ before v w
unfolding before tuple_lt
tuple_lt-padded zero [] [] h g = unfold padded in refl
tuple_lt-padded zero (x ∷ xs) w h g = absurd (omega (arith, h))
tuple_lt-padded zero [] (y ∷ ys) h g = absurd (omega (arith, g))
tuple_lt-padded (suc n) [] [] h g =
    let p = padded-nil n in
    let i = tuple_lt-padded n [] [] (omega arith) (omega arith) in rw (p, i) (ground arith)
tuple_lt-padded (suc n) [] (y ∷ ys) h g =
    let i = tuple_lt-padded n [] ys (omega arith) (omega (arith, g)) in
    rw (padded-nil n, padded-cons n y ys, i) (ground arith)
tuple_lt-padded (suc n) (x ∷ xs) [] h g =
    let i = tuple_lt-padded n xs [] (omega (arith, h)) (omega arith) in
    rw (padded-nil n, padded-cons n x xs, i) (ground arith)
tuple_lt-padded (suc n) (x ∷ xs) (y ∷ ys) h g =
    let i = tuple_lt-padded n xs ys (omega (arith, h)) (omega (arith, g)) in
    rw (padded-cons n x xs, padded-cons n y ys, i) refl

-- Padded to the length of `w`, or longer as it is, `v` is before `w` as a tuple when it is one.
pub tuple_lt-padded_left : (v w : Version) → tuple_lt (padded (length w) v) w ≡ before v w
unfolding before tuple_lt
tuple_lt-padded_left v [] = refl
tuple_lt-padded_left [] (y ∷ ys) =
    let i = tuple_lt-padded_left [] ys in rw (padded-nil (length ys), i) (ground arith)
tuple_lt-padded_left (x ∷ xs) (y ∷ ys) =
    let i = tuple_lt-padded_left xs ys in rw (padded-cons (length ys) x xs, i) refl

-- At any such length, the padded tuples are one when neither version is before the other.
pub padded-equal :
    (n : ℕ) (v w : Version)
    → length v ≤ n
    → length w ≤ n
    → (padded n v == padded n w) ≡ (not (before v w) && not (before w v))
unfolding before
padded-equal zero [] [] h g = unfold padded in refl
padded-equal zero (x ∷ xs) w h g = absurd (omega (arith, h))
padded-equal zero [] (y ∷ ys) h g = absurd (omega (arith, g))
padded-equal (suc n) [] [] h g =
    let i = padded-equal n [] [] (omega arith) (omega arith) in rw (padded-nil n) (ground arith)
padded-equal (suc n) [] (y ∷ ys) h g =
    let i = padded-equal n [] ys (omega arith) (omega (arith, g)) in
    rw (padded-nil n, padded-cons n y ys) (ground arith)
padded-equal (suc n) (x ∷ xs) [] h g =
    let i = padded-equal n xs [] (omega (arith, h)) (omega arith) in
    rw (padded-nil n, padded-cons n x xs) (ground arith)
padded-equal (suc n) (x ∷ xs) (y ∷ ys) h g =
    let i = padded-equal n xs ys (omega (arith, h)) (omega (arith, g)) in
    rw (padded-cons n x xs, padded-cons n y ys) (ground arith)
