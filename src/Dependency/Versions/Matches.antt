-- ===== src/Dependency/Versions/Matches.antt =====
-- The requirements that dependency/graph.py finds to meet a vulnerable range.
use coretrace_python_analyze.Dependency.Versions.{
  Version, Operator, equal, identical, differs, less, at_most, greater, at_least, compatible, caret,
  compatible_ceiling, caret_ceiling, is_lower, satisfies, lower_bounds, Specifier, Requirement,
  any_satisfies, may_match, satisfies_all, clause_bounds, Clause,
}
use coretrace_python_analyze.Dependency.Versions.Order.{before, before-asym, before-split}
use coretrace_python_analyze.Dependency.Versions.Clauses.{allows, satisfies_clause-allows}
use coretrace_python_analyze.Base.{
  All, All-at, Bool, Bool-cases, List, Memᴰ, Memᴰ-append, Memᴰ-cons, Memᴰ-nil, [], arith, false,
  inl, inr, list_eq, nat_eq, none, not, option_eq, pair_eq, refl, string_eq, true, ⊎_elim, ◌&&◌,
  ◌++◌, ◌∙◌, ◌∷◌, ◌≡◌, ◌⊎◌,
}

-- The clauses whose allowed versions have a least one: neither `>`, `!=` nor `.*`.
unfoldable pub is_inclusive : Operator → Bool → Bool
is_inclusive equal wildcard = not wildcard
is_inclusive identical wildcard = not wildcard
is_inclusive differs wildcard = false
is_inclusive less wildcard = true
is_inclusive at_most wildcard = true
is_inclusive greater wildcard = false
is_inclusive at_least wildcard = true
is_inclusive compatible wildcard = true
is_inclusive caret wildcard = true

before-lower : (v m u : Version) → before v m ≡ false → before v u ≡ true → before m u ≡ true
before-lower v m u le h = elim (before-split v u m h) [ inl e ↦ absurd (cc (e, le)) | inr e ↦ e ]

not_before-lower : (v m u : Version) → before v m ≡ false → before u v ≡ false → before u m ≡ false
not_before-lower v m u le h = elim (Bool-cases (before u m)) [
  | inl e ↦ elim (before-split u m v e) [ inl e ↦ absurd (cc (e, h)) | inr e ↦ absurd (cc (e, le)) ]
  | inr e ↦ e
]

-- A lower version that is still above the clause's own bound is allowed too.
allows-lower :
    (v m : Version) (operator : Operator) (wanted : Version) (wildcard : Bool)
    → is_inclusive operator wildcard ≡ true
    → allows v operator wanted wildcard ≡ true
    → before v m ≡ false
    → (is_lower operator ≡ true → before m wanted ≡ false)
    → allows m operator wanted wildcard ≡ true
unfolding is_inclusive allows is_lower
allows-lower v m equal wanted wildcard i h le bound =
    ground (arith, bound refl, not_before-lower v m wanted le)
allows-lower v m identical wanted wildcard i h le bound =
    ground (arith, bound refl, not_before-lower v m wanted le)
allows-lower v m differs wanted wildcard i h le bound = cc i
allows-lower v m less wanted wildcard i h le bound = before-lower v m wanted le h
allows-lower v m at_most wanted wildcard i h le bound =
    ground (arith, not_before-lower v m wanted le)
allows-lower v m greater wanted wildcard i h le bound = cc i
allows-lower v m at_least wanted wildcard i h le bound = ground (arith, bound refl)
allows-lower v m compatible wanted wildcard i h le bound =
    ground (arith, bound refl, before-lower v m (compatible_ceiling wanted) le)
allows-lower v m caret wanted wildcard i h le bound =
    ground (arith, bound refl, before-lower v m (caret_ceiling wanted) le)

abbrev pub IsInclusive : List Clause → Type 0
IsInclusive cs = All (λ (c : Clause). is_inclusive c.operator c.wildcard ≡ true) cs

allows-bound :
    (v : Version) (operator : Operator) (wanted : Version) (wildcard : Bool)
    → is_inclusive operator wildcard ≡ true
    → is_lower operator ≡ true
    → allows v operator wanted wildcard ≡ true
    → before v wanted ≡ false
unfolding is_inclusive allows is_lower
allows-bound v equal wanted wildcard i l h = ground arith
allows-bound v identical wanted wildcard i l h = ground arith
allows-bound v differs wanted wildcard i l h = cc i
allows-bound v less wanted wildcard i l h = cc l
allows-bound v at_most wanted wildcard i l h = cc l
allows-bound v greater wanted wildcard i l h = cc i
allows-bound v at_least wanted wildcard i l h = ground arith
allows-bound v compatible wanted wildcard i l h = ground arith
allows-bound v caret wanted wildcard i l h = ground arith

-- What holds of the clauses of an alternative, one by one.
satisfies_all-cons :
    (v : Version) (c : Clause) (cs : List Clause)
    → satisfies_all v (c ∷ cs) ≡ (allows v c.operator c.wanted c.wildcard && satisfies_all v cs)
unfolding satisfies_all
satisfies_all-cons v c cs = rw (← satisfies_clause-allows v c.operator c.wanted c.wildcard) refl

bounds_below :
    (v : Version) (cs : List Clause)
    → IsInclusive cs
    → satisfies_all v cs ≡ true
    → (w : Version) → Memᴰ w (clause_bounds cs)
    → before v w ≡ false
unfolding clause_bounds
bounds_below v [] i h w m = absurd (Memᴰ-nil m)
bounds_below v (c ∷ cs) (i, is) h w m = elim (Bool-cases (is_lower c.operator)) [
  | inl lower ↦ elim ((Memᴰ-cons w c.wanted (clause_bounds cs)).0 (rw lower at m)) [
    | inl here ↦ rw here (
        allows-bound v c.operator c.wanted c.wildcard i lower
          (let e = satisfies_all-cons v c cs in ground arith))
    | inr later ↦ bounds_below v cs is (let e = satisfies_all-cons v c cs in ground arith) w later
  ]
  | inr other ↦
      bounds_below v cs is (let e = satisfies_all-cons v c cs in ground arith) w (rw other at m)
]

satisfies_all-lower :
    (v m : Version) (cs : List Clause)
    → IsInclusive cs
    → satisfies_all v cs ≡ true
    → before v m ≡ false
    → ((w : Version) → Memᴰ w (clause_bounds cs) → before m w ≡ false)
    → satisfies_all m cs ≡ true
satisfies_all-lower v m [] i h le above = unfold satisfies_all in refl
satisfies_all-lower v m (c ∷ cs) (i, is) h le above =
    let e = satisfies_all-cons v c cs in
    let rest =
      satisfies_all-lower v m cs is (ground arith) le
        (λ w k. above w (later (Bool-cases (is_lower c.operator)) k)) in
    let now =
      allows-lower v m c.operator c.wanted c.wildcard i (ground arith) le
        (λ l. above c.wanted (first l)) in
    satisfies_all-cons m c cs ∙ rw (now, rest) refl
  where
    first : is_lower c.operator ≡ true → Memᴰ c.wanted (clause_bounds (c ∷ cs))
    first l = unfold clause_bounds in rw l (Memᴰ.head refl)

    later :
        {w : Version}
        → ((is_lower c.operator ≡ true) ⊎ (is_lower c.operator ≡ false))
        → Memᴰ w (clause_bounds cs)
        → Memᴰ w (clause_bounds (c ∷ cs))
    later (inl l) k = unfold clause_bounds in rw l (Memᴰ.tail k)
    later (inr l) k = unfold clause_bounds in rw l k

before-same : (v : Version) → before v v ≡ false
before-same v = elim (Bool-cases (before v v)) [
  | inl e ↦ absurd (let g = before-asym v v e in cc (e, g))
  | inr e ↦ e
]

before-zero : (v : Version) → before v (0 ∷ []) ≡ false
unfolding before
before-zero [] = ground arith
before-zero (x ∷ xs) = ground arith

-- The greatest of the bounds below `v`, or 0 if there is none.
greatest :
    (v : Version) (ws : List Version)
    → ((w : Version) → Memᴰ w ws → before v w ≡ false)
    → (m : Version) × Memᴰ m ((0 ∷ []) ∷ ws)
      × (before v m ≡ false)
      × ((w : Version) → Memᴰ w ws → before m w ≡ false)
greatest v [] h = (0 ∷ [], Memᴰ.head refl, before-zero v, λ w m. absurd (Memᴰ-nil m))
greatest v (w ∷ ws) h =
    let (m, k, le, above) = greatest v ws (λ u n. h u (Memᴰ.tail n)) in
    elim (Bool-cases (before m w)) [
      | inl less_than ↦ (
        w,
        Memᴰ.tail (Memᴰ.head refl),
        h w (Memᴰ.head refl),
        λ u n. over m w u less_than above (split n),
      )
      | inr not_less ↦ (m, further k, le, λ u n. over_same m w u not_less above (split n))
    ]
  where
    split : {u : Version} → Memᴰ u (w ∷ ws) → (u ≡ w) ⊎ Memᴰ u ws
    split {u = u} n = (Memᴰ-cons u w ws).0 n

    further : {m : Version} → Memᴰ m ((0 ∷ []) ∷ ws) → Memᴰ m ((0 ∷ []) ∷ w ∷ ws)
    further (Memᴰ.head e) = Memᴰ.head e
    further (Memᴰ.tail n) = Memᴰ.tail (Memᴰ.tail n)

    over :
        (m w u : Version)
        → before m w ≡ true
        → ((u : Version) → Memᴰ u ws → before m u ≡ false)
        → ((u ≡ w) ⊎ Memᴰ u ws)
        → before w u ≡ false
    over m w u less_than above (inl e) = rw e (before-same w)
    over m w u less_than above (inr n) = elim (Bool-cases (before w u)) [
      | inl e ↦ elim (before-split w u m e) [
        | inl back ↦ absurd (let g = before-asym m w less_than in cc (back, g))
        | inr up ↦ absurd (let g = above u n in cc (up, g))
      ]
      | inr e ↦ e
    ]

    over_same :
        (m w u : Version)
        → before m w ≡ false
        → ((u : Version) → Memᴰ u ws → before m u ≡ false)
        → ((u ≡ w) ⊎ Memᴰ u ws)
        → before m u ≡ false
    over_same m w u not_less above (inl e) = rw e not_less
    over_same m w u not_less above (inr n) = above u n

-- A version that an alternative allows, and what that alternative is.
satisfies-alternative :
    (v : Version) (s : Specifier)
    → satisfies v s ≡ true
    → (cs : List Clause) × Memᴰ cs s × (satisfies_all v cs ≡ true)
unfolding satisfies
satisfies-alternative v [] h = cc h
satisfies-alternative v (a ∷ more) h = elim (Bool-cases (satisfies_all v a)) [
  | inl now ↦ (a, Memᴰ.head refl, now)
  | inr other ↦
      let (cs, m, e) = satisfies-alternative v more (rw other at h) in (cs, Memᴰ.tail m, e)
]

satisfies-of :
    (v : Version) (s : Specifier) (cs : List Clause)
    → Memᴰ cs s
    → satisfies_all v cs ≡ true
    → satisfies v s ≡ true
unfolding satisfies
satisfies-of v [] cs m h = absurd (Memᴰ-nil m)
satisfies-of v (a ∷ more) cs (Memᴰ.head e) h = let g = rw e at h in rw g refl
satisfies-of v (a ∷ more) cs (Memᴰ.tail m) h = let g = satisfies-of v more cs m h in ground arith

bounds_of_alternative :
    (s : Specifier) (cs : List Clause) (w : Version)
    → Memᴰ cs s
    → Memᴰ w (clause_bounds cs)
    → Memᴰ w (lower_bounds s)
unfolding lower_bounds
bounds_of_alternative [] cs w m k = absurd (Memᴰ-nil m)
bounds_of_alternative (a ∷ more) cs w (Memᴰ.head e) k =
    (Memᴰ-append w (clause_bounds a) (lower_bounds more)).1 (inl (rw e at k))
bounds_of_alternative (a ∷ more) cs w (Memᴰ.tail m) k =
    (Memᴰ-append w (clause_bounds a) (lower_bounds more)).1
      (inr (bounds_of_alternative more cs w m k))

any_satisfies-of :
    (s u : Specifier) (vs : List Version) (v : Version)
    → Memᴰ v vs
    → satisfies v s ≡ true
    → satisfies v u ≡ true
    → any_satisfies s u vs ≡ true
unfolding any_satisfies
any_satisfies-of s u [] v m h g = absurd (Memᴰ-nil m)
any_satisfies-of s u (x ∷ vs) v (Memᴰ.head e) h g =
    let h' = rw e at h in let g' = rw e at g in ground arith
any_satisfies-of s u (x ∷ vs) v (Memᴰ.tail m) h g =
    let r = any_satisfies-of s u vs v m h g in ground arith

-- A requirement that is not pinned meets a vulnerable range whenever some version is in both, where
-- no clause of either is a `>`, a `!=` or a `.*`.
pub may_match_complete :
    (r : Requirement) (vulnerable : Specifier) (v : Version)
    → r.pinned ≡ none
    → All IsInclusive r.specifier
    → All IsInclusive vulnerable
    → satisfies v r.specifier ≡ true
    → satisfies v vulnerable ≡ true
    → may_match r vulnerable ≡ true
unfolding may_match any_satisfies
may_match_complete r vulnerable v unpinned i j h g =
    let (a, m, a_v) = satisfies-alternative v r.specifier h in
    let (b, n, b_v) = satisfies-alternative v vulnerable g in
    let a_i = All-at IsInclusive r.specifier i m in
    let b_i = All-at IsInclusive vulnerable j n in
    let bounds = clause_bounds a ++ clause_bounds b in
    let (least, where_from, le, above) = greatest v bounds (λ w k.
      ⊎_elim (bounds_below v a a_i a_v w) (bounds_below v b b_i b_v w)
        ((Memᴰ-append w (clause_bounds a) (clause_bounds b)).0 k)) in
    let a_least =
      satisfies_all-lower v least a a_i a_v le
        (λ w k. above w ((Memᴰ-append w (clause_bounds a) (clause_bounds b)).1 (inl k))) in
    let b_least =
      satisfies_all-lower v least b b_i b_v le
        (λ w k. above w ((Memᴰ-append w (clause_bounds a) (clause_bounds b)).1 (inr k))) in
    tried unpinned (
      any_satisfies-of r.specifier vulnerable
        ((0 ∷ []) ∷ lower_bounds r.specifier ++ lower_bounds vulnerable) least
        (candidate a b m n where_from) (satisfies-of least r.specifier a m a_least)
        (satisfies-of least vulnerable b n b_least))
  where
    candidate :
        {least : Version} (a b : List Clause)
        → Memᴰ a r.specifier
        → Memᴰ b vulnerable
        → Memᴰ least ((0 ∷ []) ∷ clause_bounds a ++ clause_bounds b)
        → Memᴰ least ((0 ∷ []) ∷ lower_bounds r.specifier ++ lower_bounds vulnerable)
    candidate a b m n (Memᴰ.head e) = Memᴰ.head e
    candidate {least = least} a b m n (Memᴰ.tail k) = Memᴰ.tail (
        (Memᴰ-append least (lower_bounds r.specifier) (lower_bounds vulnerable)).1 (
          ⊎_elim (λ q. inl (bounds_of_alternative r.specifier a least m q))
            (λ q. inr (bounds_of_alternative vulnerable b least n q))
            ((Memᴰ-append least (clause_bounds a) (clause_bounds b)).0 k)))

    tried :
        r.pinned ≡ none
        → any_satisfies r.specifier vulnerable
            ((0 ∷ []) ∷ lower_bounds r.specifier ++ lower_bounds vulnerable)
          ≡ true
        → may_match r vulnerable ≡ true
    tried p e = rw (p, may_match) e
