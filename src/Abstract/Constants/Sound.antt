-- ===== src/Abstract/Constants/Sound.antt =====
-- What the folded values of abstract/constants.py say of the values that a program computes.
use coretrace_python_analyze.Abstract.Value.{
  Python, AbstractValue, Truth, truth_true, truth_false, truth_unknown, unknown, no_value, is_top,
  is_bottom, truthiness, types_truth, of, kind, join_types, ConstantDescribes, constant-join_left,
  constant-join_right,
}
use coretrace_python_analyze.Abstract.Value
use coretrace_python_analyze.Dataflow.Lattice.{
  Element, bottom, top, known, same_element, same_element_iff, same_element_refl,
}
use coretrace_python_analyze.Abstract.Constants.{
  Operators, has_type, safe_types, numeric_types, binary_operators, unary_operators, result_types,
  fold_constants, fold, binary, negated, unary,
}
use coretrace_python_analyze.Base.{
  ==_iff, List, Option, String, [], arith, contains, false, list_eq, nat_eq, none, option_eq,
  pair_eq, refl, some, string_eq, subset, true, ◌∷◌, ◌≡◌, Bool, Bool-cases, contains-subset,
  contains-union, inl, inr, subset-of, union, ⊎_elim, ◌⊎◌, if◌then◌else◌, not, same_set,
  subset-same_set, ◌&&◌, ◌==◌, subst, ◌∙◌, sym, ◌||◌,
}

module _ {T : Type 0} (py : Python T) where
  -- None is the only type that is left.
  abbrev pub all_none : Option (List String) → Bool
  all_none none = false
  all_none (some ts) = subset ts ("NoneType" ∷ [])

  -- The constant, if one is known, is the value; and a value of which no other type than NoneType is
  -- left is None. (Of the types the truth of a value uses no more.)
  pub record Admits (v : AbstractValue T) (x : T) : Type 0 where
    pub constant : ConstantDescribes py v.constant x
    pub none_only : all_none v.types ≡ true → kind py x ≡ "NoneType"

  -- A constant admits whatever is equal to it.
  pub Admits-same : (x y : T) → same_element py.values x y ≡ true → Admits (of py x) y
  unfolding of subset contains
  Admits-same x y same = record {
    constant = same;
    none_only = λ h.
        sym ((same_element_iff py.values x y).0 same).0
        ∙ (==_iff (kind py x) "NoneType").0 (ground arith);
  }

  pub Admits-of : (x : T) → Admits (of py x) x
  Admits-of x = Admits-same x x (same_element_refl py.values x)

  pub Admits-unknown :
      (ts : Option (List String)) (x : T) → all_none ts ≡ false → Admits (unknown ts) x
  Admits-unknown ts x other = record { constant = tt; none_only = λ h. absurd (cc (h, other)) }

  all_none-join_left :
      (a b : Option (List String)) → all_none (join_types a b) ≡ true → all_none a ≡ true
  unfolding join_types
  all_none-join_left none b h = cc h
  all_none-join_left (some us) none h = cc h
  all_none-join_left (some us) (some ws) h =
      subset-of us ("NoneType" ∷ []) (λ t m.
        contains-subset (union us ws) ("NoneType" ∷ []) t h (rw (contains-union us ws t, m)))

  all_none-join_right :
      (a b : Option (List String)) → all_none (join_types a b) ≡ true → all_none b ≡ true
  unfolding join_types
  all_none-join_right none b h = cc h
  all_none-join_right (some us) none h = cc h
  all_none-join_right (some us) (some ws) h = subset-of ws ("NoneType" ∷ []) (λ t m.
      contains-subset (union us ws) ("NoneType" ∷ []) t h
        (let e = contains-union us ws t in ground arith))

  no_bottom : (v : AbstractValue T) (x : T) → is_bottom v.constant ≡ true → Admits v x → ⊥
  no_bottom v x e d = at v.constant e d.constant
    where
      at : (c : Element T) → is_bottom c ≡ true → ConstantDescribes py c x → ⊥
      at bottom e d = d
      at top e d = cc e
      at (known _) e d = cc e

  pub Admits-join :
      (a b : AbstractValue T) (x : T) → Admits a x ⊎ Admits b x → Admits (Value.join py a b) x
  unfolding Value.join
  Admits-join a b x h = elim (Bool-cases (is_bottom a.constant)) [
    | inl empty ↦ rw empty (⊎_elim (λ d. absurd (no_bottom a x empty d)) (λ d. d) h)
    | inr some_a ↦ elim (Bool-cases (is_bottom b.constant)) [
      | inl empty ↦ rw (some_a, empty) (⊎_elim (λ d. d) (λ d. absurd (no_bottom b x empty d)) h)
      | inr some_b ↦
          rw (some_a, some_b)
            (elim h [
              | inl d ↦ record {
                constant = constant-join_left py a.constant b.constant x d.constant;
                none_only = λ n. d.none_only (all_none-join_left a.types b.types n);
              }
              | inr d ↦ record {
                constant = constant-join_right py a.constant b.constant x d.constant;
                none_only = λ n. d.none_only (all_none-join_right a.types b.types n);
              }
            ])
    ]
  ]

  -- The truth of an abstract value is that of every value that it admits.
  pub truthiness-Admits :
      (v : AbstractValue T) (x : T)
      → Admits v x
      → (truthiness py v ≡ truth_true → py.truthy x ≡ true)
        × (truthiness py v ≡ truth_false → py.truthy x ≡ false)
  unfolding truthiness
  truthiness-Admits v x d =
      (λ h. at_true v.constant d.constant h, λ h. at_false v.constant d.constant h)
    where
      by_types :
          (ts : Option (List String))
          → (all_none ts ≡ true → kind py x ≡ "NoneType")
          → types_truth py ts ≡ truth_false
          → py.truthy x ≡ false
      by_types none m h = cc h
      by_types (some ts) m h = elim (Bool-cases (same_set ts ("NoneType" ∷ []))) [
        | inl same ↦ py.none_falsy x (m (subset-same_set ts ("NoneType" ∷ []) same))
        | inr other ↦ absurd (let e = rw other at h in cc e)
      ]

      not_true : (ts : Option (List String)) → types_truth py ts ≡ truth_true → ⊥
      not_true none h = cc h
      not_true (some ts) h = ground arith

      truth : (c : Element T) → Truth
      truth c = elim c [
        | bottom ↦ types_truth py v.types
        | top ↦ types_truth py v.types
        | known y ↦ if py.truthy y then truth_true else truth_false
      ]

      at_true :
          (c : Element T) → ConstantDescribes py c x → truth c ≡ truth_true → py.truthy x ≡ true
      at_true bottom d h = absurd d
      at_true top d h = absurd (not_true v.types h)
      at_true (known y) d h = let e = py.truthy_same y x d in ground arith

      at_false :
          (c : Element T) → ConstantDescribes py c x → truth c ≡ truth_false → py.truthy x ≡ false
      at_false bottom d h = absurd d
      at_false top e h = by_types v.types d.none_only h
      at_false (known y) d h = let e = py.truthy_same y x d in ground arith

module _ {T : Type 0} (py : Python T) where
  -- On constants that are equal an operator gives results that are.
  pub record Respects (folder : T → T → Option T) : Type 0 where
    pub respects :
        (x x' y y' z : T)
        → same_element py.values x' x ≡ true
        → same_element py.values y' y ≡ true
        → folder x y ≡ some z
        → (z' : T) × (folder x' y' ≡ some z') × (same_element py.values z' z ≡ true)

  pub record RespectsOne (folder : T → Option T) : Type 0 where
    pub respects :
        (x x' z : T)
        → same_element py.values x' x ≡ true
        → folder x ≡ some z
        → (z' : T) × (folder x' ≡ some z') × (same_element py.values z' z ≡ true)

module _ {T : Type 0} (py : Python T) (ops : Operators T) where
  fold_constants-Admits :
      (folder : T → T → Option T) (numeric_only : Bool) (x y z' z : T)
      → folder x y ≡ some z'
      → same_element py.values z' z ≡ true
      → Admits py (fold_constants py ops folder numeric_only x y) z
  unfolding fold_constants
  fold_constants-Admits folder numeric_only x y z' z h same =
      elim (Bool-cases (not (has_type py ops safe_types x && has_type py ops safe_types y))) [
        | inl unsafe ↦ rw unsafe (Admits-unknown py none z refl)
        | inr safe ↦
            rw safe
              (elim (Bool-cases (
                numeric_only
                && not (has_type py ops numeric_types x && has_type py ops numeric_types y))) [
                  | inl other ↦ rw other (Admits-unknown py none z refl)
                  | inr numeric ↦ rw (numeric, h) (Admits-same py z' z same)
                ])
      ]

  -- Folding is right for whatever the operator gives: the folded value admits it.
  pub fold-Admits :
      (folder : T → T → Option T) (numeric_only : Bool) (a b : AbstractValue T) (x y z : T)
      → Respects py folder
      → Admits py a x
      → Admits py b y
      → folder x y ≡ some z
      → Admits py (fold py ops folder numeric_only a b) z
  unfolding fold
  fold-Admits folder numeric_only a b x y z lawful d e h =
      at a.constant b.constant d.constant e.constant
    where
      folded : Element T → Element T → AbstractValue T
      folded p q = elim p [
        | bottom ↦ unknown none
        | top ↦ unknown none
        | known x ↦ elim q [
          | bottom ↦ unknown none
          | top ↦ unknown none
          | known y ↦ fold_constants py ops folder numeric_only x y
        ]
      ]

      at :
          (p q : Element T)
          → ConstantDescribes py p x
          → ConstantDescribes py q y
          → Admits py (folded p q) z
      at bottom q d e = absurd d
      at top q d e = Admits-unknown py none z refl
      at (known _) bottom d e = absurd e
      at (known _) top d e = Admits-unknown py none z refl
      at (known x') (known y') d e =
          let (z', folded, same) = lawful.respects x x' y y' z d e h in
          fold_constants-Admits folder numeric_only x' y' z' z folded same

  all_none-if :
      (c : Bool) (a b : Option (List String))
      → all_none py a ≡ false
      → all_none py b ≡ false
      → all_none py (if c then a else b) ≡ false
  all_none-if true a b h g = h
  all_none-if false a b h g = g

  result_types-not_none :
      (operator : String) (a b : Option (List String))
      → all_none py (result_types operator a b) ≡ false
  unfolding result_types subset contains
  result_types-not_none operator none b = refl
  result_types-not_none operator (some a) none = refl
  result_types-not_none operator (some a) (some b) =
      let as_str : Option (List String) =
        if operator == "add" && same_set a b && same_set b ("str" ∷ [])
        then some ("str" ∷ [])
        else none in
      let as_int : Option (List String) =
        if subset a numeric_types && subset b numeric_types && contains binary_operators operator
        then some ("int" ∷ [])
        else as_str in
      all_none-if
        (subset a numeric_types
          && subset b numeric_types
          && (operator == "div" || contains (union a b) "float"))
        (some ("float" ∷ [])) as_int refl
        (all_none-if
          (subset a numeric_types && subset b numeric_types && contains binary_operators operator)
          (some ("int" ∷ [])) as_str refl
          (all_none-if (operator == "add" && same_set a b && same_set b ("str" ∷ []))
            (some ("str" ∷ [])) none refl refl))

  pub binary-Admits :
      (operator : String) (a b : AbstractValue T) (x y z : T)
      → Respects py (ops.apply operator)
      → Admits py a x
      → Admits py b y
      → ops.apply operator x y ≡ some z
      → Admits py (binary py ops operator a b) z
  unfolding binary
  binary-Admits operator a b x y z lawful d e h =
      let folded = fold py ops (ops.apply operator) (operator == "mul") a b in
      elim (Bool-cases (contains binary_operators operator && not (is_top folded.constant))) [
        | inl constant ↦
            rw constant
              (fold-Admits (ops.apply operator) (operator == "mul") a b x y z lawful d e h)
        | inr typed ↦ rw typed (
            Admits-unknown py (result_types operator a.types b.types) z
              (result_types-not_none operator a.types b.types))
      ]

  -- The value of a unary operator: `not` never raises.
  unfoldable pub applied : String → T → Option T
  applied operator x =
      if operator == "not" then some (ops.truth (not (py.truthy x))) else ops.apply_one operator x

  negated-Admits :
      (t : Truth) (x : T)
      → (t ≡ truth_true → py.truthy x ≡ true) × (t ≡ truth_false → py.truthy x ≡ false)
      → Admits py (negated py ops t) (ops.truth (not (py.truthy x)))
  unfolding negated subset contains
  negated-Admits truth_true x h = rw (h.0 refl) (Admits-of py (ops.truth false))
  negated-Admits truth_false x h = rw (h.1 refl) (Admits-of py (ops.truth true))
  negated-Admits truth_unknown x h =
      Admits-unknown py (some ("bool" ∷ [])) (ops.truth (not (py.truthy x))) refl

  pub unary-Admits :
      (operator : String) (a : AbstractValue T) (x z : T)
      → RespectsOne py (ops.apply_one operator)
      → Admits py a x
      → applied operator x ≡ some z
      → Admits py (unary py ops operator a) z
  unfolding unary applied
  unary-Admits operator a x z lawful d h = elim (Bool-cases (operator == "not")) [
    | inl not_ ↦
        let e : ops.truth (not (py.truthy x)) ≡ z = some_inj (rw not_ at h) in
        rw not_ (
          subst (λ z. Admits py (negated py ops (truthiness py a)) z) e
            (negated-Admits (truthiness py a) x (truthiness-Admits py a x d)))
    | inr other ↦ rw other (elim (Bool-cases (contains unary_operators operator)) [
      | inl listed ↦ rw listed (at a.constant d.constant (rw other at h))
      | inr unknown_one ↦ rw unknown_one (Admits-unknown py none z refl)
    ])
  ]
    where
      some_inj : {u w : T} → some u ≡ some w → u ≡ w
      some_inj e = cc e

      folded : Element T → AbstractValue T
      folded p = elim p [
        | bottom ↦ unknown none
        | top ↦ unknown none
        | known x ↦
            if has_type py ops numeric_types x
            then (elim (ops.apply_one operator x) [ none ↦ unknown none | some z ↦ of py z ])
            else unknown none
      ]

      at :
          (p : Element T)
          → ConstantDescribes py p x
          → ops.apply_one operator x ≡ some z
          → Admits py (folded p) z
      at bottom d g = absurd d
      at top d g = Admits-unknown py none z refl
      at (known x') d g = elim (Bool-cases (has_type py ops numeric_types x')) [
        | inl numeric ↦
            let (z', folded, same) = lawful.respects x x' z d g in
            rw (numeric, folded) (Admits-same py z' z same)
        | inr other ↦ rw other (Admits-unknown py none z refl)
      ]
