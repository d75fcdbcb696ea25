-- ===== src/Abstract/Value.antt =====
-- abstract/values.py: what is known of one value, its constant and its possible types.
use coretrace_python_analyze.Dataflow.Lattice.{
  Element, bottom, top, known, Values, same_element, same_element_iff, same_element_refl,
  same_element_trans,
}
use coretrace_python_analyze.Dataflow.Lattice
use coretrace_python_analyze.Base.{
  ==_refl, Bool, Bool-cases, List, Option, String, [], arith, contains, contains-union, false,
  if◌then◌else◌, inl, inr, list_eq, nat_eq, none, option_eq, pair_eq, same_set, some, string_eq,
  true, union, ◌∷◌, ◌≡◌, ==_iff, contains-same_set, ⊎_elim, ◌⊎◌,
}

pub data Truth : Type 0 where
  truth_true truth_false truth_unknown : Truth

-- Python's constants, which the engine holds as objects: their types, `==` and truth.
pub record Python (T : Type 0) : Type 0 where
  pub values : Values T
  pub truthy : T → Bool
  -- Constants that are equal are true or false alike.
  pub truthy_same : (x y : T) → same_element values x y ≡ true → truthy x ≡ truthy y
  -- None is the only value of its type, and it is false.
  pub none_falsy : (x : T) → values.kind x ≡ "NoneType" → truthy x ≡ false

pub record AbstractValue (T : Type 0) : Type 0 where
  pub constant : Element T
  pub types : Option (List String)

unfoldable pub join_types : Option (List String) → Option (List String) → Option (List String)
join_types none b = none
join_types (some a) none = none
join_types (some a) (some b) = some (union a b)

module _ {T : Type 0} where
  abbrev pub unknown : Option (List String) → AbstractValue T
  unknown types = record { constant = top; types = types }

  abbrev pub no_value : AbstractValue T
  no_value = record { constant = bottom; types = some [] }

  abbrev pub is_top : Element T → Bool
  is_top top = true
  is_top bottom = false
  is_top (known _) = false

  abbrev pub is_bottom : Element T → Bool
  is_bottom bottom = true
  is_bottom top = false
  is_bottom (known _) = false

  module _ (py : Python T) where
    abbrev pub kind : T → String
    kind = py.values.kind

    unfoldable pub of : T → AbstractValue T
    of x = record { constant = known x; types = some (kind x ∷ []) }

    -- The truth of a value whose constant is not known.
    unfoldable pub types_truth : Option (List String) → Truth
    types_truth none = truth_unknown
    types_truth (some ts) = if same_set ts ("NoneType" ∷ []) then truth_false else truth_unknown

    unfoldable pub truthiness : AbstractValue T → Truth
    unfolding types_truth
    truthiness v = elim v.constant [
      | bottom ↦ types_truth v.types
      | top ↦ types_truth v.types
      | known x ↦ if py.truthy x then truth_true else truth_false
    ]

    unfoldable pub join : AbstractValue T → AbstractValue T → AbstractValue T
    unfolding join_types
    join a b =
        let merged : AbstractValue T = record {
          constant = Lattice.join py.values a.constant b.constant;
          types = join_types a.types b.types;
        } in
        if is_bottom a.constant then b else if is_bottom b.constant then a else merged

    -- The objects that an abstract value describes: a known constant is equal to them.
    abbrev pub ConstantDescribes : Element T → T → Type 0
    ConstantDescribes bottom x = ⊥
    ConstantDescribes top x = Unit {0}
    ConstantDescribes (known c) x = same_element py.values c x ≡ true

    abbrev pub TypesDescribe : Option (List String) → T → Type 0
    TypesDescribe none x = Unit {0}
    TypesDescribe (some ts) x = contains ts (kind x) ≡ true

    pub record Describes (v : AbstractValue T) (x : T) : Type 0 where
      pub constant : ConstantDescribes v.constant x
      pub types : TypesDescribe v.types x

    -- A constant describes itself.
    pub Describes-of : (x : T) → Describes (of x) x
    unfolding of contains
    Describes-of x = record { constant = same_element_refl py.values x; types = rw ==_refl }

    Describes-unknown :
        (ts : Option (List String)) (x : T) → TypesDescribe ts x → Describes (unknown ts) x
    Describes-unknown ts x h = record { constant = tt; types = h }

    pub constant-join_left :
        (a b : Element T) (x : T)
        → ConstantDescribes a x
        → ConstantDescribes (Lattice.join py.values a b) x
    unfolding Lattice.join
    constant-join_left bottom b x h = absurd h
    constant-join_left top bottom x h = tt
    constant-join_left top top x h = tt
    constant-join_left top (known b) x h = tt
    constant-join_left (known a) bottom x h = h
    constant-join_left (known a) top x h = tt
    constant-join_left (known a) (known b) x h = elim (Bool-cases (same_element py.values a b)) [
      | inl same ↦ rw same h
      | inr other ↦ rw other tt
    ]

    types-join_left :
        (a b : Option (List String)) (x : T) → TypesDescribe a x → TypesDescribe (join_types a b) x
    unfolding join_types
    types-join_left none b x h = tt
    types-join_left (some a) none x h = tt
    types-join_left (some a) (some b) x h = rw (contains-union a b (kind x), h)

    types-join_right :
        (a b : Option (List String)) (x : T) → TypesDescribe b x → TypesDescribe (join_types a b) x
    unfolding join_types
    types-join_right none b x h = tt
    types-join_right (some a) none x h = tt
    types-join_right (some a) (some b) x h = ground (arith, contains-union a b (kind x))

    pub constant-join_right :
        (a b : Element T) (x : T)
        → ConstantDescribes b x
        → ConstantDescribes (Lattice.join py.values a b) x
    unfolding Lattice.join
    constant-join_right a bottom x h = absurd h
    constant-join_right bottom top x h = tt
    constant-join_right top top x h = tt
    constant-join_right (known a) top x h = tt
    constant-join_right bottom (known b) x h = h
    constant-join_right top (known b) x h = tt
    constant-join_right (known a) (known b) x h = elim (Bool-cases (same_element py.values a b)) [
      | inl same ↦ rw same (same_element_trans py.values a b x same h)
      | inr other ↦ rw other tt
    ]

    -- A join describes what either of its two parts describes.
    pub Describes-join :
        (a b : AbstractValue T) (x : T) → Describes a x ⊎ Describes b x → Describes (join a b) x
    unfolding join
    Describes-join a b x h = elim (Bool-cases (is_bottom a.constant)) [
      | inl empty ↦ rw empty (⊎_elim (λ d. absurd (no_bottom a empty d)) (λ d. d) h)
      | inr some_a ↦ elim (Bool-cases (is_bottom b.constant)) [
        | inl empty ↦ rw (some_a, empty) (⊎_elim (λ d. d) (λ d. absurd (no_bottom b empty d)) h)
        | inr some_b ↦
            rw (some_a, some_b)
              (elim h [
                | inl d ↦ record {
                  constant = constant-join_left a.constant b.constant x d.constant;
                  types = types-join_left a.types b.types x d.types;
                }
                | inr d ↦ record {
                  constant = constant-join_right a.constant b.constant x d.constant;
                  types = types-join_right a.types b.types x d.types;
                }
              ])
      ]
    ]
      where
        at : (c : Element T) → is_bottom c ≡ true → ConstantDescribes c x → ⊥
        at bottom e d = d
        at top e d = cc e
        at (known _) e d = cc e

        no_bottom : (v : AbstractValue T) → is_bottom v.constant ≡ true → Describes v x → ⊥
        no_bottom v e d = at v.constant e d.constant

    -- The truth that an abstract value has is the truth of every value that it describes.
    pub truthiness_sound :
        (v : AbstractValue T) (x : T)
        → Describes v x
        → (truthiness v ≡ truth_true → py.truthy x ≡ true)
          × (truthiness v ≡ truth_false → py.truthy x ≡ false)
    unfolding truthiness
    truthiness_sound v x d =
        (λ h. at_true v.constant d.constant h, λ h. at_false v.constant d.constant h)
      where
        by_types :
            (ts : Option (List String))
            → TypesDescribe ts x
            → types_truth ts ≡ truth_false
            → py.truthy x ≡ false
        by_types none m h = cc h
        by_types (some ts) m h = elim (Bool-cases (same_set ts ("NoneType" ∷ []))) [
          | inl same ↦
              let c = contains-same_set ts ("NoneType" ∷ []) (kind x) same m in
              py.none_falsy x ((==_iff (kind x) "NoneType").0 (unfold contains in ground arith))
          | inr other ↦ absurd (let e = rw other at h in cc e)
        ]

        not_true : (ts : Option (List String)) → types_truth ts ≡ truth_true → ⊥
        not_true none h = cc h
        not_true (some ts) h = ground arith

        truth : (c : Element T) → Truth
        truth c = elim c [
          | bottom ↦ types_truth v.types
          | top ↦ types_truth v.types
          | known y ↦ if py.truthy y then truth_true else truth_false
        ]

        at_true :
            (c : Element T) → ConstantDescribes c x → truth c ≡ truth_true → py.truthy x ≡ true
        at_true bottom d h = absurd d
        at_true top d h = absurd (not_true v.types h)
        at_true (known y) d h = let e = py.truthy_same y x d in ground arith

        at_false :
            (c : Element T) → ConstantDescribes c x → truth c ≡ truth_false → py.truthy x ≡ false
        at_false bottom d h = absurd d
        at_false top e h = by_types v.types d.types h
        at_false (known y) d h = let e = py.truthy_same y x d in ground arith
