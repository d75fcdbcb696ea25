-- ===== src/Dataflow/Lattice.antt =====
-- dataflow/lattice.py: the flat lattice, and the equality of its elements.
use coretrace_python_analyze.Base.{
  ==_iff, String, Bool, true, false, Bool-cases, arith, if◌then◌else◌, inl, inr, list_eq, nat_eq,
  option_eq, pair_eq, refl, string_eq, sym, ◌&&◌, ◌==◌, ◌↔◌, ◌∙◌, ◌≡◌,
}

-- What `same_element` asks of two objects that are constants: the names of their types, and Python's
-- `==`. Within a type `==` is an equivalence, which two objects may be in without being one. (A float
-- NaN, which is not equal to itself, is no such object.)
pub record Values (T : Type 0) : Type 0 where
  pub kind : T → String
  pub equals : T → T → Bool
  pub equals_refl : (a : T) → equals a a ≡ true
  pub equals_sym : (a b : T) → kind a ≡ kind b → equals a b ≡ true → equals b a ≡ true
  pub equals_trans :
      (a b c : T)
      → kind a ≡ kind b
      → kind b ≡ kind c
      → equals a b ≡ true
      → equals b c ≡ true
      → equals a c ≡ true

pub data Element (T : Type 0) : Type 0 where
  bottom : Element T
  top : Element T
  known : T → Element T

module _ {T : Type 0} (v : Values T) where
  -- `type(a) is type(b) and a == b`
  unfoldable pub same_element : T → T → Bool
  same_element a b = v.kind a == v.kind b && v.equals a b

  unfoldable pub join : Element T → Element T → Element T
  join bottom b = b
  join top bottom = top
  join top top = top
  join top (known b) = top
  join (known a) bottom = known a
  join (known a) top = top
  join (known a) (known b) = if same_element a b then known a else top

  unfoldable pub leq : Element T → Element T → Bool
  leq bottom b = true
  leq top bottom = false
  leq top top = true
  leq top (known b) = false
  leq (known a) bottom = false
  leq (known a) top = true
  leq (known a) (known b) = same_element a b

  pub same_element_iff :
      (a b : T) → (same_element a b ≡ true) ↔ (v.kind a ≡ v.kind b) × (v.equals a b ≡ true)
  unfolding same_element
  same_element_iff a b = (
    λ h. ((==_iff (v.kind a) (v.kind b)).0 (ground arith), ground arith),
    λ (k, e). let k' = (==_iff (v.kind a) (v.kind b)).1 k in ground arith,
  )

  pub same_element_refl : (a : T) → same_element a a ≡ true
  same_element_refl a = (same_element_iff a a).1 (refl, v.equals_refl a)

  pub same_element_sym : (a b : T) → same_element a b ≡ true → same_element b a ≡ true
  same_element_sym a b h =
      let (k, e) = (same_element_iff a b).0 h in
      (same_element_iff b a).1 (sym k, v.equals_sym a b k e)

  pub same_element_trans :
      (a b c : T) → same_element a b ≡ true → same_element b c ≡ true → same_element a c ≡ true
  same_element_trans a b c h g =
      let (k, e) = (same_element_iff a b).0 h in
      let (k', e') = (same_element_iff b c).0 g in
      (same_element_iff a c).1 (k ∙ k', v.equals_trans a b c k k' e e')

  leq-join_left : (a b : Element T) → leq a (join a b) ≡ true
  unfolding leq join
  leq-join_left bottom b = refl
  leq-join_left top bottom = refl
  leq-join_left top top = refl
  leq-join_left top (known b) = refl
  leq-join_left (known a) bottom = same_element_refl a
  leq-join_left (known a) top = refl
  leq-join_left (known a) (known b) = elim (Bool-cases (same_element a b)) [
    | inl same ↦ rw same (same_element_refl a)
    | inr other ↦ rw other
  ]

  leq-join_right : (a b : Element T) → leq b (join a b) ≡ true
  unfolding leq join
  leq-join_right a bottom = refl
  leq-join_right bottom top = refl
  leq-join_right bottom (known b) = same_element_refl b
  leq-join_right top top = refl
  leq-join_right top (known b) = refl
  leq-join_right (known a) top = refl
  leq-join_right (known a) (known b) = elim (Bool-cases (same_element a b)) [
    | inl same ↦ rw same (same_element_sym a b same)
    | inr other ↦ rw other
  ]

  join-least : (a b c : Element T) → leq a c ≡ true → leq b c ≡ true → leq (join a b) c ≡ true
  unfolding join leq
  join-least bottom b c h k = k
  join-least top bottom c h k = h
  join-least top top c h k = h
  join-least top (known b) c h k = h
  join-least (known a) bottom c h k = h
  join-least (known a) top c h k = k
  join-least (known a) (known b) c h k = elim (Bool-cases (same_element a b)) [
    | inl same ↦ rw same h
    | inr other ↦ rw other (only_top other c h k)
  ]
    where
      only_top :
          same_element a b ≡ false
          → (c : Element T) → leq (known a) c ≡ true
          → leq (known b) c ≡ true
          → leq top c ≡ true
      only_top o bottom p q = p
      only_top o top p q = refl
      only_top o (known x) p q =
          let e = same_element_trans a x b p (same_element_sym b x q) in absurd (cc (e, o))

  -- Where `==` is an equivalence on the objects of a type, which a float NaN breaks, `join` is the
  -- least upper bound: above both, and below whatever is above both.
  pub join_least_upper :
      (a b : Element T)
      → (leq a (join a b) ≡ true)
        × (leq b (join a b) ≡ true)
        × ((c : Element T) → leq a c ≡ true → leq b c ≡ true → leq (join a b) c ≡ true)
  join_least_upper a b = (leq-join_left a b, leq-join_right a b, join-least a b)
