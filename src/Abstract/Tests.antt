-- ===== src/Abstract/Tests.antt =====
-- Constants that are numbers, folded through a block.
use coretrace_python_analyze.Abstract.Value.{
  Python, AbstractValue, Describes, Describes-of, Describes-join, truthiness, truthiness_sound,
  truth_true, truth_false, of,
}
use coretrace_python_analyze.Abstract.Value
use coretrace_python_analyze.Abstract.Constants.{Operators, State, flow}
use coretrace_python_analyze.Abstract.Constants.Sound.{Admits-of, Respects}
use coretrace_python_analyze.Dataflow.Lattice.{same_element_iff, same_element_refl}
use coretrace_python_analyze.Abstract.Constants.Blocks.Runs.{
  Env, set, Covers, AllRespectful, IsRespectful, Computes, done, giving, constantly, operates,
}
use coretrace_python_analyze.Abstract.Constants.Blocks.Exits.{branches_then, flow_sound}
use coretrace_python_analyze.Cfg.{BlockId}
use coretrace_python_analyze.Ir.{BasicBlock, computes, constant, binary_op, branch, value_result}
use coretrace_python_analyze.Base.{
  ==_iff, Bool-cases, Dict, [], eqb, false, get, if◌then◌else◌, inl, inr, list_eq, nat_eq, none,
  not, option_eq, pair_eq, refl, some, string_eq, true, ℕ, Bool, sym, ap, ◌∙◌, ◌&&◌, ◌+◌, ◌==◌, ◌∷◌,
  ◌≡◌, String,
}

int_not_none : ◌≡◌ {A = String} "int" "NoneType" → ⊥
int_not_none h =
    let g : (◌==◌ {A = String} "int" "NoneType") ≡ true = (==_iff "int" "NoneType").1 h in cc g

-- The natural numbers among Python's values, each in two objects.
record Object : Type 0 where
  number : ℕ
  copy : Bool

abbrev object : ℕ → Object
object n = record { number = n; copy = false }

equal_numbers : (a b : Object) → eqb a.number b.number ≡ true → a.number ≡ b.number
equal_numbers a b h = (==_iff a.number b.number).0 h

abbrev py : Python Object
py = record {
  values = record {
    kind = λ _. "int";
    equals = λ a b. eqb a.number b.number;
    equals_refl = λ a. (==_iff a.number a.number).1 refl;
    equals_sym = λ a b _ h. (==_iff b.number a.number).1 (sym (equal_numbers a b h));
    equals_trans =
        λ a b c _ _ h g. (==_iff a.number c.number).1 (equal_numbers a b h ∙ equal_numbers b c g);
  };
  truthy = λ x. not (eqb x.number 0);
  truthy_same =
      λ x y h. ap (λ n. not (eqb n 0)) (equal_numbers x y ((same_element_iff _ x y).0 h).1);
  none_falsy = λ x h. absurd (int_not_none h);
}

abbrev same_copy : Bool → Bool → Bool
same_copy true true = true
same_copy true false = false
same_copy false true = false
same_copy false false = true

abbrev ops : Operators Object
ops = record {
  apply = λ op x y.
      if op == "add"
      then some (object (x.number + y.number))
      else if op == "is"
      then some (object (if eqb x.number y.number && same_copy x.copy y.copy then 1 else 0))
      else none;
  apply_one = λ op x. none;
  truth = λ b. object (if b then 1 else 0);
}

add-Respects : Respects py (ops.apply "add")
add-Respects = record {
  respects = λ x x' y y' z hx hy h.
      let a = equal_numbers x' x ((same_element_iff _ x' x).0 hx).1 in
      let b = equal_numbers y' y ((same_element_iff _ y' y).0 hy).1 in
      let e : some (object (x.number + y.number)) ≡ some z = h in
      let i : object (x.number + y.number) ≡ z = (cc e) in
      (
        z,
        ap (λ n. some (object (n + y'.number))) a ∙ ap (λ n. some (object (x.number + n))) b ∙ e,
        same_element_refl py.values z,
      );
}

-- Identity is no such operator: the one object is itself, and its copy is not.
is_tells : Respects py (ops.apply "is") → ⊥
is_tells lawful =
    let other : Object = record { number = 3; copy = true } in
    let (z, given, same) =
      lawful.respects (object 3) (object 3) (object 3) other (object 1)
        (same_element_refl py.values (object 3)) ((same_element_iff _ _ _).1 (refl, refl)) refl in
    let e : object 0 ≡ z = (let g : some (object 0) ≡ some z = given in cc g) in
    let n = equal_numbers z (object 1) ((same_element_iff _ z (object 1)).0 same).1 in
    let m : 0 ≡ 1 = ap (λ (o : Object). o.number) e ∙ n in cc m

truthiness_sound_example :
    (truthiness py (of py (object 3)) ≡ truth_true → py.truthy (object 3) ≡ true)
    × (truthiness py (of py (object 3)) ≡ truth_false → py.truthy (object 3) ≡ false)
truthiness_sound_example =
    truthiness_sound py (of py (object 3)) (object 3) (Describes-of py (object 3))

Describes-join_example :
    Describes py (Value.join py (of py (object 3)) (of py (object 4))) (object 4)
Describes-join_example =
    Describes-join py (of py (object 3)) (of py (object 4)) (object 4)
      (inr (Describes-of py (object 4)))

-- v1 = 2; v2 = v0 + v1; if v2: "then" else: "else"
abbrev sum_block : BasicBlock Object ℕ
sum_block = record {
  id = "sum";
  instructions = computes (constant 1 1 (object 2)) ∷ computes (binary_op 2 2 "add" 0 1) ∷ [];
  terminator = branch 3 2 "then" "else";
  exception_targets = [];
}

abbrev before_sum : State Object
before_sum = (0, of py (object 3)) ∷ []

abbrev three : Env py ops
three v = if v == 0 then some (object 3) else none

three_covered : Covers py ops before_sum three
unfolding get
three_covered v x h = elim (Bool-cases (v == 0)) [
  | inl e ↦
      let g : some (object 3) ≡ some x = rw e at h in
      let same : object 3 ≡ x = cc g in
      record {
        fact = of py (object 3);
        there = rw e refl;
        admits = rw (← same) (Admits-of py (object 3));
      }
  | inr n ↦ absurd (let g = rw n at h in cc g)
]

abbrev five : Env py ops
five = set py ops 2 (object 5) (set py ops 1 (object 2) three)

sum_computed : Computes py ops "start" three sum_block.instructions three five
unfolding value_result
sum_computed =
    giving (constantly (same_element_refl py.values (object 2)))
      (giving (operates {x = object 3} {y = object 2} refl refl refl) done)

flow_sound_example :
    (exits : Dict BlockId (State Object)) × (s : State Object) × (flow py ops sum_block
        (("start", before_sum) ∷ [])
      ≡ some exits)
    × (get "then" exits ≡ some s)
    × Covers py ops s five
flow_sound_example =
    flow_sound py ops sum_block (("start", before_sum) ∷ []) "start" before_sum
      (unfold AllRespectful IsRespectful in (tt, (add-Respects, tt))) (unfold get in refl) three
      five five "then" three_covered sum_computed (branches_then {x = object 5} refl refl)
