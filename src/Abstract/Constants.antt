-- ===== src/Abstract/Constants.antt =====
-- abstract/constants.py: the constants that a block computes, as a data-flow transfer.
pub mod Sound
pub mod Blocks
use coretrace_python_analyze.Abstract.Value.{
  Python, AbstractValue, Truth, truth_true, truth_false, truth_unknown, unknown, no_value, is_top,
  truthiness, of, kind,
}
use coretrace_python_analyze.Abstract.Value
use coretrace_python_analyze.Dataflow.Lattice.{Element, bottom, top, known}
use coretrace_python_analyze.Cfg.{BlockId}
use coretrace_python_analyze.Ir.{
  ValueInstruction, Instruction, Terminator, BasicBlock, FunctionIr, computes, affects,
  value_result, constant, binary_op, compare, unary_op, phi, branch, jump, for_next, return, raise,
}
use coretrace_python_analyze.Ir
use coretrace_python_analyze.Base.Options.{◌>>=◌}
use coretrace_python_analyze.Base.{
  Bool, Dict, List, Option, String, [], contains, false, get, get_or, if◌then◌else◌, list_eq,
  nat_eq, none, not, option_eq, pair_eq, put, same_set, some, string_eq, subset, true, union, ◌&&◌,
  ◌==◌, ◌||◌, ◌∷◌, map,
}

-- Python's operators on the objects that are constants, which may raise, and its two truth values.
-- `is` is among the operators: equal objects may be two.
pub record Operators (T : Type 0) : Type 0 where
  pub apply : String → T → T → Option T
  pub apply_one : String → T → Option T
  pub truth : Bool → T

abbrev pub safe_types : List String
safe_types = "int" ∷ "float" ∷ "bool" ∷ "str" ∷ "bytes" ∷ "NoneType" ∷ []

abbrev pub numeric_types : List String
numeric_types = "int" ∷ "float" ∷ "bool" ∷ []

abbrev pub binary_operators : List String
binary_operators =
    "add" ∷ "sub" ∷ "mul" ∷ "div" ∷ "floor_div" ∷ "mod" ∷ "bit_or" ∷ "bit_xor" ∷ "bit_and" ∷ []

abbrev pub unary_operators : List String
unary_operators = "neg" ∷ "pos" ∷ "invert" ∷ []

abbrev pub State : Type 0 → Type 0
State T = Dict Ir.Value (AbstractValue T)

unfoldable pub result_types :
    String → Option (List String) → Option (List String) → Option (List String)
result_types operator none right = none
result_types operator (some left) none = none
result_types operator (some left) (some right) =
    if subset left numeric_types
      && subset right numeric_types
      && (operator == "div" || contains (union left right) "float")
    then some ("float" ∷ [])
    else if subset left numeric_types
        && subset right numeric_types
        && contains binary_operators operator
    then some ("int" ∷ [])
    else if operator == "add" && same_set left right && same_set right ("str" ∷ [])
    then some ("str" ∷ [])
    else none

-- One state for each of several targets, in `exits`.
unfoldable pub send_to :
    {T : Type 0} → State T → List BlockId → Dict BlockId (State T) → Dict BlockId (State T)
send_to state [] exits = exits
send_to state (target ∷ more) exits = send_to state more (put target state exits)

unfoldable pub branch_targets : Truth → BlockId → BlockId → List BlockId
branch_targets truth_true then_block else_block = then_block ∷ []
branch_targets truth_false then_block else_block = else_block ∷ []
branch_targets truth_unknown then_block else_block = then_block ∷ else_block ∷ []

module _ {T : Type 0} (py : Python T) (ops : Operators T) where
  abbrev pub has_type : List String → T → Bool
  has_type types x = contains types (kind py x)

  -- The folded value of two constants, or an unknown one.
  unfoldable pub fold_constants : (T → T → Option T) → Bool → T → T → AbstractValue T
  fold_constants folder numeric_only x y =
      if not (has_type safe_types x && has_type safe_types y)
      then unknown none
      else if numeric_only && not (has_type numeric_types x && has_type numeric_types y)
      then unknown none
      else (elim (folder x y) [ none ↦ unknown none | some z ↦ of py z ])

  unfoldable pub fold :
      (T → T → Option T) → Bool → AbstractValue T → AbstractValue T → AbstractValue T
  unfolding fold_constants
  fold folder numeric_only left right = elim left.constant [
    | bottom ↦ unknown none
    | top ↦ unknown none
    | known x ↦ elim right.constant [
      | bottom ↦ unknown none
      | top ↦ unknown none
      | known y ↦ fold_constants folder numeric_only x y
    ]
  ]

  unfoldable pub binary : String → AbstractValue T → AbstractValue T → AbstractValue T
  unfolding fold result_types
  binary operator left right =
      let folded = fold (ops.apply operator) (operator == "mul") left right in
      if contains binary_operators operator && not (is_top folded.constant)
      then folded
      else unknown (result_types operator left.types right.types)

  unfoldable pub negated : Truth → AbstractValue T
  negated truth_true = of py (ops.truth false)
  negated truth_false = of py (ops.truth true)
  negated truth_unknown = unknown (some ("bool" ∷ []))

  unfoldable pub unary : String → AbstractValue T → AbstractValue T
  unfolding negated
  unary operator operand =
      let folded : AbstractValue T = elim operand.constant [
        | bottom ↦ unknown none
        | top ↦ unknown none
        | known x ↦
            if has_type numeric_types x
            then (elim (ops.apply_one operator x) [ none ↦ unknown none | some z ↦ of py z ])
            else unknown none
      ] in
      if operator == "not"
      then negated (truthiness py operand)
      else if contains unary_operators operator
      then folded
      else unknown none

  unfoldable pub join_states : State T → State T → State T
  join_states merged [] = merged
  join_states merged ((value, fact) ∷ more) =
      join_states
        (put value (elim (get value merged) [ none ↦ fact | some old ↦ Value.join py old fact ])
          merged)
        more

  -- The value of a phi, by the incoming edges that run.
  unfoldable pub phi_value :
      Dict BlockId (State T) → AbstractValue T → List (Ir.Value × BlockId) → AbstractValue T
  phi_value incoming result [] = result
  phi_value incoming result ((value, predecessor) ∷ more) = elim (get predecessor incoming) [
    | none ↦ phi_value incoming result more
    | some state ↦
        phi_value incoming (Value.join py result (get_or value (unknown none) state)) more
  ]

  unfoldable pub join_edges : State T → List (State T) → State T
  unfolding join_states
  join_edges state [] = state
  join_edges state (other ∷ more) = join_edges (join_states state other) more

  module _ {Span : Type 0} where
    -- The value of an instruction; `none` is the `KeyError` of an operand without one.
    unfoldable pub instruction :
        ValueInstruction T Span → Dict BlockId (State T) → State T → Option (AbstractValue T)
    unfolding phi_value binary unary
    instruction (constant _ _ x) incoming state = some (of py x)
    instruction (binary_op _ _ operator left right) incoming state = do
      a ← get left state
      b ← get right state
      some (binary operator a b)
    instruction (compare _ _ operator left right) incoming state = do
      a ← get left state
      b ← get right state
      some (fold (ops.apply operator) false a b)
    instruction (unary_op _ _ operator operand) incoming state = do
      a ← get operand state
      some (unary operator a)
    instruction (phi _ _ _ values) incoming state = some (phi_value incoming no_value values)
    instruction _ incoming state = some (unknown none)

    -- The instructions of a block that define a value, in order.
    unfoldable pub compute :
        List (Instruction T Span) → Dict BlockId (State T) → State T → Option (State T)
    unfolding instruction value_result
    compute [] incoming state = some state
    compute (affects _ ∷ more) incoming state = compute more incoming state
    compute (computes i ∷ more) incoming state = elim (instruction i incoming state) [
      | none ↦ none
      | some fact ↦ compute more incoming (put (value_result i) fact state)
    ]

    -- The loop variable of a `for` is not known.
    unfoldable pub after : Terminator T Span → State T → State T
    after (return _ _) state = state
    after (branch _ _ _ _) state = state
    after (jump _ _) state = state
    after (raise _ _ _) state = state
    after (for_next _ _ _ _ _ none) state = state
    after (for_next _ _ _ _ _ (some result)) state = put result (unknown none) state

    -- `evaluate`: the state after the block, from those on its edges, of which there is one.
    unfoldable pub evaluate : BasicBlock T Span → Dict BlockId (State T) → Option (State T)
    unfolding compute after join_edges
    evaluate block [] = none
    evaluate block ((source, first) ∷ more) = do
      state ←
          compute block.instructions ((source, first) ∷ more)
            (join_edges first (map (λ (edge : BlockId × State T). edge.1) more))
      some (after block.terminator state)

    -- The blocks that a terminator may go to in a state.
    unfoldable pub taken : Terminator T Span → State T → Option (List BlockId)
    unfolding branch_targets
    taken (return _ _) state = some []
    taken (raise _ _ _) state = some []
    taken (jump _ target) state = some (target ∷ [])
    taken (for_next _ _ _ body exit _) state = some (body ∷ exit ∷ [])
    taken (branch _ condition then_block else_block) state = do
      fact ← get condition state
      some (branch_targets (truthiness py fact) then_block else_block)

    unfoldable pub flow :
        BasicBlock T Span → Dict BlockId (State T) → Option (Dict BlockId (State T))
    unfolding evaluate send_to taken
    flow block incoming = do
      state ← evaluate block incoming
      targets ← taken block.terminator state
      some (send_to state targets (send_to state block.exception_targets []))
