-- ===== src/Ir/DefUse.antt =====
-- ir/defuse.py: where each value is defined, and where it is used.
pub mod Exact
use coretrace_python_analyze.Cfg.{BlockId}
use coretrace_python_analyze.Ir.{
  Value, Instruction, Terminator, BasicBlock, FunctionIr, for_next, return, branch, jump, raise,
  operands, terminator_operands, result_of,
}
use coretrace_python_analyze.Ir
use coretrace_python_analyze.Base.{
  Dict, List, Option, [], get_or, list_eq, nat_eq, none, option_eq, pair_eq, put, some, string_eq,
  suc, ℕ, ◌++◌, ◌∷◌,
}

-- A parameter (no block), an instruction, or a terminator.
pub record Definition : Type 0 where
  pub block : Option BlockId
  pub index : Option ℕ

-- The index of an instruction, or none for the terminator.
pub record Use : Type 0 where
  pub block : BlockId
  pub index : Option ℕ

pub record DefUse : Type 0 where
  pub definitions : Dict Value Definition
  pub uses : Dict Value (List Use)

-- `uses.setdefault(operand, []).append(use)`, for each operand.
unfoldable pub add_uses : Use → List Value → Dict Value (List Use) → Dict Value (List Use)
add_uses use_ [] uses = uses
add_uses use_ (v ∷ more) uses = add_uses use_ more (put v (get_or v [] uses ++ use_ ∷ []) uses)

abbrev pub define : Option Value → Definition → Dict Value Definition → Dict Value Definition
define none d definitions = definitions
define (some v) d definitions = put v d definitions

unfoldable pub define_parameters : List Value → Dict Value Definition → Dict Value Definition
define_parameters [] definitions = definitions
define_parameters (p ∷ more) definitions =
    define_parameters more (put p (record { block = none; index = none }) definitions)

module _ {Const Span : Type 0} where
  unfoldable pub scan_instructions : BlockId → ℕ → List (Instruction Const Span) → DefUse → DefUse
  unfolding add_uses
  scan_instructions block index [] found = found
  scan_instructions block index (i ∷ more) found =
      scan_instructions block (suc index) more (record {
        definitions =
            define (result_of i) (record { block = some block; index = some index })
              found.definitions;
        uses = add_uses (record { block = block; index = some index }) (operands i) found.uses;
      })

  -- The value that a `for` gives its variable.
  unfoldable pub terminator_result : Terminator Const Span → Option Value
  terminator_result (return _ _) = none
  terminator_result (branch _ _ _ _) = none
  terminator_result (jump _ _) = none
  terminator_result (raise _ _ _) = none
  terminator_result (for_next _ _ _ _ _ result) = result

  unfoldable pub scan_blocks : List (BasicBlock Const Span) → DefUse → DefUse
  unfolding scan_instructions terminator_result add_uses
  scan_blocks [] found = found
  scan_blocks (b ∷ more) found =
      let within = scan_instructions b.id 0 b.instructions found in
      scan_blocks more (record {
        definitions =
            define (terminator_result b.terminator) (record { block = some b.id; index = none })
              within.definitions;
        uses =
            add_uses (record { block = b.id; index = none }) (terminator_operands b.terminator)
              within.uses;
      })

  unfoldable pub def_use : FunctionIr Const Span → DefUse
  unfolding scan_blocks define_parameters
  def_use f =
      scan_blocks f.blocks (record { definitions = define_parameters f.parameters []; uses = [] })

-- `DefUse.uses`
abbrev pub uses_of : DefUse → Value → List Use
uses_of found v = get_or v [] found.uses
