-- ===== src/Ir/Tests.antt =====
-- The instructions of a short function.
use mathlib.Core.Option
use coretrace_python_analyze.Ir.{
  Instruction, Terminator, FunctionIr, computes, binary_op, return, operands, result_of, substitute,
  terminator_operands, substitute_terminator, renamed,
}
use coretrace_python_analyze.Ir.Substitute.{substitute_lem}
use coretrace_python_analyze.Ir.DefUse.{def_use, uses_of}
use coretrace_python_analyze.Ir.DefUse.Exact.{block_uses, uses-def_use}
use coretrace_python_analyze.Base.{
  [], list_eq, map, nat_eq, option_eq, pair_eq, some, string_eq, true, ℕ, ◌+◌, ◌∷◌, ◌≡◌,
}

-- x + x
abbrev doubled : Instruction ℕ ℕ
doubled = computes (binary_op 2 1 "add" 0 0)

abbrev ends : Terminator ℕ ℕ
ends = return 2 (some 2)

abbrev double : FunctionIr ℕ ℕ
double = record {
  name = "double";
  parameters = 0 ∷ [];
  entry = "entry";
  blocks =
      record {
        id = "entry";
        instructions = doubled ∷ [];
        terminator = return 2 (some 2);
        exception_targets = [];
      }
      ∷ [];
  location = 1;
}

substitute_lem_example :
    (operands (substitute true (λ v. v + 10) doubled) ≡ map (λ v. v + 10) (operands doubled))
    × (result_of (substitute true (λ v. v + 10) doubled)
        ≡ Option.map (renamed true (λ v. v + 10)) (result_of doubled))
    × (terminator_operands (substitute_terminator true (λ v. v + 10) ends)
        ≡ map (λ v. v + 10) (terminator_operands ends))
substitute_lem_example = substitute_lem (λ v. v + 10) true doubled ends

uses-def_use_example : uses_of (def_use double) 0 ≡ block_uses 0 double.blocks
uses-def_use_example = uses-def_use 0 double
