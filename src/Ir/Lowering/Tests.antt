-- ===== src/Ir/Lowering/Tests.antt =====
-- A function with a `for` loop, lowered.
use Prim.Native.String.{◌++◌}
use coretrace_python_analyze.Hir.{name, await, binary_op, assign}
use coretrace_python_analyze.Findings.{SourceSpan}
use coretrace_python_analyze.Ir.{FunctionIr, Value}
use coretrace_python_analyze.Cfg.{Cfg, BlockId, BasicBlock, jump, return, for_each}
use coretrace_python_analyze.Cfg.Builder.Layout.{hir}
use coretrace_python_analyze.Ir.Lowering.{local, LoweringError, Scoping, Texts}
use coretrace_python_analyze.Ir.Lowering.Functions.{Subject, function}
use coretrace_python_analyze.Ir.Lowering.Once.{Lowered, function-Lowered, function_values}
use coretrace_python_analyze.Ir.Lowering.Blocks.{block_values}
use coretrace_python_analyze.Ir.Lowering.{Environment}
use coretrace_python_analyze.Ir.Lowering.Functions.{environment}
use coretrace_python_analyze.Ir.Lowering.Expressions.{expression, resolve}
use coretrace_python_analyze.Ir.Lowering.Succeeds.{IsReadable, Returns-expression}
use coretrace_python_analyze.Ir.Lowering.Succeeds.Names.{Returns, local_IsOwn}
use coretrace_python_analyze.Hir.{Expression}
use coretrace_python_analyze.Base.{
  contains, get, put, List, [], ◌∷◌, false, none, ℕ, Dict, Result, ok, err, ◌≡◌, refl, ◌+◌, list_eq,
  nat_eq, option_eq, pair_eq, string_eq,
}

abbrev at : SourceSpan
at = record {
  source_id = "f.py";
  start_line = 1;
  start_column = 1;
  end_line = none;
  end_column = none;
}

-- Every name is a local of the function.
abbrev scoping : Scoping ℕ
scoping = record {
  kind_of = λ x. local;
  is_module = false;
  is_variable = λ x. false;
  symbol_of = λ x. none;
  symbol_attribute = λ s x. s ++ "." ++ x;
  captured_by_lambda = λ ps body at. [];
  captured_by = λ s. [];
  nonlocals_of = λ s. [];
}

abbrev texts : Texts ℕ
texts = record {
  number = λ n. n;
  negative = λ n. 1000 + n;
  lambda_name = λ l c. "lambda";
  first_part = λ x. x;
  dotted = λ n x. x;
}

abbrev subject : Subject
subject = record {
  qualified_name = "f";
  parameters = ("xs", at) ∷ [];
  captured = [];
  reassigned = [];
  is_nonlocal = λ x. false;
  span = at;
}

-- for x in xs: y = await x + x
abbrev blocks : Dict BlockId (BasicBlock (hir ℕ))
blocks =
    (
      "entry",
      record { id = "entry"; statements = []; terminator = jump "loop" at; exception_targets = [] },
    )
    ∷ (
      "loop",
      record {
        id = "loop";
        statements = [];
        terminator = for_each ("x", at) (name "xs" at) "body" "exit" at;
        exception_targets = [];
      },
    )
    ∷ (
      "body",
      record {
        id = "body";
        statements =
            assign (name "y" at) (binary_op "add" (await (name "x" at) at) (name "x" at) at) at
            ∷ [];
        terminator = jump "loop" at;
        exception_targets = "exit" ∷ [];
      },
    )
    ∷ (
      "exit",
      record { id = "exit"; statements = []; terminator = return none at; exception_targets = [] },
    )
    ∷ []

abbrev graph : Cfg (hir ℕ)
graph = record {
  entry = "entry";
  blocks = blocks;
  synthetic_locals = [];
  successor_map = [];
  predecessor_map = [];
}

abbrev values : Result LoweringError (FunctionIr ℕ SourceSpan) → List Value
values (err e) = []
values (ok ir) = function_values ir

-- The parameter, the iterator, and the values of the body: the value of `await` is counted before its operand's.
values-function :
    values (function scoping texts subject graph (("body", "loop") ∷ []))
    ≡ 0 ∷ 1 ∷ 3 ∷ 2 ∷ 4 ∷ 5 ∷ []
unfolding function block_values contains get put
values-function = refl

function-Lowered_example :
    Lowered graph (function scoping texts subject graph (("body", "loop") ∷ []))
function-Lowered_example = function-Lowered scoping texts subject graph (("body", "loop") ∷ [])

abbrev sum : Expression ℕ
sum = binary_op "add" (await (name "x" at) at) (name "x" at) at

abbrev env : Environment ℕ
env = environment scoping texts subject []

Returns-expression_example : Returns (expression env sum)
unfolding IsReadable environment resolve contains
Returns-expression_example =
    Returns-expression env (λ nested. tt) sum (local_IsOwn env "x" refl, local_IsOwn env "x" refl)
