-- ===== src/Ir/Lowering/Functions.antt =====
-- The blocks of ir/lowering.py, and `function`, which lowers a function's graph.
use coretrace_python_analyze.Hir.{Expression}
use coretrace_python_analyze.Ir
use coretrace_python_analyze.Ir.{Value, Instruction, FunctionIr}
use coretrace_python_analyze.Findings.{SourceSpan}
use coretrace_python_analyze.Cfg.{
  Cfg, BlockId, Terminator, BasicBlock, branch, jump, return, raise, for_each,
}
use coretrace_python_analyze.Cfg.Builder.Layout.{hir}
use coretrace_python_analyze.Ir.Lowering.{
  local, free, global, unbound, LoweringError, global_target, missing_block, missing_iterator,
  Scoping, Texts, Environment, Lower, ◌>>=◌, ◌>>◌, give, fail, new_value, emit, emit_effect,
  emit_new,
}
use coretrace_python_analyze.Ir.Lowering.Expressions.{expression, resolve}
use coretrace_python_analyze.Ir.Lowering.Statements.{statements}
use coretrace_python_analyze.Base.{
  Bool, Dict, List, [], ◌∷◌, Option, none, some, String, ℕ, zero, suc, ◌+◌, get, put, contains,
  length, if◌then◌else◌, ◌==◌, string_eq, pair_eq, nat_eq, option_eq, list_eq, Result, ok, err,
}

-- The function that is lowered: what its node and its scope say.
pub record Subject : Type 0 where
  -- `qualified_name(scopes, node)`
  pub qualified_name : String
  pub parameters : List (String × SourceSpan)
  -- `captured_names(node, scopes)`, sorted
  pub captured : List String
  -- `_reassigned_parameters(node)`
  pub reassigned : List String
  -- the name has a `NONLOCAL` binding in the function's scope
  pub is_nonlocal : String → Bool
  pub span : SourceSpan

-- `Value(first)`, …, as many as `n`.
unfoldable pub values_from : ℕ → ℕ → List Value
values_from first zero = []
values_from first (suc n) = first ∷ values_from (suc first) n

-- The parameters that no local stands for.
unfoldable pub kept_parameters :
    List String → List (String × SourceSpan) → ℕ → Dict String Value → Dict String Value
kept_parameters reassigned [] v found = found
kept_parameters reassigned ((x, _) ∷ more) v found =
    kept_parameters reassigned more (suc v) (if contains reassigned x then found else put x v found)

unfoldable pub captured_values : List String → ℕ → Dict String Value
captured_values [] v = []
captured_values (x ∷ more) v = (x, v) ∷ captured_values more (suc v)

unfoldable pub add_captured :
    (String → Bool) → Dict String Value → Dict String Value → Dict String Value
add_captured is_nonlocal [] found = found
add_captured is_nonlocal ((x, v) ∷ more) found =
    add_captured is_nonlocal more (if is_nonlocal x then found else put x v found)

unfoldable pub nonlocal_names : (String → Bool) → List String → List String
nonlocal_names is_nonlocal [] = []
nonlocal_names is_nonlocal (x ∷ more) =
    let rest = nonlocal_names is_nonlocal more in if is_nonlocal x then x ∷ rest else rest

unfoldable pub environment :
    {T : Type 0} → Scoping T → Texts T → Subject → List String → Environment T
unfolding kept_parameters captured_values add_captured nonlocal_names
environment scoping texts f synthetic_locals =
    let captured = captured_values f.captured (length f.parameters) in
    record {
      scoping = scoping;
      texts = texts;
      synthetic_locals = synthetic_locals;
      parameters =
          add_captured f.is_nonlocal captured (kept_parameters f.reassigned f.parameters 0 []);
      nonlocals = nonlocal_names f.is_nonlocal f.captured;
    }

module _ {T : Type 0} (env : Environment T) (cfg : Cfg (hir T))
    (back_edges : List (BlockId × BlockId)) where
  -- The iterator of a `for`, in the block that enters its header.
  unfoldable pub enter_loop : BlockId → BlockId → Lower T (Unit {0})
  unfolding expression new_value emit
  enter_loop source target = elim (get target cfg.blocks) [
    | none ↦ fail (missing_block target)
    | some header ↦ elim header.terminator [
      | branch _ _ _ _ ↦ give tt
      | jump _ _ ↦ give tt
      | return _ _ ↦ give tt
      | raise _ _ _ ↦ give tt
      | for_each _ iterable _ _ at ↦ if contains back_edges (source, target) then give tt else do
        found ← expression env iterable
        iterator ← emit_new (λ v. Ir.get_iter v at found)
        (λ s. give tt (record s { iterators = put target iterator s.iterators }))
    ]
  ]

  unfoldable pub iterator_of : BlockId → Lower T Value
  iterator_of id s = elim (get id s.iterators) [
    | none ↦ fail (missing_iterator id) s
    | some v ↦ give v s
  ]

  abbrev pub optional_value : Option (Expression T) → Lower T (Option Value)
  optional_value none = give none
  optional_value (some e) = expression env e >>= λ v. give (some v)

  unfoldable pub terminator : BlockId → Terminator (hir T) → Lower T (Ir.Terminator T SourceSpan)
  unfolding expression enter_loop iterator_of resolve
  terminator id (return value at) = do v ← optional_value value; give (Ir.return at v)
  terminator id (branch condition then_block else_block at) = do
    v ← expression env condition
    give (Ir.branch at v then_block else_block)
  terminator id (raise exception at cause) = do
    raised ← optional_value exception
    from ← optional_value cause
    give (Ir.raise at raised from)
  terminator id (jump target at) = do enter_loop id target; give (Ir.jump at target)
  terminator id (for_each (x, x_at) iterable body exit at) =
      let bind : Lower T (Ir.Terminator T SourceSpan) =
        iterator_of id >>= λ iterator. give (Ir.for_next at iterator x body exit none) in
      elim (resolve env x) [
        | local ↦ bind
        | free ↦ fail (global_target x_at)
        | global ↦ fail (global_target x_at)
        | unbound ↦ fail (global_target x_at)
      ]

module _ {T : Type 0} (env : Environment T) (cfg : Cfg (hir T))
    (back_edges : List (BlockId × BlockId)) (f : Subject) where
  -- Reassigned parameters live in locals.
  unfoldable pub store_reassigned : List (String × SourceSpan) → ℕ → Lower T (Unit {0})
  unfolding emit_effect
  store_reassigned [] v = give tt
  store_reassigned ((x, at) ∷ more) v =
      let rest = store_reassigned more (suc v) in
      if contains f.reassigned x then emit_effect (Ir.store_local at x v) >> rest else rest

  -- So do `nonlocal` names.
  unfoldable pub store_nonlocals : Dict String Value → Lower T (Unit {0})
  unfolding emit_effect
  store_nonlocals [] = give tt
  store_nonlocals ((x, v) ∷ more) =
      let rest = store_nonlocals more in
      if f.is_nonlocal x then emit_effect (Ir.store_local f.span x v) >> rest else rest

  unfoldable pub prologue : BlockId → Lower T (Unit {0})
  unfolding store_reassigned store_nonlocals captured_values
  prologue id =
      if id == cfg.entry
      then store_reassigned f.parameters 0
        >> store_nonlocals (captured_values f.captured (length f.parameters))
      else give tt

  -- What a block does, with the instructions so far.
  unfoldable pub lower_body : BasicBlock (hir T) → Lower T (Ir.Terminator T SourceSpan)
  unfolding prologue statements terminator
  lower_body block = do
    prologue block.id
    statements env block.statements
    terminator env cfg back_edges block.id block.terminator

  unfoldable pub lower_block : BasicBlock (hir T) → Lower T (Ir.BasicBlock T SourceSpan)
  unfolding lower_body
  lower_block block s = elim (lower_body block (record s { instructions = [] })) [
    | err e ↦ err e
    | ok (end, s') ↦ ok (
      record {
        id = block.id;
        instructions = s'.instructions;
        terminator = end;
        exception_targets = block.exception_targets;
      },
      s',
    )
  ]

  unfoldable pub lower_blocks :
      Dict BlockId (BasicBlock (hir T)) → Lower T (List (Ir.BasicBlock T SourceSpan))
  unfolding lower_block
  lower_blocks [] = give []
  lower_blocks ((_, block) ∷ more) = do
    lowered ← lower_block block
    rest ← lower_blocks more
    give (lowered ∷ rest)

-- `function`, with the back edges of the graph.
unfoldable pub function :
    {T : Type 0}
    → Scoping T
    → Texts T
    → Subject
    → Cfg (hir T)
    → List (BlockId × BlockId)
    → Result LoweringError (FunctionIr T SourceSpan)
unfolding environment lower_blocks values_from
function scoping texts f cfg back_edges =
    let env = environment scoping texts f cfg.synthetic_locals in
    let total = length f.parameters + length f.captured in
    elim (lower_blocks env cfg back_edges f cfg.blocks (record {
      next_value_id = total;
      instructions = [];
      iterators = [];
      contexts = [];
      nested_defs = [];
    })) [
      | err e ↦ err e
      | ok (blocks, _) ↦ ok (record {
        name = f.qualified_name;
        parameters = values_from 0 total;
        entry = cfg.entry;
        blocks = blocks;
        location = f.span;
      })
    ]
