-- ===== src/Cfg/Builder/Statements.antt =====
-- The statements of cfg/builder.py, and `build`.
use coretrace_python_analyze.Hir.{
  name, assign, aug_assign, return, expression_statement, pass, delete, match, declaration, assert,
  if_statement, while_statement, for_statement, break, continue, raise, with_statement, enter_with,
  exit_with, try_statement, enter_handler, import, import_from, global, nonlocal, function, class,
  empty, first, no_handlers, handler, Expression, Statement, Statements, Cases, Handlers, WithItem,
}
use coretrace_python_analyze.Findings.{SourceSpan}
use coretrace_python_analyze.Cfg.{Terminator, BlockId, Cfg, make, branch, jump, for_each}
use coretrace_python_analyze.Cfg
use coretrace_python_analyze.Cfg.Builder.Comprehension.{Making}
use coretrace_python_analyze.Cfg.Builder.Patterns.{BuildError, assertion, no_fuel, bad_graph}
use coretrace_python_analyze.Cfg.Builder.Desugar.{match_chain}
use coretrace_python_analyze.Cfg.Builder.Layout.{
  hir, Open, Builder, Context, Build, Go, ◌>>=◌, ◌>>◌, give, fail, to_option, finish, opened, also,
  loop, unless, new_id, given_or_new, sequence, lay_pending, hoisted, hide, conditional_statement,
}
use coretrace_python_analyze.Base.{
  Dict, List, [], ◌∷◌, String, ℕ, zero, suc, Option, none, some, Result, ok, err, reverse,
  string_eq, list_eq, nat_eq, option_eq, pair_eq,
}

abbrev pub outside : Context
outside = record { loops = []; handlers = [] }

module _ {T : Type 0} where
  abbrev pub start : Builder T
  start = record { blocks = []; counters = []; synthetic = [] }

  unfoldable pub statement_span : Statement T → SourceSpan
  statement_span (assign _ _ at) = at
  statement_span (aug_assign _ _ _ at) = at
  statement_span (return _ at) = at
  statement_span (expression_statement _ at) = at
  statement_span (pass at) = at
  statement_span (delete _ at) = at
  statement_span (match _ _ at) = at
  statement_span (declaration _ _ at) = at
  statement_span (assert _ _ at) = at
  statement_span (if_statement _ _ _ at) = at
  statement_span (while_statement _ _ at _) = at
  statement_span (for_statement _ _ _ _ _ at _) = at
  statement_span (break at) = at
  statement_span (continue at) = at
  statement_span (raise _ at _) = at
  statement_span (with_statement _ _ _ at) = at
  statement_span (enter_with _ at) = at
  statement_span (exit_with _ at) = at
  statement_span (try_statement _ _ _ _ at) = at
  statement_span (enter_handler _ _ _ _ at) = at
  statement_span (import _ at) = at
  statement_span (import_from _ _ _ at) = at
  statement_span (global _ at) = at
  statement_span (nonlocal _ at) = at
  statement_span (function _ _ _ _ at _) = at
  statement_span (class _ _ _ at _ _) = at

  -- `EnterWith` for each item, and `ExitWith` in the opposite order.
  unfoldable pub enter_items : List (WithItem T) → SourceSpan → Open T → Open T
  enter_items [] at o = o
  enter_items (i ∷ more) at o = enter_items more at (also o (enter_with i at))

  unfoldable pub exit_items : List (WithItem T) → SourceSpan → Open T → Open T
  exit_items [] at o = o
  exit_items (i ∷ more) at o = exit_items more at (also o (exit_with i at))

  -- A value that is asserted to be there.
  abbrev pub required : {A : Type 0} → Option A → Build T A
  required none = fail assertion
  required (some a) = give a

module _ {T : Type 0} (making : Making T) (match_args : Dict String (List String)) where
  module _ (go : Go T) (c : Context) (block : Open T) (continuation : Option BlockId) where
    -- `while` and `for`, by what their header tests.
    unfoldable pub loop_statement :
        (BlockId → BlockId → Terminator (hir T))
        → Statements T
        → Statements T
        → SourceSpan
        → Build T (Option (Open T))
    unfolding sequence finish new_id
    loop_statement header body empty at = do
      header_id ← new_id making match_args "loop"
      body_id ← new_id making match_args "body"
      after_id ← given_or_new making match_args continuation "exit"
      finish c block (jump header_id at)
      finish c (opened header_id) (header body_id after_id)
      sequence making match_args go (record c { loops = (header_id, after_id) ∷ c.loops }) body
          (opened body_id) (some header_id) at
      give (unless continuation (opened after_id))
    loop_statement header body (first s more) at = do
      header_id ← new_id making match_args "loop"
      body_id ← new_id making match_args "body"
      after_id ← given_or_new making match_args continuation "exit"
      exit_id ← new_id making match_args "else"
      finish c block (jump header_id at)
      finish c (opened header_id) (header body_id exit_id)
      sequence making match_args go (record c { loops = (header_id, after_id) ∷ c.loops }) body
          (opened body_id) (some header_id) at
      sequence making match_args go c (first s more) (opened exit_id) (some after_id) at
      give (unless continuation (opened after_id))

    unfoldable pub with_body :
        List (WithItem T) → Statements T → SourceSpan → Build T (Option (Open T))
    unfolding sequence enter_items exit_items
    with_body items body at = do
      end ← sequence making match_args go c body (enter_items items at block) none at
      elim end [ none ↦ give none | some o ↦ give (some (exit_items (reverse items) at o)) ]

    unfoldable pub match_cases : Expression T → Cases T → SourceSpan → Build T (Option (Open T))
    unfolding sequence hide match_chain
    match_cases subject cases at = do
      hidden_subject ← hide making match_args "match" at
      elim (match_chain making match_args cases (name hidden_subject at)) [
        | err e ↦ fail e
        | ok chain ↦
            sequence making match_args go c
              (first (assign (name hidden_subject at) subject at) chain) block continuation at
      ]

    unfoldable pub new_handlers : Handlers T → Build T (List BlockId)
    unfolding new_id
    new_handlers no_handlers = give []
    new_handlers (handler _ _ _ _ more) = do
      id ← new_id making match_args "handler"
      ids ← new_handlers more
      give (id ∷ ids)

    -- A new id, where the clause has statements.
    unfoldable pub id_of : String → Statements T → Build T (Option BlockId)
    unfolding new_id
    id_of kind empty = give none
    id_of kind (first _ _) = do id ← new_id making match_args kind; give (some id)

    -- The block after a `try`, unless its `finally` goes on to the continuation.
    unfoldable pub after_try : Option BlockId → Build T (Option BlockId)
    unfolding new_id
    after_try none = do id ← given_or_new making match_args continuation "after"; give (some id)
    after_try (some final_id) = elim continuation [
      | none ↦ do id ← new_id making match_args "after"; give (some id)
      | some _ ↦ give none
    ]

    -- The bodies of the handlers, each in its block.
    unfoldable pub lay_handlers :
        Handlers T → List BlockId → BlockId → SourceSpan → Build T (Unit {0})
    unfolding sequence
    lay_handlers no_handlers ids join at = give tt
    lay_handlers (handler type bound body handler_at more) [] join at = fail assertion
    lay_handlers (handler type bound body handler_at more) (id ∷ ids) join at = do
      let entered = enter_handler type bound body handler_at handler_at
      sequence making match_args go c body (also (opened id) entered) (some join) at
      lay_handlers more ids join at

    -- The `else` clause, which runs where the body falls through.
    unfoldable pub lay_else :
        Option (Open T) → Option BlockId → Statements T → BlockId → SourceSpan → Build T (Unit {0})
    unfolding sequence
    lay_else none else_id orelse join at = give tt
    lay_else (some _) none orelse join at = give tt
    lay_else (some _) (some id) orelse join at = do
      sequence making match_args go c orelse (opened id) (some join) at
      give tt

    abbrev pub first_of : Option BlockId → Option BlockId → Option BlockId
    first_of none b = b
    first_of (some a) b = some a

    -- The body of a `try`, whose blocks may raise into its handlers.
    unfoldable pub try_body :
        Statements T
        → List BlockId
        → BlockId
        → Option BlockId
        → BlockId
        → SourceSpan
        → Build T (Option (Open T))
    unfolding sequence finish
    try_body body handler_ids body_id else_id join at = do
      let inside = record c { handlers = handler_ids ∷ c.handlers }
      end ← sequence making match_args go inside body (opened body_id) none at
      elim end [
        | none ↦ give none
        | some o ↦ do
          finish inside o (jump (elim else_id [ none ↦ join | some id ↦ id ]) at)
          give (some o)
      ]

    -- The `finally` clause, and where the statement leaves control.
    unfoldable pub try_end :
        Option BlockId → Option BlockId → Statements T → SourceSpan → Build T (Option (Open T))
    unfolding sequence
    try_end none after_id finalbody at = do
      after ← required after_id
      give (unless continuation (opened after))
    try_end (some final_id) after_id finalbody at = do
      target ← required (first_of continuation after_id)
      sequence making match_args go c finalbody (opened final_id) (some target) at
      give (unless continuation (opened target))

    unfoldable pub try_clauses :
        Statements T
        → Handlers T
        → Statements T
        → Statements T
        → SourceSpan
        → Build T (Option (Open T))
    unfolding new_id new_handlers id_of after_try finish try_body lay_else lay_handlers try_end
    try_clauses body handlers orelse finalbody at = do
      body_id ← new_id making match_args "try"
      handler_ids ← new_handlers handlers
      else_id ← id_of "else" orelse
      final_id ← id_of "finally" finalbody
      after_id ← after_try final_id
      join ← required (first_of final_id after_id)
      finish c block (jump body_id at)
      end ← try_body body handler_ids body_id else_id join at
      lay_else end else_id orelse join at
      lay_handlers handlers handler_ids join at
      try_end final_id after_id finalbody at

    -- A statement without control flow in its expressions.
    unfoldable pub lay_out : Statement T → Build T (Option (Open T))
    unfolding finish loop conditional_statement loop_statement match_cases with_body try_clauses
    lay_out (return value at) = do finish c block (Cfg.return (to_option value) at); give none
    lay_out (raise exception at cause) = do
      finish c block (Cfg.raise (to_option exception) at (to_option cause))
      give none
    lay_out (break at) = do target ← loop c "break" at; finish c block (jump target.1 at); give none
    lay_out (continue at) = do
      target ← loop c "continue" at
      finish c block (jump target.0 at)
      give none
    lay_out (if_statement condition body orelse at) =
        conditional_statement making match_args go c block continuation condition body orelse at
    lay_out (while_statement condition body at orelse) =
        loop_statement (λ body_id exit_id. branch condition body_id exit_id at) body orelse at
    lay_out (for_statement target target_at iterable body is_async at orelse) =
        loop_statement (λ body_id exit_id. for_each (target, target_at) iterable body_id exit_id at)
          body orelse at
    lay_out (match subject cases at) = match_cases subject cases at
    lay_out (with_statement items body is_async at) = with_body items body at
    lay_out (try_statement body handlers orelse finalbody at) =
        try_clauses body handlers orelse finalbody at
    lay_out s = give (some (also block s))

  unfoldable pub statement : ℕ → Go T
  unfolding hoisted lay_pending lay_out statement_span
  statement zero c s block continuation = fail no_fuel
  statement (suc fuel) c s block continuation = do
    (s', pending) ← hoisted making match_args s
    block' ← lay_pending making match_args (statement fuel) c pending block (statement_span s')
    lay_out (statement fuel) c block' continuation s'

  -- The body of a function, laid out; a body that falls through returns.
  unfoldable pub lay_body : ℕ → Statements T → SourceSpan → Build T (Unit {0})
  unfolding sequence statement finish
  lay_body fuel body at = do
    end ← sequence making match_args (statement fuel) outside body (opened "entry") none at
    elim end [ none ↦ give tt | some o ↦ finish outside o (Cfg.return none at) ]

  -- `build_cfg`, of a function's body and span.
  unfoldable pub build : ℕ → Statements T → SourceSpan → Result BuildError (Cfg (hir T))
  unfolding lay_body
  build fuel body at = elim (lay_body fuel body at start) [
    | err e ↦ err e
    | ok (_, b) ↦ elim (make "entry" b.blocks b.synthetic) [
      | err e ↦ err (bad_graph e)
      | ok cfg ↦ ok cfg
    ]
  ]
