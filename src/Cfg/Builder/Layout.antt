-- ===== src/Cfg/Builder/Layout.antt =====
-- The blocks of cfg/builder.py: `sequence`, `statement` and what they call. The fuel bounds how deep
-- statements nest, those that desugaring makes included.
use coretrace_python_analyze.Hir.{
  absent, present, empty, first, Expression, Maybe, Statement, Statements,
}
use coretrace_python_analyze.Findings.{SourceSpan}
use coretrace_python_analyze.Cfg.{Syntax, BasicBlock, Terminator, BlockId, branch, jump}
use coretrace_python_analyze.Cfg.Builder.Comprehension.{Making, hidden}
use coretrace_python_analyze.Cfg.Builder.Patterns.{BuildError, outside_loop, assertion, no_key}
use coretrace_python_analyze.Cfg.Builder.Desugar.{desugar}
use coretrace_python_analyze.Base.{
  false, Dict, List, [], ◌∷◌, ◌++◌, String, ℕ, suc, Option, none, some, Result, ok, err, get_or,
  put, if◌then◌else◌, string_eq, list_eq, nat_eq, option_eq, pair_eq,
}

-- The graph's nodes are those of PyHIR; a `Name` is its text and its place.
abbrev pub hir : Type 0 → Syntax
hir T = record {
  Expression = Expression T;
  Statement = Statement T;
  Name = String × SourceSpan;
  Span = SourceSpan;
}

-- A block that still collects statements.
pub record Open (T : Type 0) : Type 0 where
  pub id : BlockId
  pub statements : List (Statement T)

pub record Builder (T : Type 0) : Type 0 where
  pub blocks : Dict BlockId (BasicBlock (hir T))
  pub counters : Dict String ℕ
  pub synthetic : List String

-- `loops` and `handlers`, which the builder pushes before a body and pops after it: the end first.
pub record Context : Type 0 where
  pub loops : List (BlockId × BlockId)
  pub handlers : List (List BlockId)

unfoldable pub exception_targets : Context → List BlockId
exception_targets c = elim c.handlers [ [] ↦ [] | targets ∷ _ ↦ targets ]

-- A method: it changes the builder, or raises.
abbrev pub Build : Type 0 → Type 0 → Type 0
Build T A = Builder T → Result BuildError (A × Builder T)

module _ {T : Type 0} {A B : Type 0} where
  infixl 5 ◌>>=◌
  abbrev pub ◌>>=◌ : Build T A → (A → Build T B) → Build T B
  ◌>>=◌ m next b = elim (m b) [ err e ↦ err e | ok (a, b') ↦ next a b' ]

  infixl 5 ◌>>◌
  abbrev pub ◌>>◌ : Build T A → Build T B → Build T B
  ◌>>◌ m next = m >>= λ _. next

-- How a statement is laid out, with less fuel.
abbrev pub Go : Type 0 → Type 0
Go T = Context → Statement T → Open T → Option BlockId → Build T (Option (Open T))

module _ {T : Type 0} where
  abbrev pub give : {A : Type 0} → A → Build T A
  give a b = ok (a, b)

  abbrev pub fail : {A : Type 0} → BuildError → Build T A
  fail e b = err e

  abbrev pub to_option : Maybe T → Option (Expression T)
  to_option absent = none
  to_option (present e) = some e

  -- `finish`, and `header` for a block without statements.
  unfoldable pub finish : Context → Open T → Terminator (hir T) → Build T (Unit {0})
  unfolding exception_targets
  finish c open_block terminator b =
      let laid : BasicBlock (hir T) = record {
        id = open_block.id;
        statements = open_block.statements;
        terminator = terminator;
        exception_targets = exception_targets c;
      } in
      ok (tt, record b { blocks = put open_block.id laid b.blocks })

  abbrev pub opened : BlockId → Open T
  opened id = record { id = id; statements = [] }

  abbrev pub also : Open T → Statement T → Open T
  also o s = record o { statements = o.statements ++ s ∷ [] }

  unfoldable pub loop : Context → String → SourceSpan → Build T (BlockId × BlockId)
  loop c word at = elim c.loops [ [] ↦ fail (outside_loop word at) | found ∷ _ ↦ give found ]

  -- The end of a sequence: an open block goes to the continuation.
  unfoldable pub close :
      Context → Option BlockId → SourceSpan → Option (Open T) → Build T (Option (Open T))
  unfolding finish
  close c continuation at none = give none
  close c none at (some o) = give (some o)
  close c (some next) at (some o) = do finish c o (jump next at); give none

  abbrev pub unless : Option BlockId → Open T → Option (Open T)
  unless none o = some o
  unless (some _) o = none

module _ {T : Type 0} (making : Making T) (match_args : Dict String (List String)) where
  open making use {numbered}

  unfoldable pub new_id : String → Build T BlockId
  new_id kind b =
      let n = suc (get_or kind 0 b.counters) in
      ok (numbered kind n, record b { counters = put kind n b.counters })

  abbrev pub given_or_new : Option BlockId → String → Build T BlockId
  given_or_new (some id) kind = give id
  given_or_new none kind = new_id kind

  -- The block that follows: after control left, a dead one.
  unfoldable pub reopen : Option (Open T) → Build T (Open T)
  unfolding new_id
  reopen (some o) = give o
  reopen none = do id ← new_id "dead"; give (opened id)

  unfoldable pub sequence :
      Go T
      → Context
      → Statements T
      → Open T
      → Option BlockId
      → SourceSpan
      → Build T (Option (Open T))
  unfolding close reopen
  sequence go c empty block continuation at = close c continuation at (some block)
  sequence go c (first s empty) block continuation at = do
    end ← go c s block continuation
    close c continuation at end
  sequence go c (first s (first s' more)) block continuation at = do
    end ← go c s block none
    next ← reopen end
    sequence go c (first s' more) next continuation at

  -- The hoisted statements always fall through: this is asserted.
  unfoldable pub lay_pending :
      Go T → Context → Statements T → Open T → SourceSpan → Build T (Open T)
  unfolding sequence
  lay_pending go c empty block at = give block
  lay_pending go c (first s more) block at = do
    end ← sequence go c (first s more) block none at
    elim end [ none ↦ fail assertion | some o ↦ give o ]

  -- The statement without control flow in its expressions, and what it needs first.
  unfoldable pub hoisted : Statement T → Build T (Statement T × Statements T)
  unfolding desugar
  hoisted s b =
      let (s', h) =
        desugar making s (record { synthetic = b.synthetic; pending = empty; failed = false }) in
      if h.failed then err no_key else ok ((s', h.pending), record b { synthetic = h.synthetic })

  unfoldable pub hide : String → SourceSpan → Build T String
  unfolding hidden
  hide kind at b =
      let (fresh, h) =
        hidden making kind at
          (record { synthetic = b.synthetic; pending = empty; failed = false }) in
      ok (fresh, record b { synthetic = h.synthetic })

  module _ (go : Go T) (c : Context) (block : Open T) (continuation : Option BlockId) where
    unfoldable pub conditional_statement :
        Expression T → Statements T → Statements T → SourceSpan → Build T (Option (Open T))
    unfolding sequence finish new_id
    conditional_statement condition body empty at = do
      merge ← given_or_new continuation "merge"
      then_id ← new_id "then"
      finish c block (branch condition then_id merge at)
      sequence go c body (opened then_id) (some merge) at
      give (unless continuation (opened merge))
    conditional_statement condition body (first s more) at = do
      merge ← given_or_new continuation "merge"
      then_id ← new_id "then"
      else_id ← new_id "else"
      finish c block (branch condition then_id else_id at)
      sequence go c body (opened then_id) (some merge) at
      sequence go c (first s more) (opened else_id) (some merge) at
      give (unless continuation (opened merge))
