-- ===== src/Lib.antt =====
-- The core of coretrace-python-analyzer, a static security analyser for Python: the graphs, the
-- intermediate representation and the fixpoints that its analyses stand on, and the bookkeeping of
-- analyses, findings and dependencies.
--
-- The program lays a function's statements (Hir) out as basic blocks (Cfg), lowers those to instructions
-- (Ir), and runs analyses over them. An analysis is requested by the manager (Analysis), which keeps
-- results and computes each once; most analyses are data-flow problems, which one solver (Dataflow)
-- takes to a fixpoint; constant propagation (Abstract) is its reference client. What the analyses find
-- is compared with a baseline and with suppressions (Findings), and requirements are compared with the
-- ranges of advisories (Dependency).
--
-- Paths are from the repository's root, without the package's src/coretrace_python/ in front:
--   Cfg, Cfg/Build, Cfg/Leads, Cfg/Reachable, Cfg/BackEdges/...: cfg/model.py. `make` is
--     `CFG.__post_init__`, whose `CFGError` is a `Result`; `reachable` and `back_edges` are the methods.
--   Hir: hir/nodes.py, a class being a constructor. Cfg/Builder/...: cfg/builder.py. Rename, Comprehension,
--     Hoist and Desugar take control flow out of expressions, as `hoist` and `desugared`; Patterns is
--     `pattern`; Layout and Statements are the methods that lay statements out, as functions from a
--     builder to a builder or a `BuildError`; `build` is `build_cfg`, and MatchArgs `match_args_of`. The
--     stacks of loops and handlers, which a method pushes and pops around a body, are passed down
--     (`Context`). A key that is missing from a dict comprehension is remembered in `failed`, and raised
--     when the hoisting is over. Size, Promises, Follows and Returns hold the proofs.
--   Dataflow/Lattice: dataflow/lattice.py, the flat lattice. Dataflow/Solver/...: dataflow/solver.py.
--     `solve` is the function of that name, `process` a round of its outer loop, `send` the body of
--     its inner loop; `state`, `edge` and `reached` are the methods of `Solution`.
--   Ir, Ir/Substitute: ir/model.py, an instruction class being a constructor with the same fields in
--     the same order. Ir/DefUse: ir/defuse.py, `def_use`.
--   Ir/Lowering/...: ir/lowering.py, the methods of `_FunctionLowerer`, as functions from a lowerer to a
--     lowerer or a `LoweringError`. Expressions, Statements and Functions are the code; the others hold
--     the proofs. The scope and symbol tables are read through `Scoping`, and a function's node
--     through `Subject`, whose fields are what the code asks of them.
--   Analysis/...: analysis/manager.py and analysis/provider.py. `request` is `AnalysisManager.get`, with
--     the manager passed along; a `compute` is a `Program`, which returns, raises, or asks the manager
--     and goes on with what it gets. `provide`, `is_cached` and `run` are the methods. In Analysis/Acyclic
--     are `register` and `_check_acyclic`, with fuel for one visit more than there are analyses; in
--     Analysis/Dependencies are `dependencies` and the lookup `analysis`.
--   Abstract/Value: abstract/values.py. Abstract/Constants/...: abstract/constants.py, the methods of its
--     data-flow problem; `none` is the `KeyError` of a value without a fact.
--   Findings: findings/model.py and source/model.py; Findings/Spans: the checks of a span, on ℕ.
--     Findings/Baseline: findings/baseline.py.
--     Findings/Suppressions: findings/suppressions.py.
--   Findings/Coverage: findings/coverage.py.
--   Dependency/Versions/...: dependency/graph.py, the versions, and `Requirement.may_match`.
--   Dependency/Advisories: the advisories of that file. Dependency/Vex/...: dependency/vex.py, where a
--     `Status` holds what a statement and its note say, and not the text.
--   Base/...: names and lemmas on lists, dictionaries, Booleans and the worklist closure, which the
--     parts share. Each part's Tests holds its runs at concrete inputs.
--
-- Integers are Python's, of any size, and none of the modelled code goes below 0. A `dict` is a list of
-- keys and values in insertion order, a `set` a list without duplicates; a frozen dataclass is a record.
-- What is read of Python or of libraries is a parameter: the constants of the language with their types,
-- `==` and truth (`Python`), their operators (`Operators`), the nodes and spans that graphs carry
-- (`Syntax`), the constants and texts that the builder and lowering make (`Making`, `Texts`; they make
-- the negative constants too), the lines of files and the digest (`Files`), and tokens and the marker
-- (`Reader`).
--
-- Loops that may not end take fuel, and `none` means that it ran out. `closure` takes the edges of its
-- graph and the starts, `walk` and `check_acyclic` one more than any path is long, and `build` the size
-- of the body (`statements_size`): all are proved enough. `solve` takes any fuel, with a bound that is enough
-- on problems of finite height; `request` takes the depth to which requests nest, and what is proved
-- of it holds of every request that answers.
--
-- Constants are objects: `==` relates equal ones, and `is` is an operator like the others, which the
-- soundness of constant propagation excludes. A data-flow problem is a pure function that always
-- returns, so one that raises, or keeps state between its calls as that of abstract/ranges.py does, is
-- none of the solver's; and its targets are blocks of the graph.
--
-- Not modelled: the frontend, scopes and symbols, SSA form, dominance, the other abstract
-- domains, the interprocedural and taint engines, plugins, reporters, and whatever reads or writes files.
-- The clauses of a version specifier are modelled as they are read, without the texts.
mod Base
pub mod Cfg
pub mod Dataflow
pub mod Hir
pub mod Ir
pub mod Analysis
pub mod Abstract
pub mod Findings
pub mod Dependency
