-- ===== src/Cfg/Builder.antt =====
-- cfg/builder.py: the control-flow graph of a function, laid out from its statements.
pub mod Rename
pub mod Comprehension
pub mod Hoist
pub mod Patterns
pub mod Desugar
pub mod Layout
pub mod Statements
pub mod Size
pub mod Promises
pub mod Follows
pub mod MatchArgs
pub mod Returns
pub mod Tests
use coretrace_python_analyze.Base.{list_eq, nat_eq, option_eq, pair_eq, string_eq}
