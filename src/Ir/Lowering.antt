-- ===== src/Ir/Lowering.antt =====
-- ir/lowering.py: the state of `_FunctionLowerer`, and what it reads of the semantic analyses.
pub mod Expressions
pub mod Statements
pub mod Functions
pub mod Counted
pub mod Triples
pub mod Values
pub mod Blocks
pub mod Once
pub mod Succeeds
mod Tests
use coretrace_python_analyze.Hir.{Expression, Parameters, Statement}
use coretrace_python_analyze.Findings.{SourceSpan}
use coretrace_python_analyze.Cfg.{BlockId}
use coretrace_python_analyze.Ir.{
  Value, SymbolId, ValueInstruction, EffectInstruction, Instruction, computes, affects,
}
use coretrace_python_analyze.Base.{
  Bool, Dict, List, [], ◌∷◌, ◌++◌, Option, none, some, String, ℕ, suc, Result, ok, err, list_eq,
  nat_eq, option_eq, pair_eq, string_eq,
}

-- `ResolutionKind`
pub data Resolution : Type 0 where
  local free global unbound : Resolution

-- `LoweringError`, by what it reports; then a failed assertion, and a `KeyError`.
pub data LoweringError : Type 0 where
  unsupported : SourceSpan → LoweringError
  closure : SourceSpan → LoweringError
  lone_starred : SourceSpan → LoweringError
  control_flow : SourceSpan → LoweringError
  free_target : SourceSpan → LoweringError
  global_target : SourceSpan → LoweringError
  unresolved_import : SourceSpan → (bound : String) → LoweringError
  assertion : LoweringError
  missing_block : BlockId → LoweringError
  missing_iterator : BlockId → LoweringError
  missing_context : SourceSpan → LoweringError

-- What the scopes and symbols of the module say in a function's scope.
pub record Scoping (T : Type 0) : Type 0 where
  -- `scopes.resolve(scope.id, name).kind`
  pub kind_of : String → Resolution
  -- `scope.kind is ScopeKind.MODULE`
  pub is_module : Bool
  -- `scope.bindings.get(name)` is a binding of kind `LOCAL`
  pub is_variable : String → Bool
  -- `symbols.resolve(scope.id, name)`
  pub symbol_of : String → Option SymbolId
  -- `symbols.attribute(parent, name)`
  pub symbol_attribute : SymbolId → String → SymbolId
  -- `captured_names(function, scopes)`, for a lambda and for a nested function
  pub captured_by_lambda : Parameters T → Expression T → SourceSpan → List String
  pub captured_by : Statement T → List String
  -- the sorted names with a `NONLOCAL` binding in a nested function's scope
  pub nonlocals_of : Statement T → List String

-- What Python makes of numbers and texts.
pub record Texts (T : Type 0) : Type 0 where
  pub number : ℕ → T
  -- `-n`
  pub negative : ℕ → T
  -- `f"lambda_{line}_{column}"`
  pub lambda_name : ℕ → ℕ → String
  -- `text.partition(".")[0]`
  pub first_part : String → String
  -- `"." * level + text`
  pub dotted : ℕ → String → String

-- What stays the same while a function is lowered.
pub record Environment (T : Type 0) : Type 0 where
  pub scoping : Scoping T
  pub texts : Texts T
  pub synthetic_locals : List String
  pub parameters : Dict String Value
  pub nonlocals : List String

-- A span, by its fields.
abbrev pub SpanKey : Type 0
SpanKey = String × ((ℕ × ℕ) × (Option ℕ × Option ℕ))

abbrev pub span_key : SourceSpan → SpanKey
span_key at = (at.source_id, ((at.start_line, at.start_column), (at.end_line, at.end_column)))

pub record Lowerer (T : Type 0) : Type 0 where
  pub next_value_id : ℕ
  pub instructions : List (Instruction T SourceSpan)
  pub iterators : Dict BlockId Value
  pub contexts : Dict SpanKey Value
  pub nested_defs : Dict String (Statement T)

-- A method: it changes the lowerer, or raises.
abbrev pub Lower : Type 0 → Type 0 → Type 0
Lower T A = Lowerer T → Result LoweringError (A × Lowerer T)

module _ {T : Type 0} {A B : Type 0} where
  infixl 5 ◌>>=◌
  abbrev pub ◌>>=◌ : Lower T A → (A → Lower T B) → Lower T B
  ◌>>=◌ m next s = elim (m s) [ err e ↦ err e | ok (a, s') ↦ next a s' ]

  infixl 5 ◌>>◌
  abbrev pub ◌>>◌ : Lower T A → Lower T B → Lower T B
  ◌>>◌ m next = m >>= λ _. next

module _ {T : Type 0} where
  abbrev pub give : {A : Type 0} → A → Lower T A
  give a s = ok (a, s)

  abbrev pub fail : {A : Type 0} → LoweringError → Lower T A
  fail e s = err e

  unfoldable pub new_value : Lower T Value
  new_value s = ok (s.next_value_id, record s { next_value_id = suc s.next_value_id })

  unfoldable pub emit : ValueInstruction T SourceSpan → Value → Lower T Value
  emit i result s = ok (result, record s { instructions = s.instructions ++ computes i ∷ [] })

  unfoldable pub emit_effect : EffectInstruction T SourceSpan → Lower T (Unit {0})
  emit_effect i s = ok (tt, record s { instructions = s.instructions ++ affects i ∷ [] })

  -- An instruction with a new value.
  abbrev pub emit_new : (Value → ValueInstruction T SourceSpan) → Lower T Value
  emit_new f = new_value >>= λ v. emit (f v) v
