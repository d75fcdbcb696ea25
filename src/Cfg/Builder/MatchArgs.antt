-- ===== src/Cfg/Builder/MatchArgs.antt =====
-- `match_args_of` and `_is_dataclass` of cfg/builder.py, and the analysis that builds a function's graph.
use text.Mathlib.Text.{starts_with}
use coretrace_python_analyze.Hir.{
  name, constant, call, attribute, tuple, list, nil, cons, assign, declaration, class, empty, first,
  Expression, Expressions, Statement, Statements,
}
use coretrace_python_analyze.Findings.{SourceSpan}
use coretrace_python_analyze.Cfg.{Cfg}
use coretrace_python_analyze.Cfg.Builder.Comprehension.{Making}
use coretrace_python_analyze.Cfg.Builder.Patterns.{BuildError}
use coretrace_python_analyze.Cfg.Builder.Layout.{hir}
use coretrace_python_analyze.Cfg.Builder.Statements.{build}
use coretrace_python_analyze.Base.{
  Bool, false, ◌||◌, Dict, List, [], ◌∷◌, ◌++◌, String, Option, none, some, ℕ, put, if◌then◌else◌,
  ◌==◌, Result, string_eq, list_eq, nat_eq, option_eq, pair_eq,
}

-- The `__match_args__` of a class, if it has any, and its fields.
pub record Members : Type 0 where
  pub explicit : Option (List String)
  pub fields : List String

module _ {T : Type 0} where
  unfoldable pub names_dataclass : Expression T → Bool
  names_dataclass (name x _) = x == "dataclass"
  names_dataclass (attribute _ attr _) = attr == "dataclass"
  names_dataclass _ = false

  unfoldable pub is_dataclass : Expression T → Bool
  unfolding names_dataclass
  is_dataclass (call callee _ _ _) = names_dataclass callee
  is_dataclass e = names_dataclass e

  unfoldable pub any_dataclass : Expressions T → Bool
  unfolding is_dataclass
  any_dataclass nil = false
  any_dataclass (cons e more) = is_dataclass e || any_dataclass more

  -- The elements of a tuple or list.
  unfoldable pub elements_of : Expression T → Option (Expressions T)
  elements_of (tuple es _) = some es
  elements_of (list es _) = some es
  elements_of _ = none

-- `as_text` is the value of a constant, where that is a `str`.
module _ {T : Type 0} (as_text : T → Option String) where
  unfoldable pub text_elements : Expressions T → List String
  text_elements nil = []
  text_elements (cons (constant value _) more) = elim (as_text value) [
    | none ↦ text_elements more
    | some text ↦ text ∷ text_elements more
  ]
  text_elements (cons _ more) = text_elements more

  unfoldable pub add_member : Statement T → Members → Members
  unfolding text_elements elements_of
  add_member (assign (name x _) value _) m =
      let field = if starts_with x "_" then m else record m { fields = m.fields ++ x ∷ [] } in
      if x == "__match_args__"
      then elim (elements_of value) [
        | none ↦ field
        | some es ↦ record m { explicit = some (text_elements es) }
      ]
      else field
  add_member (declaration x _ _) m = record m { fields = m.fields ++ x ∷ [] }
  add_member _ m = m

  unfoldable pub add_members : Statements T → Members → Members
  unfolding add_member
  add_members empty m = m
  add_members (first s more) m = add_members more (add_member s m)

  unfoldable pub match_args_from :
      Statements T → Dict String (List String) → Dict String (List String)
  unfolding add_members any_dataclass
  match_args_from empty found = found
  match_args_from (first (class c _ body _ decorators _) more) found =
      let m = add_members body (record { explicit = none; fields = [] }) in
      match_args_from more (elim m.explicit [
        | some explicit ↦ put c explicit found
        | none ↦ if any_dataclass decorators then put c m.fields found else found
      ])
  match_args_from (first _ more) found = match_args_from more found

  unfoldable pub match_args_of : Statements T → Dict String (List String)
  unfolding match_args_from
  match_args_of body = match_args_from body []

  -- `CFGAnalysis.compute`, of a module's body and a function's.
  unfoldable pub compute :
      Making T → Statements T → ℕ → Statements T → SourceSpan → Result BuildError (Cfg (hir T))
  unfolding match_args_of build
  compute making in_module fuel body at = build making (match_args_of in_module) fuel body at
