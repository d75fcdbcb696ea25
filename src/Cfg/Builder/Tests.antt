-- ===== src/Cfg/Builder/Tests.antt =====
-- Functions with a loop and a `try`, built.
use coretrace_python_analyze.Hir.{
  name, constant, conditional, absent, present, assign, return, expression_statement,
  while_statement, break, continue, try_statement, empty, first, no_handlers, handler, Expression,
  Statements, class, declaration, call, no_keywords, tuple, nil, cons,
}
use Prim.Native.String.{◌++◌}
use coretrace_python_analyze.Findings.{SourceSpan}
use coretrace_python_analyze.Cfg.Builder.Layout.{hir}
use coretrace_python_analyze.Cfg.{BlockId, Cfg, make}
use coretrace_python_analyze.Cfg.Builder.Comprehension.{Making}
use coretrace_python_analyze.Cfg.Builder.Patterns.{BuildError, outside_loop}
use coretrace_python_analyze.Cfg.Builder.Statements.{build}
use coretrace_python_analyze.Cfg.Builder.MatchArgs.{match_args_of}
use coretrace_python_analyze.Cfg.Builder.Returns.{Returns, build-Returns}
use coretrace_python_analyze.Cfg.Builder.Size.{size, weight, contexts_weight}
use coretrace_python_analyze.Base.{
  List, [], ◌∷◌, ℕ, String, Result, ok, err, keys, ◌≡◌, refl, string_eq, list_eq, nat_eq, option_eq,
  pair_eq, put, get, get_or, contains, arith, zero, suc, none, ◌+◌, if◌then◌else◌, some, ◌==◌,
}

-- A number in strokes, which tells ids apart.
strokes : ℕ → String
strokes zero = ""
strokes (suc n) = "i" ++ strokes n

-- Constants are numbers, and stand for themselves; `-n` is `1000 + n`.
abbrev plain : Making ℕ
plain = record {
  numbered = λ kind n. kind ++ strokes n;
  hidden_name = λ kind line column n. "_" ++ kind ++ strokes n;
  variable = λ x. "var_" ++ x;
  match_argument = λ i. "argument" ++ strokes i;
  truth = λ b. if b then 1 else 0;
  number = λ n. n;
  negative = λ n. 1000 + n;
}

abbrev at : SourceSpan
at = record {
  source_id = "f.py";
  start_line = 1;
  start_column = 1;
  end_line = none;
  end_column = none;
}

abbrev x : Expression ℕ
x = name "x" at

abbrev y : Expression ℕ
y = name "y" at

abbrev chosen : Expression ℕ
chosen = conditional x (constant 1 at) (constant 2 at) at

-- while x: try: g(1 if x else 2)  except: continue  finally: break
-- return y
abbrev body : Statements ℕ
body =
    first
      (while_statement x
        (first
          (try_statement (first (expression_statement chosen at) empty)
            (handler absent none (first (continue at) empty) at no_handlers) empty
            (first (break at) empty) at)
          empty)
        at empty)
      (first (return (present y) at) empty)

abbrev fuel : ℕ
fuel = 40

-- The ids of the blocks that `build` lays out, or none.
abbrev ids : Result BuildError (Cfg (hir ℕ)) → List BlockId
ids (err e) = []
ids (ok cfg) = keys cfg.blocks

-- The blocks in the order in which they are laid out.
blocks-body :
    ids (build plain [] fuel body at)
    ≡ "entry" ∷ "loopi" ∷ "bodyi" ∷ "tryi" ∷ "theni" ∷ "elsei" ∷ "mergei" ∷ "handleri" ∷ "finallyi"
      ∷ "exiti" ∷ []
unfolding build make contains put strokes get_or get
blocks-body = refl

break-outside : build plain [] fuel (first (break at) empty) at ≡ err (outside_loop "break" at)
unfolding build
break-outside = refl

build-Returns_example : Returns (build plain [] fuel body at)
unfolding size weight contexts_weight
build-Returns_example = build-Returns plain [] fuel body at (omega arith)

-- @dataclass class Point: z: int; _hidden = 1; y = 2
-- class Other: __match_args__ = ("a",)
abbrev classes : Statements ℕ
classes =
    first
      (class "Point" nil
        (first (declaration "z" absent at) (
          first (assign (name "_hidden" at) (constant 1 at) at)
            (first (assign y (constant 2 at) at) empty)))
        at (cons (call (name "dataclass" at) nil no_keywords at) nil) no_keywords)
      (first
        (class "Other" nil
          (first (assign (name "__match_args__" at) (tuple (cons (constant 7 at) nil) at) at) empty)
          at nil no_keywords)
        empty)

match_args_of-classes :
    match_args_of (λ n. if n == 7 then some "a" else none) classes
    ≡ ("Point", "z" ∷ "y" ∷ []) ∷ ("Other", "a" ∷ []) ∷ []
unfolding match_args_of put
match_args_of-classes = refl
