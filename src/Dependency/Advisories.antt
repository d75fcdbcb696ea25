-- ===== src/Dependency/Advisories.antt =====
-- dependency/graph.py: advisories, their entry points, and the arguments that exploit them.
use coretrace_python_analyze.Findings.{Severity}
use coretrace_python_analyze.Dependency.Versions.{Specifier, Requirement, may_match}
use coretrace_python_analyze.Base.{
  Bool, List, Option, String, [], false, if◌then◌else◌, list_eq, ltb, map, nat_eq, none, option_eq,
  pair_eq, some, string_eq, true, ℕ, ◌&&◌, ◌++◌, ◌==◌, ◌||◌, ◌∷◌,
}

pub record Condition : Type 0 where
  pub kind : String
  pub text : String
  pub argument : Option String
  pub values : List String
  pub position : Option ℕ
  pub default : Bool
  pub present : Bool
  pub method : Option String

unfoldable pub checkable : Condition → Bool
checkable c = c.kind == "argument"

pub record AttackerArgument : Type 0 where
  pub argument : Option String
  pub position : Option ℕ
  pub variadic : Bool

-- Whether what is passed at a position or as a keyword is the argument; what is unpacked with `*` or
-- `**` has neither and may be.
unfoldable pub receives : AttackerArgument → Option ℕ → Option String → Bool
receives a position (some keyword) = some keyword == a.argument
receives a none none = true
receives a (some position) none = elim a.position [
  | none ↦ false
  | some own ↦ position == own || (a.variadic && ltb own position)
]

pub record AdvisoryEntryPoint : Type 0 where
  pub symbol : String
  pub justification : String
  pub conditions : List Condition
  pub read : Bool
  pub attacker_arguments : List AttackerArgument
  pub suffixes : List String

unfoldable pub some_receives : List AttackerArgument → Option ℕ → Option String → Bool
unfolding receives
some_receives [] position keyword = false
some_receives (a ∷ more) position keyword =
    receives a position keyword || some_receives more position keyword

unfoldable pub exploitable_through : AdvisoryEntryPoint → Option ℕ → Option String → Bool
unfolding some_receives
exploitable_through e position keyword = elim e.attacker_arguments [
  | [] ↦ true
  | _ ∷ _ ↦ some_receives e.attacker_arguments position keyword
]

pub record Advisory : Type 0 where
  pub id : String
  pub «package» : String
  pub vulnerable : Specifier
  pub summary : String
  pub severity : Severity
  pub affected_symbols : List String
  pub aliases : List String
  pub entry_points : List AdvisoryEntryPoint
  pub modules : List String

-- `normalize` of a package's name is a parameter here.
unfoldable pub affects : (String → String) → Advisory → String → Requirement → Bool
unfolding may_match
affects normalize a name r = name == normalize a.«package» && may_match r a.vulnerable

-- The entry points and the affected symbols themselves.
unfoldable pub reachable_symbols : Advisory → List String
reachable_symbols a =
    map (λ (e : AdvisoryEntryPoint). e.symbol) a.entry_points ++ a.affected_symbols

unfoldable pub find_entry : String → List AdvisoryEntryPoint → Option AdvisoryEntryPoint
find_entry symbol [] = none
find_entry symbol (e ∷ more) = if e.symbol == symbol then some e else find_entry symbol more

unfoldable pub entry_point : Advisory → String → Option AdvisoryEntryPoint
unfolding find_entry
entry_point a symbol = find_entry symbol a.entry_points
