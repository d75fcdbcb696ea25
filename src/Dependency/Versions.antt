-- ===== src/Dependency/Versions.antt =====
-- dependency/graph.py: versions, the clauses of a specifier, and `may_match`. A specifier is modelled
-- as its texts are read: the clauses, with operator and version, of each of its alternatives.
pub mod Order
pub mod Clauses
pub mod Matches
use coretrace_python_analyze.Base.{
  Bool, List, Option, [], eqb, false, if◌then◌else◌, length, list_eq, ltb, nat_eq, none, not,
  option_eq, pair_eq, some, string_eq, suc, take, true, zero, ℕ, ◌&&◌, ◌++◌, ◌-◌, ◌==◌, ◌||◌, ◌∷◌,
}
use Prim.Native.Nat.{max}

abbrev pub Version : Type 0
Version = List ℕ

pub data Operator : Type 0 where
  equal identical differs less at_most greater at_least compatible caret : Operator

pub record Clause : Type 0 where
  pub operator : Operator
  pub wanted : Version
  -- The version ends in `.*`.
  pub wildcard : Bool

abbrev pub Specifier : Type 0
Specifier = List (List Clause)

abbrev pub zeros : ℕ → List ℕ
zeros zero = []
zeros (suc n) = 0 ∷ zeros n

unfoldable pub padded : ℕ → Version → List ℕ
padded n v = v ++ zeros (n - length v)

-- Python's `<` of two tuples.
unfoldable pub tuple_lt : List ℕ → List ℕ → Bool
tuple_lt xs [] = false
tuple_lt [] (y ∷ ys) = true
tuple_lt (x ∷ xs) (y ∷ ys) = ltb x y || (eqb x y && tuple_lt xs ys)

-- The first version that `~=` no longer allows.
unfoldable pub compatible_ceiling : Version → List ℕ
compatible_ceiling [] = []
compatible_ceiling (a ∷ []) = suc a ∷ []
compatible_ceiling (a ∷ b ∷ []) = suc a ∷ []
compatible_ceiling (a ∷ b ∷ c ∷ more) = a ∷ compatible_ceiling (b ∷ c ∷ more)

-- The first version that `^` no longer allows.
unfoldable pub caret_ceiling : Version → List ℕ
caret_ceiling [] = []
caret_ceiling (a ∷ []) = suc a ∷ []
caret_ceiling (a ∷ b ∷ more) =
    let rest = caret_ceiling (b ∷ more) in
    if eqb a 0 then 0 ∷ rest else suc a ∷ zeros (length (b ∷ more))

-- `_satisfies_clause`; `wildcard` is `raw.endswith(".*")`.
unfoldable pub satisfies_clause : Version → Operator → Version → Bool → Bool
unfolding padded tuple_lt compatible_ceiling caret_ceiling
satisfies_clause v operator wanted wildcard =
    let n = max (length v) (length wanted) in
    let mine = padded n v in
    let theirs = padded n wanted in
    let ceiling = compatible_ceiling wanted in
    let limit = caret_ceiling wanted in
    let exactly : Bool = if wildcard then take (length wanted) v == wanted else mine == theirs in
    elim operator [
      | equal ↦ exactly
      | identical ↦ exactly
      | differs ↦ not (mine == theirs)
      | less ↦ tuple_lt mine theirs
      | at_most ↦ not (tuple_lt theirs mine)
      | greater ↦ tuple_lt theirs mine
      | at_least ↦ not (tuple_lt mine theirs)
      | compatible ↦ not (tuple_lt mine theirs) && tuple_lt (padded (length ceiling) v) ceiling
      | caret ↦ not (tuple_lt mine theirs) && tuple_lt (padded (length limit) v) limit
    ]

unfoldable pub satisfies_all : Version → List Clause → Bool
unfolding satisfies_clause
satisfies_all v [] = true
satisfies_all v (c ∷ cs) = satisfies_clause v c.operator c.wanted c.wildcard && satisfies_all v cs

unfoldable pub satisfies : Version → Specifier → Bool
unfolding satisfies_all
satisfies v [] = false
satisfies v (alternative ∷ more) = satisfies_all v alternative || satisfies v more

unfoldable pub is_lower : Operator → Bool
is_lower equal = true
is_lower identical = true
is_lower differs = false
is_lower less = false
is_lower at_most = false
is_lower greater = true
is_lower at_least = true
is_lower compatible = true
is_lower caret = true

unfoldable pub clause_bounds : List Clause → List Version
unfolding is_lower
clause_bounds [] = []
clause_bounds (c ∷ cs) =
    let rest = clause_bounds cs in if is_lower c.operator then c.wanted ∷ rest else rest

unfoldable pub lower_bounds : Specifier → List Version
unfolding clause_bounds
lower_bounds [] = []
lower_bounds (alternative ∷ more) = clause_bounds alternative ++ lower_bounds more

-- What `may_match` reads of a requirement.
pub record Requirement : Type 0 where
  pub specifier : Specifier
  pub pinned : Option Version

unfoldable pub any_satisfies : Specifier → Specifier → List Version → Bool
any_satisfies specifier vulnerable [] = false
any_satisfies specifier vulnerable (v ∷ more) =
    (satisfies v specifier && satisfies v vulnerable) || any_satisfies specifier vulnerable more

unfoldable pub may_match : Requirement → Specifier → Bool
unfolding satisfies lower_bounds any_satisfies
may_match r vulnerable = elim r.pinned [
  | some v ↦ satisfies v vulnerable
  | none ↦
      any_satisfies r.specifier vulnerable
        ((0 ∷ []) ∷ lower_bounds r.specifier ++ lower_bounds vulnerable)
]
