-- ===== src/Cfg/BackEdges.antt =====
-- `CFG.back_edges` of cfg/model.py: the depth-first walk, with its three sets.
pub mod Walk
pub mod Leave
pub mod Acyclic
use coretrace_python_analyze.Base.{
  ℕ, zero, suc, List, [], ◌∷◌, Option, none, some, if◌then◌else◌, contains, add, remove, string_eq,
  pair_eq, length, keys, list_eq, nat_eq, option_eq,
}
use coretrace_python_analyze.Cfg.{BlockId, Syntax, Cfg, successor_list}

pub record Dfs : Type 0 where
  pub found : List (BlockId × BlockId)
  pub on_path : List BlockId
  pub finished : List BlockId

-- One successor of `id`: an edge back to the path, a block done before, or one to visit.
unfoldable pub follow : (BlockId → Dfs → Option Dfs) → BlockId → BlockId → Dfs → Option Dfs
follow visit id t s =
    if contains s.on_path t
    then some (record s { found = add (id, t) s.found })
    else if contains s.finished t
    then some s
    else visit t s

unfoldable pub follow_all : (BlockId → Dfs → Option Dfs) → BlockId → List BlockId → Dfs → Option Dfs
follow_all visit id [] s = some s
follow_all visit id (t ∷ more) s = elim (follow visit id t s) [
  | none ↦ none
  | some s' ↦ follow_all visit id more s'
]

abbrev pub enter : BlockId → Dfs → Dfs
enter id s = record s { on_path = add id s.on_path }

abbrev pub leave : BlockId → Dfs → Dfs
leave id s = record s { on_path = remove id s.on_path; finished = add id s.finished }

-- The fuel bounds the depth of the recursion; `none` means that it ran out.
unfoldable pub visit : (BlockId → List BlockId) → ℕ → BlockId → Dfs → Option Dfs
unfolding follow follow_all add remove contains
visit next zero id s = none
visit next (suc fuel) id s = elim (follow_all (visit next fuel) id (next id) (enter id s)) [
  | none ↦ none
  | some s' ↦ some (leave id s')
]

abbrev pub nothing : Dfs
nothing = record { found = []; on_path = []; finished = [] }

unfoldable pub walk : {syntax : Syntax} → Cfg syntax → Option Dfs
unfolding visit
walk cfg = visit (successor_list cfg) (length (keys cfg.blocks)) cfg.entry nothing

unfoldable pub back_edges : {syntax : Syntax} → Cfg syntax → Option (List (BlockId × BlockId))
unfolding walk
back_edges cfg = elim (walk cfg) [ none ↦ none | some s ↦ some s.found ]
