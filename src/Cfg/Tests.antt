-- ===== src/Cfg/Tests.antt =====
-- A loop's graph, checked and walked.
use coretrace_python_analyze.Cfg.{
  BlockId, Syntax, BasicBlock, Cfg, branch, jump, return, make, add_blocks, add_predecessors,
  out_edges, targets, extend_new, successors, successor_list, reachable,
}
use coretrace_python_analyze.Cfg.Build.{IsWellFormed, make_iff, predecessors-transpose}
use coretrace_python_analyze.Cfg.Leads.{Leads, successors-Leads}
use coretrace_python_analyze.Cfg.Reachable.{reachable_decides}
use coretrace_python_analyze.Cfg.BackEdges.{back_edges}
use coretrace_python_analyze.Cfg.BackEdges.Acyclic.{back_edges_cut}
use coretrace_python_analyze.Base.{
  Dict, IsDict, List, Memᴰ, Reaches, String, [], contains, count, get, get_or, list_eq, nat_eq,
  none, option_eq, pair_eq, put, refl, some, string_eq, true, ℕ, ◌<◌, ◌↔◌, ◌∷◌, ◌≡◌, ◌⊎◌, ok,
}

abbrev plain : Syntax
plain = record { Expression = String; Statement = String; Name = String; Span = ℕ }

-- while c: s
abbrev while_blocks : Dict BlockId (BasicBlock plain)
while_blocks =
    (
      "test",
      record {
        id = "test";
        statements = [];
        terminator = branch "c" "body" "end" 1;
        exception_targets = [];
      },
    )
    ∷ (
      "body",
      record {
        id = "body";
        statements = "s" ∷ [];
        terminator = jump "test" 2;
        exception_targets = "end" ∷ [];
      },
    )
    ∷ (
      "end",
      record { id = "end"; statements = []; terminator = return none 3; exception_targets = [] },
    )
    ∷ []

abbrev while_cfg : Cfg plain
while_cfg = record {
  entry = "test";
  blocks = while_blocks;
  synthetic_locals = [];
  successor_map = ("test", "body" ∷ "end" ∷ []) ∷ ("body", "test" ∷ "end" ∷ []) ∷ ("end", []) ∷ [];
  predecessor_map =
      ("test", "body" ∷ []) ∷ ("body", "test" ∷ []) ∷ ("end", "test" ∷ "body" ∷ []) ∷ [];
}

while_unique : IsDict while_blocks
unfolding contains
while_unique = (refl, (refl, (refl, tt)))

while_made : make "test" while_blocks [] ≡ ok while_cfg
unfolding make add_blocks add_predecessors out_edges targets extend_new contains put get_or get
while_made = refl

make_iff_example :
    ((cfg : Cfg plain) × (make "test" while_blocks [] ≡ ok cfg)) ↔ IsWellFormed "test" while_blocks
make_iff_example = make_iff "test" while_blocks []

successors-Leads_example :
    (get "body" while_blocks ≡ none → successors while_cfg "body" ≡ none)
    × ((b : BasicBlock plain)
        → get "body" while_blocks ≡ some b
        → (found : List BlockId) × (successors while_cfg "body" ≡ some found)
          × ((t : BlockId) → (contains found t ≡ true) ↔ Leads b t))
successors-Leads_example = successors-Leads "test" while_blocks [] "body" while_unique while_made

predecessors-transpose_example :
    count "body" (get_or "test" [] while_cfg.predecessor_map)
    ≡ count "test" (get_or "body" [] while_cfg.successor_map)
predecessors-transpose_example =
    predecessors-transpose "test" while_blocks [] "body" "test" while_unique while_made

reachable_decides_example :
    (found : List BlockId) × (reachable while_cfg ≡ some found)
    × ((id : BlockId)
        → (contains found id ≡ true) ↔ Reaches (successor_list while_cfg) ("test" ∷ []) id)
reachable_decides_example = reachable_decides "test" while_blocks [] while_unique while_made

back_edges_cut_example :
    (found : List (BlockId × BlockId)) × (back_edges while_cfg ≡ some found)
    × ((u v : BlockId)
        → contains found (u, v) ≡ true
        → Memᴰ v (successor_list while_cfg u) × Reaches (successor_list while_cfg) (v ∷ []) u)
    × (depth : BlockId → ℕ) × ((u v : BlockId)
        → Reaches (successor_list while_cfg) ("test" ∷ []) u
        → Memᴰ v (successor_list while_cfg u)
        → (contains found (u, v) ≡ true) ⊎ (depth v < depth u))
back_edges_cut_example = back_edges_cut "test" while_blocks [] while_unique while_made
