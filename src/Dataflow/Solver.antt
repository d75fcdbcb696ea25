-- ===== src/Dataflow/Solver.antt =====
-- dataflow/solver.py: the worklist solver, for any problem and graph.
pub mod Send
pub mod Stable
pub mod Fixpoint
pub mod Sound
pub mod Ascending
pub mod Terminates
use coretrace_python_analyze.Base.{
  ℕ, zero, suc, String, Bool, true, false, Option, none, some, List, [], ◌∷◌, ◌++◌, map,
  if◌then◌else◌, ltb, Dict, add, contains, get, get_or, list_eq, nat_eq, option_eq, pair_eq, put,
  remove, string_eq, ◌==◌,
}
use coretrace_python_analyze.Cfg.{BlockId}

abbrev pub entry_key : BlockId
entry_key = "<entry>"

pub data Direction : Type 0 where
  forward backward : Direction

-- The states on the incoming edges of a block, and those of every block.
abbrev pub Incoming : Type 0 → Type 0
Incoming S = Dict BlockId S

-- A problem over the states `S`: `same` is Python's `==` of two states.
-- Its `flow` returns, keeps no state of its own, and names blocks of the graph only: a target that is
-- no block would raise a `KeyError` where the worklist is sorted.
pub record Problem (S : Type 0) : Type 0 where
  pub direction : Direction
  pub initial : S
  pub join : S → S → S
  pub flow : BlockId → Incoming S → Incoming S
  pub same : S → S → Bool

-- What the solver reads of a graph: the blocks in order, the entry, and the blocks that are
-- reachable and have no successor.
pub record Graph : Type 0 where
  pub blocks : List BlockId
  pub entry : BlockId
  pub exits : List BlockId

unfoldable pub index : BlockId → List BlockId → ℕ
index b [] = 0
index b (x ∷ xs) = if b == x then 0 else suc (index b xs)

-- `worklist.sort(key=order, reverse=True)` and `worklist.pop()`: the block that comes first in the
-- graph leaves, and the others stay. (No block is queued twice.)
unfoldable pub pop_first : List BlockId → BlockId → List BlockId → BlockId × List BlockId
pop_first order b [] = (b, [])
pop_first order b (x ∷ rest) =
    let (least, others) = pop_first order x rest in
    if ltb (index least order) (index b order) then (least, b ∷ others) else (b, least ∷ others)

pub record Solving (S : Type 0) : Type 0 where
  pub incoming : Dict BlockId (Incoming S)
  pub worklist : List BlockId
  pub queued : List BlockId

module _ {S : Type 0} where
  -- `incoming[b]`, which is there for every block that was queued.
  abbrev pub arriving : Dict BlockId (Incoming S) → BlockId → Incoming S
  arriving inc b = get_or b [] inc

  module _ (p : Problem S) where
    -- `block in edges and edges[block] == state`
    unfoldable pub unchanged : Incoming S → BlockId → S → Bool
    unchanged edges block state = elim (get block edges) [
      | none ↦ false
      | some old ↦ p.same old state
    ]

    unfoldable pub enqueue : BlockId → Solving S → Solving S
    enqueue target s =
        if contains s.queued target
        then s
        else record s { worklist = s.worklist ++ target ∷ []; queued = add target s.queued }

    -- The body of the inner loop. `setdefault` may leave an empty mapping, which `arriving` and
    -- `reached` do not tell from a missing one.
    unfoldable pub send : BlockId → BlockId × S → Solving S → Solving S
    unfolding unchanged enqueue
    send block (target, state) s =
        let edges = arriving s.incoming target in
        let kept = record s { incoming = put target edges s.incoming } in
        let sent = record s { incoming = put target (put block state edges) s.incoming } in
        if unchanged edges block state then kept else enqueue target sent

    unfoldable pub send_all : BlockId → Incoming S → Solving S → Solving S
    send_all block [] s = s
    send_all block (e ∷ more) s = send_all block more (send block e s)

    -- One round of the outer loop, after `block` was popped.
    unfoldable pub process : BlockId → List BlockId → Solving S → Solving S
    process block rest s =
        send_all block (p.flow block (arriving s.incoming block))
          (record s { worklist = rest; queued = remove block s.queued })

    -- The outer loop; `none` means that the fuel ran out.
    unfoldable pub run : List BlockId → ℕ → Solving S → Option (Solving S)
    run order zero s = elim s.worklist [ [] ↦ some s | _ ∷ _ ↦ none ]
    run order (suc fuel) s = elim s.worklist [
      | [] ↦ some s
      | b ∷ more ↦ run order fuel (process (pop_first order b more).0 (pop_first order b more).1 s)
    ]

    unfoldable pub starts : Graph → List BlockId
    starts g = elim p.direction [ forward ↦ g.entry ∷ [] | backward ↦ g.exits ]

    unfoldable pub begin : Graph → Solving S
    begin g = record {
      incoming = map (λ b. (b, (entry_key, p.initial) ∷ [])) (starts g);
      worklist = starts g;
      queued = starts g;
    }

    unfoldable pub solve : ℕ → Graph → Option (Solving S)
    solve fuel g = run g.blocks fuel (begin g)

    -- `Solution.reached`
    unfoldable pub reached : Solving S → BlockId → Bool
    reached s b = elim (arriving s.incoming b) [ [] ↦ false | _ ∷ _ ↦ true ]

    unfoldable pub join_all : S → List S → S
    join_all result [] = result
    join_all result (other ∷ more) = join_all (p.join result other) more

    -- `Solution.state`: `none` is its `KeyError` at an unreached block.
    unfoldable pub state : Solving S → BlockId → Option S
    unfolding join_all
    state s b = elim (arriving s.incoming b) [
      | [] ↦ none
      | (_, first) ∷ more ↦ some (join_all first (map (λ (e : BlockId × S). e.1) more))
    ]

    -- `Solution.edge`: `none` is its `KeyError`.
    unfoldable pub edge : Dict BlockId (Incoming S) → BlockId → BlockId → Option S
    edge inc source target = get source (arriving inc target)
