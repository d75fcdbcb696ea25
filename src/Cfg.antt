-- ===== src/Cfg.antt =====
-- cfg/model.py: terminators, basic blocks and the checked control-flow graph.
pub mod Build
pub mod Leads
pub mod Reachable
pub mod BackEdges
pub mod Builder
mod Tests
use coretrace_python_analyze.Base.{
  String, Bool, true, false, Option, none, some, List, [], ◌∷◌, ◌++◌, if◌then◌else◌, ◌==◌, contains,
  Dict, get, put, get_or, keys, Result, ok, err, ◌>>=◌, closure, map, string_eq,
}

abbrev pub BlockId : Type 0
BlockId = String

-- The nodes of hir/nodes.py and the source spans, which a graph carries and never reads.
pub record Syntax : Type 1 where
  pub Expression : Type 0
  pub Statement : Type 0
  pub Name : Type 0
  pub Span : Type 0

module _ (syntax : Syntax) where
  open syntax use {Expression, Statement, Name, Span}

  pub data Terminator : Type 0 where
    branch : Expression → BlockId → BlockId → Span → Terminator
    jump : BlockId → Span → Terminator
    return : Option Expression → Span → Terminator
    raise : Option Expression → Span → Option Expression → Terminator
    for_each : Name → Expression → BlockId → BlockId → Span → Terminator

  pub record BasicBlock : Type 0 where
    pub id : BlockId
    pub statements : List Statement
    pub terminator : Terminator
    pub exception_targets : List BlockId

  pub record Cfg : Type 0 where
    pub entry : BlockId
    pub blocks : Dict BlockId BasicBlock
    pub synthetic_locals : List String
    pub successor_map : Dict BlockId (List BlockId)
    pub predecessor_map : Dict BlockId (List BlockId)

pub data CfgError : Type 0 where
  no_entry : BlockId → CfgError
  stored_under : BlockId → BlockId → CfgError
  unknown_target : BlockId → BlockId → CfgError

pub record Edges : Type 0 where
  pub successor_map : Dict BlockId (List BlockId)
  pub predecessor_map : Dict BlockId (List BlockId)

-- The inner loop over the successors of `id`.
unfoldable pub add_predecessors :
    List BlockId
    → BlockId
    → List BlockId
    → Dict BlockId (List BlockId)
    → Result CfgError (Dict BlockId (List BlockId))
add_predecessors known id [] preds = ok preds
add_predecessors known id (t ∷ more) preds =
    let rest = add_predecessors known id more (put t (get_or t [] preds ++ id ∷ []) preds) in
    if contains known t then rest else err (unknown_target id t)

abbrev pub no_edges : List BlockId → Edges
no_edges known = record { successor_map = []; predecessor_map = map (λ id. (id, [])) known }

-- `found.extend(t for t in more if t not in found)`: the generator reads the list that grows.
unfoldable pub extend_new : List BlockId → List BlockId → List BlockId
extend_new found [] = found
extend_new found (t ∷ more) = extend_new (if contains found t then found else found ++ t ∷ []) more

module _ {syntax : Syntax} where
  unfoldable pub targets : Terminator syntax → List BlockId
  targets (branch _ then_block else_block _) = then_block ∷ else_block ∷ []
  targets (jump target _) = target ∷ []
  targets (return _ _) = []
  targets (raise _ _ _) = []
  targets (for_each _ _ body exit _) = body ∷ exit ∷ []

  -- The successors of a block: its terminator's targets, then its new exception targets.
  unfoldable pub out_edges : BasicBlock syntax → List BlockId
  unfolding targets extend_new
  out_edges b = extend_new (targets b.terminator) b.exception_targets

  -- The loop over the blocks.
  unfoldable pub add_blocks :
      List BlockId → Dict BlockId (BasicBlock syntax) → Edges → Result CfgError Edges
  unfolding add_predecessors out_edges
  add_blocks known [] found = ok found
  add_blocks known ((id, b) ∷ more) found =
      let rest = add_predecessors known id (out_edges b) found.predecessor_map >>= λ preds.
      add_blocks known more (record {
        successor_map = put id (out_edges b) found.successor_map;
        predecessor_map = preds;
      }) in
      if b.id == id then rest else err (stored_under b.id id)

  unfoldable pub make :
      BlockId → Dict BlockId (BasicBlock syntax) → List String → Result CfgError (Cfg syntax)
  unfolding add_blocks
  make entry blocks synthetic_locals =
      let built = add_blocks (keys blocks) blocks (no_edges (keys blocks)) >>= λ found. ok (record {
        entry = entry;
        blocks = blocks;
        synthetic_locals = synthetic_locals;
        successor_map = found.successor_map;
        predecessor_map = found.predecessor_map;
      }) in
      if contains (keys blocks) entry then built else err (no_entry entry)

  -- A missing block is a `KeyError` in the source: `none`.
  unfoldable pub block : Cfg syntax → BlockId → Option (BasicBlock syntax)
  block cfg id = get id cfg.blocks

  unfoldable pub successors : Cfg syntax → BlockId → Option (List BlockId)
  successors cfg id = get id cfg.successor_map

  unfoldable pub predecessors : Cfg syntax → BlockId → Option (List BlockId)
  predecessors cfg id = get id cfg.predecessor_map

  -- The successors, where they are only read at blocks of the graph.
  abbrev pub successor_list : Cfg syntax → BlockId → List BlockId
  successor_list cfg id = get_or id [] cfg.successor_map

  -- `none` would mean that the loop's fuel ran out.
  unfoldable pub reachable : Cfg syntax → Option (List BlockId)
  unfolding closure
  reachable cfg = closure (successor_list cfg) (keys cfg.blocks) (cfg.entry ∷ [])
