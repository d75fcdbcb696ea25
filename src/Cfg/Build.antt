-- ===== src/Cfg/Build.antt =====
-- The checks of `CFG.__post_init__`, and the maps that it builds.
use mathlib.Core.Option
use coretrace_python_analyze.Base.{
  ◌+◌, ◌≡◌, refl, inl, inr, true, List, [], ◌∷◌, ◌++◌, arith, Bool-cases, if◌then◌else◌, All, ◌==◌,
  ==_iff, string_eq, contains, count, count-append, Dict, put, get_or, keys, get-put, ok, ℕ, false,
  get, IsDict, >>=-eq-ok, String, ◌↔◌, none, some, get-none_of_key, Option, ap, list_eq, nat_eq,
  option_eq, pair_eq,
}
use coretrace_python_analyze.Cfg.{
  BlockId, Syntax, BasicBlock, add_predecessors, out_edges, add_blocks, Edges, make, successors,
  Cfg, no_edges,
}

abbrev pub Targets : Type 0
Targets = Dict BlockId (List BlockId)

module _ {syntax : Syntax} where
  -- What the constructor accepts.
  abbrev pub IsBlock : List BlockId → BlockId × BasicBlock syntax → Type 0
  IsBlock known (id, b) = (b.id ≡ id) × All (λ t. contains known t ≡ true) (out_edges b)

  abbrev pub IsWellFormed : BlockId → Dict BlockId (BasicBlock syntax) → Type 0
  IsWellFormed entry blocks =
      (contains (keys blocks) entry ≡ true) × All (IsBlock (keys blocks)) blocks

add_predecessors_known :
    (known : List BlockId) (id : BlockId) (more : List BlockId) (preds : Targets)
    → All (λ t. contains known t ≡ true) more
    → (preds' : Targets) × (add_predecessors known id more preds ≡ ok preds')
unfolding add_predecessors
add_predecessors_known known id [] preds h = (preds, refl)
add_predecessors_known known id (t ∷ more) preds h =
    rw h.0 (add_predecessors_known known id more _ h.1)

add_predecessors-eq-ok :
    (known : List BlockId) (id : BlockId) (more : List BlockId) (preds : Targets) {preds' : Targets}
    → add_predecessors known id more preds ≡ ok preds'
    → All (λ t. contains known t ≡ true) more
unfolding add_predecessors
add_predecessors-eq-ok known id [] preds h = tt
add_predecessors-eq-ok known id (t ∷ more) preds h = elim (Bool-cases (contains known t)) [
  | inl there ↦ (there, add_predecessors-eq-ok known id more _ (rw there at h))
  | inr missing ↦ absurd (let e = rw missing at h in cc e)
]

-- One pass over the successors of `id` adds it to each target, as often as it is listed.
add_predecessors-count :
    (known : List BlockId) (id : BlockId) (more : List BlockId) (preds : Targets) {preds' : Targets}
    (p t : BlockId)
    → add_predecessors known id more preds ≡ ok preds'
    → count p (get_or t [] preds')
      ≡ count p (get_or t [] preds) + (if p == id then count t more else 0)
unfolding add_predecessors count get_or
add_predecessors-count known id [] preds p t h = ground arith
add_predecessors-count known id (x ∷ more) preds p t h = elim (Bool-cases (contains known x)) [
  | inl there ↦
      let preds₁ = put x (get_or x [] preds ++ id ∷ []) preds in
      let later = add_predecessors-count known id more preds₁ p t (rw there at h) in
      ground (
        arith,
        later,
        get-put x t (get_or x [] preds ++ id ∷ []) preds,
        count-append p (get_or x [] preds) (id ∷ []),
        ==_iff t x,
      )
  | inr missing ↦ absurd (let e = rw missing at h in cc e)
]

-- The edges from `p` to `t` among the blocks of a list.
edge_count : {syntax : Syntax} → BlockId → BlockId → Dict BlockId (BasicBlock syntax) → ℕ
edge_count p t [] = 0
edge_count p t ((id, b) ∷ more) =
    (if p == id then count t (out_edges b) else 0) + edge_count p t more

module _ {syntax : Syntax} where
  edge_count-none :
      (p t : BlockId) (more : Dict BlockId (BasicBlock syntax))
      → contains (keys more) p ≡ false
      → edge_count p t more ≡ 0
  unfolding edge_count contains
  edge_count-none p t [] h = refl
  edge_count-none p t ((id, b) ∷ more) h = ground (arith, edge_count-none p t more)

  edge_count-IsDict :
      (p t : BlockId) (more : Dict BlockId (BasicBlock syntax))
      → IsDict more
      → edge_count p t more ≡ elim (get p more) [ none ↦ 0 | some b ↦ count t (out_edges b) ]
  unfolding edge_count get
  edge_count-IsDict p t [] h = refl
  edge_count-IsDict p t ((id, b) ∷ more) h =
      ground (arith, ==_iff p id, edge_count-none p t more, edge_count-IsDict p t more h.1)

  module _ (known : List BlockId) where
    add_blocks_total :
        (more : Dict BlockId (BasicBlock syntax)) (found : Edges)
        → All (IsBlock known) more
        → (found' : Edges) × (add_blocks known more found ≡ ok found')
    unfolding add_blocks
    add_blocks_total [] found h = (found, refl)
    add_blocks_total ((id, b) ∷ more) found h =
        let (preds, done) =
          add_predecessors_known known id (out_edges b) found.predecessor_map h.0.1 in
        rw ((==_iff b.id id).1 h.0.0, done) (add_blocks_total more _ h.1)

    -- A pass over one block that succeeds, taken apart.
    add_blocks-cons :
        (id : BlockId) (b : BasicBlock syntax) (more : Dict BlockId (BasicBlock syntax))
        (found : Edges) {found' : Edges}
        → add_blocks known ((id, b) ∷ more) found ≡ ok found'
        → (b.id ≡ id)
          × (preds : Targets) × (add_predecessors known id (out_edges b) found.predecessor_map
              ≡ ok preds)
          × (add_blocks known more (record {
            successor_map = put id (out_edges b) found.successor_map;
            predecessor_map = preds;
          })
              ≡ ok found')
    unfolding add_blocks
    add_blocks-cons id b more found h = elim (Bool-cases (b.id == id)) [
      | inl same ↦
          let (preds, first, rest) = >>=-eq-ok _ _ (rw same at h) in
          ((==_iff b.id id).0 same, preds, first, rest)
      | inr other ↦ absurd (let e = rw other at h in cc e)
    ]

    add_blocks-eq-ok :
        (more : Dict BlockId (BasicBlock syntax)) (found : Edges) {found' : Edges}
        → add_blocks known more found ≡ ok found'
        → All (IsBlock known) more
    add_blocks-eq-ok [] found h = tt
    add_blocks-eq-ok ((id, b) ∷ more) found h =
        let (same, preds, first, rest) = add_blocks-cons id b more found h in
        (
          (same, add_predecessors-eq-ok known id (out_edges b) _ first),
          add_blocks-eq-ok more _ rest,
        )

    add_blocks-count :
        (more : Dict BlockId (BasicBlock syntax)) (found : Edges) {found' : Edges} (p t : BlockId)
        → add_blocks known more found ≡ ok found'
        → count p (get_or t [] found'.predecessor_map)
          ≡ count p (get_or t [] found.predecessor_map) + edge_count p t more
    unfolding edge_count
    add_blocks-count [] found p t h = unfold add_blocks in ground arith
    add_blocks-count ((id, b) ∷ more) found p t h =
        let (same, preds, first, rest) = add_blocks-cons id b more found h in
        omega (
          arith,
          add_predecessors-count known id (out_edges b) found.predecessor_map p t first,
          add_blocks-count more _ p t rest,
        )

    add_blocks-get :
        (more : Dict BlockId (BasicBlock syntax)) (found : Edges) {found' : Edges} (p : BlockId)
        → IsDict more
        → add_blocks known more found ≡ ok found'
        → get p found'.successor_map
          ≡ elim (get p more) [ none ↦ get p found.successor_map | some b ↦ some (out_edges b) ]
    unfolding get
    add_blocks-get [] found p d h = unfold add_blocks in ground arith
    add_blocks-get ((id, b) ∷ more) found p d h =
        let (same, preds, first, rest) = add_blocks-cons id b more found h in
        ground (
          arith,
          add_blocks-get more _ p d.1 rest,
          get-put id p (out_edges b) found.successor_map,
          get-none_of_key id more d.0,
          ==_iff p id,
        )

module _ {syntax : Syntax} (entry : BlockId) (blocks : Dict BlockId (BasicBlock syntax))
    (locals : List String) where
  -- A graph that the constructor returns, taken apart.
  make-eq-ok :
      {cfg : Cfg syntax}
      → make entry blocks locals ≡ ok cfg
      → (contains (keys blocks) entry ≡ true)
        × (found : Edges) × (add_blocks (keys blocks) blocks (no_edges (keys blocks)) ≡ ok found)
        × (cfg.successor_map ≡ found.successor_map)
        × (cfg.predecessor_map ≡ found.predecessor_map)
        × (cfg.entry ≡ entry)
        × (cfg.blocks ≡ blocks)
  unfolding make
  make-eq-ok {cfg} h = elim (Bool-cases (contains (keys blocks) entry)) [
    | inl there ↦
        let (found, first, rest) = >>=-eq-ok _ _ (rw there at h) in
        (there, found, first, ground arith, ground arith, ground arith, ground arith)
    | inr missing ↦ absurd (let e = rw missing at h in cc e)
  ]

  pub make_keeps :
      {cfg : Cfg syntax}
      → make entry blocks locals ≡ ok cfg
      → (cfg.entry ≡ entry) × (cfg.blocks ≡ blocks)
  make_keeps h =
      let (_, _, _, _, _, same_entry, same_blocks) = make-eq-ok h in (same_entry, same_blocks)

  -- The constructor returns a graph exactly where the entry is a block, each block is stored under
  -- its own id, and each successor is a block.
  pub make_iff :
      ((cfg : Cfg syntax) × (make entry blocks locals ≡ ok cfg)) ↔ IsWellFormed entry blocks
  unfolding make
  make_iff = (
    λ (cfg, h).
        let (there, found, built, _, _, _, _) = make-eq-ok h in
        (there, add_blocks-eq-ok (keys blocks) blocks _ built),
    λ (there, known).
        let (found, built) = add_blocks_total (keys blocks) blocks (no_edges (keys blocks)) known in
        rw (there, built) (_, refl),
  )

  -- In a graph that the constructor returns, the successors of a block are its out-edges, and what
  -- is no block has none.
  pub successors-make :
      {cfg : Cfg syntax} (id : BlockId)
      → IsDict blocks
      → make entry blocks locals ≡ ok cfg
      → successors cfg id ≡ Option.map out_edges (get id blocks)
  unfolding successors get
  successors-make {cfg} id d h =
      let (there, found, built, succ, pred, _, _) = make-eq-ok h in
      let e = add_blocks-get (keys blocks) blocks (no_edges (keys blocks)) id d built in
      ground (arith, e)

get_or-no_edges :
    (known : List BlockId) (t : BlockId) → get_or t [] (no_edges known).predecessor_map ≡ []
unfolding get_or get
get_or-no_edges [] t = refl
get_or-no_edges (x ∷ known) t = ground (arith, get_or-no_edges known t)

module _ {syntax : Syntax} (entry : BlockId) (blocks : Dict BlockId (BasicBlock syntax))
    (locals : List String) where
  count-successors :
      {cfg : Cfg syntax} (p t : BlockId)
      → IsDict blocks
      → make entry blocks locals ≡ ok cfg
      → edge_count p t blocks ≡ count t (get_or p [] cfg.successor_map)
  unfolding get_or successors count
  count-successors {cfg} p t d h =
      let found : get p cfg.successor_map ≡ _ = successors-make entry blocks locals p d h in
      rw (edge_count-IsDict p t blocks d) (at (get p blocks) (get p cfg.successor_map) found)
    where
      at :
          (o : Option (BasicBlock syntax)) (s : Option (List BlockId))
          → s ≡ Option.map out_edges o
          → elim o [ none ↦ 0 | some b ↦ count t (out_edges b) ]
            ≡ count t (elim s [ none ↦ [] | some w ↦ w ])
      at none s e = rw e
      at (some b) s e = rw e

  -- In a graph that the constructor returns, the two maps are each other's transpose: a block is
  -- listed among the predecessors of another as often as that one is among its successors.
  pub predecessors-transpose :
      {cfg : Cfg syntax} (p t : BlockId)
      → IsDict blocks
      → make entry blocks locals ≡ ok cfg
      → count p (get_or t [] cfg.predecessor_map) ≡ count t (get_or p [] cfg.successor_map)
  unfolding count
  predecessors-transpose {cfg} p t d h =
      let (there, found, built, succ, pred, _, _) = make-eq-ok entry blocks locals h in
      let known = keys blocks in
      omega (
        arith,
        ap (λ m. count p (get_or t [] m)) pred,
        add_blocks-count known blocks (no_edges known) p t built,
        count-successors p t d h,
        ap (count p) (get_or-no_edges known t),
      )
