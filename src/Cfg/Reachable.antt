-- ===== src/Cfg/Reachable.antt =====
-- `CFG.reachable` of cfg/model.py.
use mathlib.Core.Option
use coretrace_python_analyze.Cfg.{
  BlockId, Syntax, BasicBlock, Cfg, make, successor_list, successors, out_edges, reachable,
}
use coretrace_python_analyze.Cfg.Build.{make_iff, make_keeps, successors-make, IsBlock}
use coretrace_python_analyze.Base.{
  All, All-at, Dict, IsDict, List, Memᴰ, Memᴰ-nil, Memᴰ-of_get, Option, Option-cases, String, [],
  ap, contains, contains_iff, get, get_or, inl, inr, keys, list_eq, nat_eq, none, option_eq,
  pair_eq, some, string_eq, subst, true, ◌∙◌, ◌≡◌, ok, Memᴰ-cons, Reaches, closure_decides, ⊎_elim,
  ◌↔◌, ◌∷◌,
}

module _ {syntax : Syntax} (entry : BlockId) (blocks : Dict BlockId (BasicBlock syntax))
    (locals : List String) {cfg : Cfg syntax} (unique : IsDict blocks)
    (made : make entry blocks locals ≡ ok cfg) where
  block_edges :
      (known : List BlockId) (id : BlockId) (more : Dict BlockId (BasicBlock syntax))
      {b : BasicBlock syntax}
      → All (IsBlock known) more
      → get id more ≡ some b
      → All (λ t. contains known t ≡ true) (out_edges b)
  block_edges known id more h e = (All-at (IsBlock known) more h (Memᴰ-of_get id _ more e)).1

  -- An edge of the graph leads to a block of the graph.
  pub successor_known : (a b : BlockId) → Memᴰ b (successor_list cfg a) → Memᴰ b (keys blocks)
  unfolding get_or
  successor_known a b m = elim (Option-cases (get a blocks)) [
    | inl missing ↦
        let e : get a cfg.successor_map ≡ none = out_of missing in
        absurd (Memᴰ-nil (subst (λ o. Memᴰ b (elim o [ none ↦ [] | some w ↦ w ])) e m))
    | inr (found, there) ↦
        let e : get a cfg.successor_map ≡ some (out_edges found) = out_of there in
        let m' : Memᴰ b (out_edges found) =
          subst (λ o. Memᴰ b (elim o [ none ↦ [] | some w ↦ w ])) e m in
        let (_, edges) = (make_iff entry blocks locals).0 (cfg, made) in
        (contains_iff (keys blocks) b).0 (
          All-at (λ t. contains (keys blocks) t ≡ true) (out_edges found)
            (block_edges (keys blocks) a blocks edges there) m')
  ]
    where
      out_of :
          {o : Option (BasicBlock syntax)}
          → get a blocks ≡ o
          → get a cfg.successor_map ≡ Option.map out_edges o
      out_of there =
          unfold successors in
          (successors-make entry blocks locals a unique made ∙ ap (Option.map out_edges) there)

  pub entry_known : Memᴰ cfg.entry (keys blocks)
  entry_known =
      let (there, _) = (make_iff entry blocks locals).0 (cfg, made) in
      rw ((make_keeps entry blocks locals made).0) ((contains_iff (keys blocks) entry).0 there)

  -- From a graph that the constructor returns, the loop of `reachable` ends, and a block is in its
  -- result exactly where a chain of successors leads to it from the entry.
  pub reachable_decides :
      (found : List BlockId) × (reachable cfg ≡ some found)
      × ((id : BlockId)
          → (contains found id ≡ true) ↔ Reaches (successor_list cfg) (cfg.entry ∷ []) id)
  unfolding reachable
  reachable_decides = rw ((make_keeps entry blocks locals made).1) (
      closure_decides (successor_list cfg) (keys blocks) (cfg.entry ∷ [])
        (λ a b _ m. successor_known a b m)
        (λ a m.
          ⊎_elim (λ e. rw e entry_known) (λ n. absurd (Memᴰ-nil n))
            ((Memᴰ-cons a cfg.entry []).0 m)))
