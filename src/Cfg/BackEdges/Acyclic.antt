-- ===== src/Cfg/BackEdges/Acyclic.antt =====
-- The walk visits what is reachable, and without the edges that it reports the graph has no cycle.
use coretrace_python_analyze.Cfg.Build.{make_keeps}
use coretrace_python_analyze.Cfg.Reachable.{successor_known, entry_known}
use coretrace_python_analyze.Cfg.{BlockId, Syntax, BasicBlock, Cfg, make, successor_list}
use coretrace_python_analyze.Cfg.BackEdges.{enter, leave, visit, nothing, walk, Dfs, back_edges}
use coretrace_python_analyze.Cfg.BackEdges.Walk.{
  LeadsTo, CanVisit, room, follow_all_lem, Inv, Visited, rank,
}
use coretrace_python_analyze.Cfg.BackEdges.Leave.{Inv-enter, leave-eq-left, Inv-left, fresh_inside}
use coretrace_python_analyze.Base.{
  ==_iff, Bool-cases, List, Memᴰ, [], add, arith, contains-cons_of, contains_head, contains_of_cons,
  inl, inr, list_eq, nat_eq, option_eq, pair_eq, refl, string_eq, suc, unseen_edges-cons, zero, ℕ,
  ◌==◌, ◌∷◌, ◌≡◌, ◌≤◌, here, Dict, IsDict, Memᴰ-cons, Memᴰ-nil, Reaches, String, contains, false,
  keys, length, some, true, unseen_edges, ⊎_elim, ◌<◌, ◌⊎◌, ok, step,
}

module _ (next : BlockId → List BlockId) (nodes : List BlockId)
    (closed : (a b : BlockId) → Memᴰ a nodes → Memᴰ b (next a) → Memᴰ b nodes) where
  -- A fuel of the blocks off the path is enough for a visit.
  visit_lem : (fuel : ℕ) → CanVisit next nodes closed (visit next fuel) fuel
  unfolding visit
  visit_lem zero id s known r off fresh leads h =
      absurd
        (omega (arith, unseen_edges-cons (λ (x : BlockId). x ∷ []) nodes s.on_path id known off))
  visit_lem (suc fuel) id s known r off fresh leads h =
      let inner = Inv-enter next id s fresh h in
      let (t, e, h', g, handled) =
        follow_all_lem next nodes closed (visit next fuel) id known fuel (next id) (enter id s)
          (visit_lem fuel) (λ v m. m) room_inside leads_inside inner in
      let fresh' = fresh_inside next id s t off g h' handled in
      (
        leave id t,
        rw (e, visit),
        rw (leave-eq-left next id s t off g fresh') (record {
          inv = Inv-left next id s t off g h' handled;
          grows = record {
            path = refl;
            found_kept = g.found_kept;
            finished_kept = λ x d. contains-cons_of id x t.finished (g.finished_kept x d);
          };
          done = contains_head id t.finished;
        }),
      )
    where
      path_of : add id s.on_path ≡ id ∷ s.on_path
      path_of = unfold add in rw off

      room_inside : room next nodes closed (add id s.on_path) ≤ fuel
      room_inside =
          rw path_of (
            omega (arith, unseen_edges-cons (λ (x : BlockId). x ∷ []) nodes s.on_path id known off))

      leads_inside : LeadsTo next (enter id s) id
      leads_inside x on = elim (Bool-cases (x == id)) [
        | inl same ↦ rw ((==_iff x id).0 same) (here (Memᴰ.head refl))
        | inr other ↦ leads x (contains_of_cons id x s.on_path other (rw path_of at on))
      ]

room-nil : (nodes : List BlockId) → unseen_edges (λ (x : BlockId). x ∷ []) nodes [] ≡ length nodes
unfolding contains
room-nil [] = refl
room-nil (x ∷ nodes) = omega (arith, room-nil nodes)

Inv-nothing : (next : BlockId → List BlockId) → Inv next nothing
unfolding contains
Inv-nothing next = record {
  apart = λ x h. cc;
  settled = λ u v h m. absurd (cc h);
  backward = λ u v h. absurd (cc h);
}

module _ {syntax : Syntax} (entry : BlockId) (blocks : Dict BlockId (BasicBlock syntax))
    (locals : List String) {cfg : Cfg syntax} (unique : IsDict blocks)
    (made : make entry blocks locals ≡ ok cfg) where
  abbrev next_of : BlockId → List BlockId
  next_of = successor_list cfg

  walk_lem : (t : Dfs) × (walk cfg ≡ some t) × Visited next_of nothing cfg.entry t
  unfolding walk contains
  walk_lem = rw ((make_keeps entry blocks locals made).1) (
      visit_lem next_of (keys blocks)
        (λ a b _ m. successor_known entry blocks locals unique made a b m) (length (keys blocks))
        cfg.entry nothing (entry_known entry blocks locals unique made)
        (omega (arith, room-nil (keys blocks))) refl refl (λ x h. absurd (cc h))
        (Inv-nothing next_of))

  module _ (t : Dfs) (v : Visited next_of nothing cfg.entry t) where
    off_path : (x : BlockId) → contains t.on_path x ≡ false
    unfolding contains
    off_path x = rw v.grows.path

    finished_of_reached :
        {u : BlockId} → Reaches next_of (cfg.entry ∷ []) u → contains t.finished u ≡ true
    finished_of_reached (here m) =
        ⊎_elim (λ e. rw e v.done) (λ n. absurd (Memᴰ-nil n)) ((Memᴰ-cons _ cfg.entry []).0 m)
    finished_of_reached (step {a} {b} r m) = elim (v.inv.settled a b (finished_of_reached r) m) [
      | inr (done, _) ↦ done
      | inl back ↦
          let (_, _, place) = v.inv.backward a b back in
          ⊎_elim (λ on. absurd (cc (on, off_path b))) (λ done. done) place
    ]

  -- In a graph that the constructor returns, the search for back edges ends, each edge that it
  -- reports is an edge of the graph that closes a cycle, and the others that lead from a reached
  -- block go down a rank, so that every cycle of reached blocks has a reported edge.
  pub back_edges_cut :
      (found : List (BlockId × BlockId)) × (back_edges cfg ≡ some found)
      × ((u v : BlockId)
          → contains found (u, v) ≡ true
          → Memᴰ v (successor_list cfg u) × Reaches (successor_list cfg) (v ∷ []) u)
      × (depth : BlockId → ℕ) × ((u v : BlockId)
          → Reaches (successor_list cfg) (cfg.entry ∷ []) u
          → Memᴰ v (successor_list cfg u)
          → (contains found (u, v) ≡ true) ⊎ (depth v < depth u))
  unfolding back_edges
  back_edges_cut =
      let (t, e, v) = walk_lem in
      (
        t.found,
        rw (e, back_edges),
        λ a b m. let (edge, path, _) = v.inv.backward a b m in (edge, path),
        rank t.finished,
        λ a b r m. ⊎_elim inl (λ p. inr p.1) (v.inv.settled a b (finished_of_reached t v r) m),
      )
