-- ===== src/Cfg/BackEdges/Leave.antt =====
-- Entering and leaving a block in the depth-first walk keeps its invariant.
use coretrace_python_analyze.Cfg.{BlockId}
use coretrace_python_analyze.Cfg.BackEdges.{Dfs, enter, leave}
use coretrace_python_analyze.Cfg.BackEdges.Walk.{rank, rank-le, Inv, IsSettled, Grows, Handled}
use coretrace_python_analyze.Base.{
  ==_iff, ==_refl, Bool-cases, List, arith, contains, contains-add, false, inl, inr, length,
  list_eq, nat_eq, option_eq, pair_eq, string_eq, suc, true, ◌==◌, ◌∷◌, ◌≡◌, Memᴰ, add,
  contains-cons_none, contains-cons_of, contains_head, contains_of_cons, remove, remove_head, ◌∙◌,
  ◌⊎◌,
}

module _ (next : BlockId → List BlockId) where
  rank-new :
      (id x : BlockId) (xs : List BlockId)
      → contains xs id ≡ false
      → contains xs x ≡ true
      → rank (id ∷ xs) x ≡ rank xs x
  unfolding rank
  rank-new id x xs h m = elim (Bool-cases (x == id)) [
    | inl same ↦
        let e : x ≡ id = (==_iff x id).0 same in
        absurd (let c : contains xs id ≡ true = rw (← e) m in cc (c, h))
    | inr other ↦ rw other
  ]

  rank_head : (id : BlockId) (xs : List BlockId) → rank (id ∷ xs) id ≡ suc (length xs)
  unfolding rank
  rank_head id xs = rw ==_refl

  pub Inv-enter :
      (id : BlockId) (s : Dfs) → contains s.finished id ≡ false → Inv next s → Inv next (enter id s)
  Inv-enter id s fresh h = record {
    apart = λ x on. elim (Bool-cases (x == id)) [
      | inl same ↦ rw ((==_iff x id).0 same) fresh
      | inr other ↦ h.apart x (rw (contains-add id x s.on_path, other) at on)
    ];
    settled = h.settled;
    backward = λ u v f.
        let (edge, path, where_) = h.backward u v f in
        (edge, path, ground (arith, where_, contains-add id v s.on_path));
  }

  module _ (id : BlockId) (s t : Dfs) (off : contains s.on_path id ≡ false)
      (g : Grows next (enter id s) t) where
    path_inside : t.on_path ≡ id ∷ s.on_path
    unfolding add
    path_inside = g.path ∙ rw off

    -- The state that `leave` makes, with its sets written out.
    abbrev pub left : Dfs
    left = record { found = t.found; on_path = s.on_path; finished = id ∷ t.finished }

    pub leave-eq-left : contains t.finished id ≡ false → leave id t ≡ left
    unfolding add
    leave-eq-left fresh =
        let p : remove id t.on_path ≡ s.on_path = rw path_inside (remove_head id s.on_path off) in
        rw (p, fresh)

    module _ (h : Inv next t)
        (handled : (v : BlockId) → Memᴰ v (next id) → Handled next t id v) where
      pub fresh_inside : contains t.finished id ≡ false
      unfolding contains
      fresh_inside = h.apart id (rw (path_inside, ==_refl id))

      settled_left :
          (u v : BlockId)
          → contains (id ∷ t.finished) u ≡ true
          → Memᴰ v (next u)
          → IsSettled next left u v
      settled_left u v f m = elim (Bool-cases (u == id)) [
        | inl same ↦
            let e : u ≡ id = (==_iff u id).0 same in
            rw e (elim (handled v (rw e at m)) [
              | inl back ↦ inl back
              | inr done ↦ inr (
                contains_tail v done,
                rw (rank_head id t.finished, rank-new id v t.finished fresh_inside done)
                    (omega (arith, rank-le t.finished v)),
              )
            ])
        | inr other ↦
            let f' : contains t.finished u ≡ true = contains_rest u other f in
            elim (h.settled u v f' m) [
              | inl back ↦ inl back
              | inr (done, lower) ↦ inr (
                contains_tail v done,
                rw
                    (
                      rank-new id v t.finished fresh_inside done,
                      rank-new id u t.finished fresh_inside f',
                    )
                    lower,
              )
            ]
      ]
        where
          contains_tail :
              (x : BlockId) → contains t.finished x ≡ true → contains (id ∷ t.finished) x ≡ true
          contains_tail x d = contains-cons_of id x t.finished d

          contains_rest :
              (x : BlockId)
              → (x == id) ≡ false
              → contains (id ∷ t.finished) x ≡ true
              → contains t.finished x ≡ true
          contains_rest x o d = contains_of_cons id x t.finished o d

      pub Inv-left : Inv next left
      Inv-left = record {
        apart = λ x on. apart_left x on;
        settled = settled_left;
        backward =
            λ u v f. let (edge, path, where_) = h.backward u v f in (edge, path, place v where_);
      }
        where
          apart_left :
              (x : BlockId) → contains s.on_path x ≡ true → contains (id ∷ t.finished) x ≡ false
          apart_left x on =
              let d = h.apart x (rw path_inside (contains-cons_of id x s.on_path on)) in
              contains-cons_none id x t.finished d (λ (e : x ≡ id).
                let on' : contains s.on_path id ≡ true = rw e at on in cc (on', off))

          place :
              (v : BlockId)
              → (contains t.on_path v ≡ true) ⊎ (contains t.finished v ≡ true)
              → (contains s.on_path v ≡ true) ⊎ (contains (id ∷ t.finished) v ≡ true)
          place v (inr d) = inr (contains-cons_of id v t.finished d)
          place v (inl on) = elim (Bool-cases (v == id)) [
            | inl same ↦ inr (rw ((==_iff v id).0 same) (contains_head id t.finished))
            | inr other ↦ inl (contains_of_cons id v s.on_path other (rw path_inside at on))
          ]
