-- ===== src/Cfg/Builder/Returns.antt =====
-- `build_cfg` of cfg/builder.py gives a graph, or an error that the function's own code causes.
use coretrace_python_analyze.Hir.{
  return, raise, break, continue, if_statement, while_statement, for_statement, match,
  with_statement, try_statement, Statement, Statements, empty, first,
}
use coretrace_python_analyze.Findings.{SourceSpan}
use coretrace_python_analyze.Cfg
use coretrace_python_analyze.Cfg.{BlockId, Cfg, Terminator, jump, branch, for_each, targets, make}
use coretrace_python_analyze.Cfg.Build.{make_iff, make_keeps, IsWellFormed}
use coretrace_python_analyze.Cfg.Builder.Comprehension.{Making}
use coretrace_python_analyze.Cfg.Builder.Patterns.{BuildError, bad_graph, outside_loop, assertion}
use coretrace_python_analyze.Cfg.Builder.Desugar.{desugar}
use coretrace_python_analyze.Cfg.Builder.Size.{size, statements_size, parts}
use coretrace_python_analyze.Cfg.Builder.Size.Desugar.{desugar-IsSmaller, begun}
use coretrace_python_analyze.Cfg.Builder.Size.Straight.{IsStraight, AllStraight, desugar-IsStraight}
use coretrace_python_analyze.Cfg.Builder.Size.Subjects.{Reported}
use coretrace_python_analyze.Cfg.Builder.Layout.{
  hir, fail, Open, Builder, Context, Build, Go, opened, also, sequence, finish, give, loop, hoisted,
  lay_pending, to_option, ◌>>=◌, ◌>>◌,
}
use coretrace_python_analyze.Cfg.Builder.Statements.{
  lay_out, statement, statement_span, start, outside, lay_body, build,
}
use coretrace_python_analyze.Cfg.Builder.Promises.{
  Promise, Or, Known, Promised, Holds, Holds-bind, Holds-map, finish_lem, IsBlock-Promised,
}
use coretrace_python_analyze.Cfg.Builder.Follows.{
  IsInside, IsPromised, All-exception_targets, Follows, Falls, IsFaithful, sequence_lem,
  Follows-then, Follows-refl, Falls-map, Falls-open,
}
use coretrace_python_analyze.Cfg.Builder.Follows.Branches.{Lays, conditional_lem, loop_lem}
use coretrace_python_analyze.Cfg.Builder.Follows.Bodies.{
  Follows-from, Falls-never, with_lem, match_lem,
}
use coretrace_python_analyze.Cfg.Builder.Follows.Tries.{try_lem}
use coretrace_python_analyze.Base.{
  All, Dict, List, Option, String, [], inl, inr, none, refl, some, ◌∷◌, ◌≡◌, ℕ, ◌≤◌, arith, Result,
  ok, err, subst, sym, suc, zero, Bool-cases, list_eq, nat_eq, option_eq, pair_eq, string_eq,
}

module _ {T : Type 0} where
  -- A graph whose edges lead to its blocks, or an error of the function's own code.
  abbrev pub Returns : Result BuildError (Cfg (hir T)) → Type 0
  Returns (err e) = Reported e
  Returns (ok cfg) = (cfg.entry ≡ "entry") × IsWellFormed "entry" cfg.blocks

module _ {T : Type 0} (making : Making T) (match_args : Dict String (List String)) where
  module _ (fuel : ℕ) (go : Go T) (faithful : IsFaithful making match_args fuel go) (P : Promise)
      (c : Context) (o : Open T) (k : Option BlockId) (inside : IsInside P c)
      (next : IsPromised P k) where
    -- A block that ends where it stands.
    end_lem :
        (end : Terminator (hir T)) (b b₀ : Builder T)
        → All P (targets end)
        → b.blocks ≡ b₀.blocks
        → Promised (Or o.id P) b₀.blocks
        → Holds
            (Lays making match_args fuel go faithful P c o k inside next ⊥ b₀)
            ((finish c o end >> give none) b)
    end_lem end b b₀ to same h =
        Holds-bind (finish c o end) (λ _. give none) b _
          (Lays making match_args fuel go faithful P c o k inside next ⊥ b₀)
          (finish_lem c o end b (Or o.id P) P (subst (λ d. Promised (Or o.id P) d) (sym same) h)
            (λ t p. p) to (All-exception_targets P c inside))
          (λ _ b' (promised, grows, known).
            unfold Holds in
            (
              record {
                promised = promised;
                grows = λ t there. grows t (subst (λ d. Known d t) (sym same) there);
                laid = known;
              },
              Falls-never k none,
            ))

    -- A statement that falls through.
    also_lem :
        (A : Type 0) (s : Statement T) (b : Builder T)
        → Promised (Or o.id P) b.blocks
        → Holds
            (Lays making match_args fuel go faithful P c o k inside next A b)
            (give {A = Option (Open T)} (some (also o s)) b)
    unfolding Holds
    also_lem A s b h = (
      record { promised = h; grows = λ t known. known; laid = inr refl },
      Falls-open k A (also o s),
    )

    -- The loop that a `break` or a `continue` is in.
    abbrev IsLoop : Builder T → BlockId × BlockId → Builder T → Type 0
    IsLoop b l b' = (P l.0 × P l.1) × (b'.blocks ≡ b.blocks)

    in_loop_lem :
        (word : String) (at : SourceSpan) (b : Builder T) → Holds (IsLoop b) (loop c word at b)
    unfolding loop Holds
    in_loop_lem word at b = found c.loops inside.loops
      where
        found :
            (ls : List (BlockId × BlockId))
            → All (λ (l : BlockId × BlockId). P l.0 × P l.1) ls
            → Holds (IsLoop b) (
                (elim ls as (λ _. Build T (BlockId × BlockId)) [
                  | [] ↦ fail (outside_loop word at)
                  | l ∷ _ ↦ give l
                ])
                  b)
        found [] p = tt
        found (l ∷ _) p = (p.0, refl)

    lay_out_lem :
        (s : Statement T) (b : Builder T)
        → parts s ≤ fuel
        → Promised (Or o.id P) b.blocks
        → Holds
            (Lays making match_args fuel go faithful P c o k inside next (IsStraight s) b)
            (lay_out making match_args go c o k s b)
    unfolding lay_out targets parts
    lay_out_lem (return value at) b small h =
        end_lem (Cfg.return (to_option value) at) b b tt refl h
    lay_out_lem (raise exception at cause) b small h =
        end_lem (Cfg.raise (to_option exception) at (to_option cause)) b b tt refl h
    lay_out_lem (break at) b small h =
        Holds-bind (loop c "break" at) (λ target. finish c o (jump target.1 at) >> give none) b _ _
          (in_loop_lem "break" at b) (λ l b' (p, same). end_lem (jump l.1 at) b' b (p.1, tt) same h)
    lay_out_lem (continue at) b small h =
        Holds-bind (loop c "continue" at) (λ target. finish c o (jump target.0 at) >> give none) b _
          _ (in_loop_lem "continue" at b)
          (λ l b' (p, same). end_lem (jump l.0 at) b' b (p.0, tt) same h)
    lay_out_lem (if_statement condition body orelse at) b small h =
        conditional_lem making match_args fuel go faithful P c o k inside next condition body orelse
          at b small h
    lay_out_lem (while_statement condition body at orelse) b small h =
        Holds-map _ _
          (lay_out making match_args go c o k (while_statement condition body at orelse) b)
          (loop_lem making match_args fuel go faithful P c o k inside next
            (λ x y. branch condition x y at) (λ x y. refl) body orelse at b small h)
          (λ end b' (follows, falls). (follows, Falls-never k end))
    lay_out_lem (for_statement target target_at iterable body is_async at orelse) b small h =
        loop_lem making match_args fuel go faithful P c o k inside next
          (λ x y. for_each (target, target_at) iterable x y at) (λ x y. refl) body orelse at b small
          h
    lay_out_lem (match subject cases at) b small h =
        match_lem making match_args fuel go faithful P c o k inside next subject cases at b small h
    lay_out_lem (with_statement items body is_async at) b small h =
        with_lem making match_args fuel go faithful P c o k inside next items body at b small h
    lay_out_lem (try_statement body handlers orelse finalbody at) b small h =
        try_lem making match_args fuel go faithful P c o k inside next body handlers orelse
          finalbody at b small h
    lay_out_lem s b small h = also_lem (IsStraight s) s b h

    lay_pending_lem :
        (pending : Statements T) (at : SourceSpan) (b : Builder T)
        → statements_size pending ≤ fuel
        → AllStraight pending
        → Promised (Or o.id P) b.blocks
        → Holds
            (λ o' b'. Follows P o b (some o') b')
            (lay_pending making match_args go c pending o at b)
    unfolding lay_pending
    lay_pending_lem empty at b small straight h = unfold Holds in Follows-refl P o b h
    lay_pending_lem (first s more) at b small straight h =
        Holds-bind (sequence making match_args go c (first s more) o none at) _ b _
          (λ o' b'. Follows P o b (some o') b')
          (sequence_lem making match_args fuel go faithful P c (first s more) o none at b small
            inside tt h)
          (λ end b' (follows, _, falls). still_open end b' follows falls)
      where
        still_open :
            (end : Option (Open T)) (b' : Builder T)
            → Follows P o b end b'
            → Falls none (AllStraight (first s more)) end
            → Holds
                (λ o' b₂. Follows P o b (some o') b₂)
                ((elim end as (λ _. Build T (Open T)) [ none ↦ fail assertion | some o' ↦ give o' ])
                  b')
        still_open none b' follows falls = absurd (falls straight)
        still_open (some o') b' follows falls = unfold Holds in follows

  -- What the statement becomes, and what comes first: smaller, and where it falls through, so do they.
  abbrev Hoists : Statement T → Builder T → Statement T × Statements T → Builder T → Type 0
  Hoists s b r b' =
      (b'.blocks ≡ b.blocks)
      × (suc (statements_size r.1) ≤ size s)
      × (suc (parts r.0) ≤ size s)
      × AllStraight r.1
      × (IsStraight s → IsStraight r.0)

  hoisted_lem :
      (s : Statement T) (b : Builder T) → Holds (Hoists s b) (hoisted making match_args s b)
  unfolding hoisted Holds
  hoisted_lem s b =
      let r = desugar making s (begun making b.synthetic) in
      let (first_smaller, rest_smaller) = desugar-IsSmaller making s b.synthetic in
      let (straight, still) = desugar-IsStraight making s b.synthetic in
      elim (Bool-cases r.1.failed) [
        | inl failed ↦ rw failed tt
        | inr fine ↦ rw fine (refl, first_smaller, rest_smaller, straight, still)
      ]

  statement_lem : (fuel : ℕ) → IsFaithful making match_args fuel (statement making match_args fuel)
  unfolding statement
  statement_lem zero P c s o k b small inside next h =
      absurd (let (_, smaller) = desugar-IsSmaller making s [] in omega (arith, smaller, small))
  statement_lem (suc fuel) P c s o k b small inside next h =
      let go = statement making match_args fuel in
      let faithful = statement_lem fuel in
      Holds-bind (hoisted making match_args s)
        (λ r. lay_pending making match_args go c r.1 o (statement_span r.0) >>= λ o'.
          lay_out making match_args go c o' k r.0)
        b _ (λ end b'. Follows P o b end b' × Falls k (IsStraight s) end) (hoisted_lem s b)
        (λ r b₁ (same, pending_small, small', straight, still).
          Holds-bind (lay_pending making match_args go c r.1 o (statement_span r.0))
            (λ o'. lay_out making match_args go c o' k r.0) b₁ _
            (λ end b'. Follows P o b end b' × Falls k (IsStraight s) end)
            (lay_pending_lem fuel go faithful P c o k inside next r.1 (statement_span r.0) b₁
              (omega (arith, small, pending_small)) straight
              (subst (λ d. Promised (Or o.id P) d) (sym same) h))
            (λ o' b₂ follows.
              Holds-map _ _ (lay_out making match_args go c o' k r.0 b₂)
                (lay_out_lem fuel go faithful P c o' k inside next r.0 b₂
                  (omega (arith, small, small')) follows.promised)
                (λ end b₃ (follows', falls). (
                  Follows-from P o b b₁ b₃ end same
                      (Follows-then P o o' b₁ b₂ b₃ end follows follows'),
                  Falls-map k (IsStraight r.0) (IsStraight s) end still falls,
                ))))

  abbrev Closed : Builder T → Type 0
  Closed b = IsWellFormed "entry" b.blocks

  lay_body_lem :
      (fuel : ℕ) (body : Statements T) (at : SourceSpan)
      → statements_size body ≤ fuel
      → Holds (λ _ b. Closed b) (lay_body making match_args fuel body at start)
  unfolding lay_body targets
  lay_body_lem fuel body at small =
      Holds-bind
        (sequence making match_args (statement making match_args fuel) outside body (opened "entry")
          none at)
        _ start _ (λ _ b. Closed b)
        (sequence_lem making match_args fuel (statement making match_args fuel) (statement_lem fuel)
          (λ _. ⊥) outside body (opened "entry") none at start small
          (record { loops = tt; handlers = tt }) tt tt)
        (λ end b (follows, _, _). ending end b follows)
    where
      ending :
          (end : Option (Open T)) (b : Builder T)
          → Follows (λ _. ⊥) (opened "entry") start end b
          → Holds
              (λ _ b. Closed b)
              ((elim end as (λ _. Build T (Unit {0})) [
                | none ↦ give tt
                | some o ↦ finish outside o (Cfg.return none at)
              ])
                b)
      ending none b follows =
          unfold Holds in (follows.laid, IsBlock-Promised b.blocks follows.promised)
      ending (some o) b follows =
          Holds-map _ _ (finish outside o (Cfg.return none at) b)
            (finish_lem outside o (Cfg.return none at) b (Or o.id (λ _. ⊥)) (λ _. ⊥)
              follows.promised (λ t p. p) tt
              (All-exception_targets (λ _. ⊥) outside (record { loops = tt; handlers = tt })))
            (λ _ b' (promised, grows, known). (
              elim follows.laid [ inl there ↦ grows "entry" there | inr same ↦ rw same known ],
              IsBlock-Promised b'.blocks promised,
            ))

  -- With as much fuel as the body of a function is large, the builder ends, and gives either a
  -- graph whose entry is a block and whose edges all lead to blocks, or an error of the function's
  -- own code: a break or continue outside a loop, a pattern that is not supported, or a dict
  -- comprehension without a key. It never fails an assertion of its own, and the constructor of the
  -- graph never refuses its blocks.
  pub build-Returns :
      (fuel : ℕ) (body : Statements T) (at : SourceSpan)
      → statements_size body ≤ fuel
      → Returns (build making match_args fuel body at)
  unfolding build Holds
  build-Returns fuel body at small =
      made (lay_body making match_args fuel body at start) (lay_body_lem fuel body at small)
    where
      made :
          (r : Result BuildError (Unit {0} × Builder T))
          → Holds (λ _ b. Closed b) r
          → Returns (elim r [
            | err e ↦ err e
            | ok (_, b) ↦ elim (make "entry" b.blocks b.synthetic) [
              | err e ↦ err (bad_graph e)
              | ok cfg ↦ ok cfg
            ]
          ])
      made (err e) h = h
      made (ok (_, b)) h =
          let (cfg, built) = (make_iff "entry" b.blocks b.synthetic).1 h in
          let (same_entry, same_blocks) = make_keeps "entry" b.blocks b.synthetic built in
          rw built (same_entry, subst (λ d. IsWellFormed "entry" d) (sym same_blocks) h)
