-- ===== src/Cfg/Builder/Follows/Bodies.antt =====
-- `with_statement` and `match_statement` of cfg/builder.py keep their promises.
use coretrace_python_analyze.Hir.{Statements, Expression, WithItem, Cases, first, name, assign}
use coretrace_python_analyze.Findings.{SourceSpan}
use coretrace_python_analyze.Cfg.{BlockId}
use coretrace_python_analyze.Cfg.Builder.Comprehension.{Making}
use coretrace_python_analyze.Cfg.Builder.Patterns.{BuildError}
use coretrace_python_analyze.Cfg.Builder.Desugar.{match_chain}
use coretrace_python_analyze.Cfg.Builder.Size.{size, statements_size, cases_size, weight}
use coretrace_python_analyze.Cfg.Builder.Size.Subjects.{ChainWithin, match_chain_within}
use coretrace_python_analyze.Cfg.Builder.Layout.{
  Open, Builder, Context, Build, Go, sequence, give, fail, hide,
}
use coretrace_python_analyze.Cfg.Builder.Statements.{
  with_body, match_cases, enter_items, exit_items,
}
use coretrace_python_analyze.Cfg.Builder.Promises.{
  Promise, Or, Known, Promised, Holds, Holds-bind, Holds-map,
}
use coretrace_python_analyze.Cfg.Builder.Follows.{
  IsInside, IsPromised, Follows, Falls, IsFaithful, sequence_lem, IsLaid,
}
use coretrace_python_analyze.Base.{
  Dict, List, Option, String, [], none, refl, some, ◌∷◌, ◌≡◌, ◌⊎◌, ℕ, ◌≤◌, ◌+◌, arith, Result, ok,
  err, reverse, subst, sym, string_eq, list_eq, nat_eq, option_eq, pair_eq,
}
use coretrace_python_analyze.Cfg.Builder.Follows.Branches.{Lays}

module _ {T : Type 0} where
  id-enter_items :
      (items : List (WithItem T)) (at : SourceSpan) (o : Open T)
      → (enter_items items at o).id ≡ o.id
  unfolding enter_items
  id-enter_items [] at o = refl
  id-enter_items (i ∷ more) at o = id-enter_items more at _

  id-exit_items :
      (items : List (WithItem T)) (at : SourceSpan) (o : Open T) → (exit_items items at o).id ≡ o.id
  unfolding exit_items
  id-exit_items [] at o = refl
  id-exit_items (i ∷ more) at o = id-exit_items more at _

  -- Only the ids of the open blocks matter.
  Follows-start :
      (P : Promise) (o o' : Open T) (b b' : Builder T) (end : Option (Open T))
      → o.id ≡ o'.id
      → Follows P o b end b'
      → Follows P o' b end b'
  Follows-start P o o' b b' end same h = record {
    promised = h.promised;
    grows = h.grows;
    laid = subst (λ id. IsLaid end b' id) same h.laid;
  }

  Follows-end :
      (P : Promise) (o e e' : Open T) (b b' : Builder T)
      → e.id ≡ e'.id
      → Follows P o b (some e) b'
      → Follows P o b (some e') b'
  Follows-end P o e e' b b' same h = record {
    promised = subst (λ id. Promised (Or id P) b'.blocks) same h.promised;
    grows = h.grows;
    laid = subst (λ id. Known b'.blocks o.id ⊎ (o.id ≡ id)) same h.laid;
  }

  pub Follows-from :
      (P : Promise) (o : Open T) (b b₁ b' : Builder T) (end : Option (Open T))
      → b₁.blocks ≡ b.blocks
      → Follows P o b₁ end b'
      → Follows P o b end b'
  Follows-from P o b b₁ b' end same h = record {
    promised = h.promised;
    grows = λ t known. h.grows t (subst (λ d. Known d t) (sym same) known);
    laid = h.laid;
  }

  pub Falls-never : (k : Option BlockId) (end : Option (Open T)) → Falls k ⊥ end
  Falls-never none none = λ n. n
  Falls-never none (some _) = tt
  Falls-never (some _) end = tt

  module _ (making : Making T) (match_args : Dict String (List String)) (fuel : ℕ) (go : Go T)
      (faithful : IsFaithful making match_args fuel go) (P : Promise) (c : Context) (o : Open T)
      (k : Option BlockId) (inside : IsInside P c) (next : IsPromised P k) where
    pub with_lem :
        (items : List (WithItem T)) (body : Statements T) (at : SourceSpan) (b : Builder T)
        → statements_size body ≤ fuel
        → Promised (Or o.id P) b.blocks
        → Holds
            (Lays making match_args fuel go faithful P c o k inside next ⊥ b)
            (with_body making match_args go c o k items body at b)
    unfolding with_body
    with_lem items body at b small h =
        Holds-bind (sequence making match_args go c body (enter_items items at o) none at) _ b _ _
          (sequence_lem making match_args fuel go faithful P c body (enter_items items at o) none at
            b small inside tt
            (subst (λ id. Promised (Or id P) b.blocks) (sym (id-enter_items items at o)) h))
          (λ end b' (follows, _, _). ending end b' (
            Follows-start P (enter_items items at o) o b b' end (id-enter_items items at o)
              follows))
      where
        ending :
            (end : Option (Open T)) (b' : Builder T)
            → Follows P o b end b'
            → Holds
                (λ end' b₂. Follows P o b end' b₂ × Falls k ⊥ end')
                ((elim end as (λ _. Build T (Option (Open T))) [
                  | none ↦ give none
                  | some e ↦ give (some (exit_items (reverse items) at e))
                ])
                  b')
        ending none b' follows = unfold Holds in (follows, Falls-never k none)
        ending (some e) b' follows =
            unfold Holds in
            (
              Follows-end P o e (exit_items (reverse items) at e) b b'
                  (sym (id-exit_items (reverse items) at e)) follows,
              Falls-never k (some (exit_items (reverse items) at e)),
            )

    hide_lem :
        (kind : String) (at : SourceSpan) (b : Builder T)
        → Holds (λ _ b'. b'.blocks ≡ b.blocks) (hide making match_args kind at b)
    unfolding hide Holds
    hide_lem kind at b = refl

    pub match_lem :
        (subject : Expression T) (cases : Cases T) (at : SourceSpan) (b : Builder T)
        → 2 + weight subject + cases_size cases ≤ fuel
        → Promised (Or o.id P) b.blocks
        → Holds
            (Lays making match_args fuel go faithful P c o k inside next ⊥ b)
            (match_cases making match_args go c o k subject cases at b)
    unfolding match_cases size weight
    match_lem subject cases at b small h =
        Holds-bind (hide making match_args "match" at) _ b _ _ (hide_lem "match" at b)
          (λ fresh b₁ same.
            chained fresh b₁ same (match_chain making match_args cases (name fresh at))
              (match_chain_within making match_args cases fresh at)
              (subst (λ d. Promised (Or o.id P) d) (sym same) h))
      where
        chained :
            (fresh : String) (b₁ : Builder T)
            → b₁.blocks ≡ b.blocks
            → (chain : Result BuildError (Statements T))
            → ChainWithin making match_args (cases_size cases) chain
            → Promised (Or o.id P) b₁.blocks
            → Holds
                (λ end b'. Follows P o b end b' × Falls k ⊥ end)
                ((elim chain as (λ _. Build T (Option (Open T))) [
                  | err e ↦ fail e
                  | ok stmts ↦
                      sequence making match_args go c
                        (first (assign (name fresh at) subject at) stmts)
                        o
                        k
                        at
                ])
                  b₁)
        chained fresh b₁ same (err e) within h = unfold Holds in within
        chained fresh b₁ same (ok stmts) within h =
            Holds-map _ _
              (sequence making match_args go c (first (assign (name fresh at) subject at) stmts) o k
                at b₁)
              (sequence_lem making match_args fuel go faithful P c
                (first (assign (name fresh at) subject at) stmts) o k at b₁
                (omega (arith, within, small)) inside next h)
              (λ end b' (follows, _, _).
                (Follows-from P o b b₁ b' end same follows, Falls-never k end))
