-- ===== src/Cfg/Builder/Follows/Tries.antt =====
-- `try_statement` of cfg/builder.py keeps its promises.
use coretrace_python_analyze.Hir.{Statements, Handlers}
use coretrace_python_analyze.Findings.{SourceSpan}
use coretrace_python_analyze.Cfg.{BlockId, jump, targets}
use coretrace_python_analyze.Cfg.Builder.Comprehension.{Making}
use coretrace_python_analyze.Cfg.Builder.Size.{statements_size, handlers_size}
use coretrace_python_analyze.Cfg.Builder.Layout.{
  Open, Builder, Context, Build, Go, finish, ◌>>=◌, ◌>>◌,
}
use coretrace_python_analyze.Cfg.Builder.Statements.{
  try_clauses, try_body, try_end, lay_else, lay_handlers, new_handlers, id_of, after_try, required,
  first_of,
}
use coretrace_python_analyze.Cfg.Builder.Promises.{
  Promise, Or, Known, Promised, Holds, Holds-bind, finish_lem,
}
use coretrace_python_analyze.Cfg.Builder.Follows.{
  IsInside, IsPromised, IsInside-mono, All-exception_targets, Follows, Falls, IsFaithful,
}
use coretrace_python_analyze.Base.{
  Dict, List, Option, String, inl, inr, refl, ◌≡◌, ◌∙◌, ℕ, ◌≤◌, ◌+◌, arith, subst, sym, string_eq,
  list_eq, nat_eq, option_eq, pair_eq,
}
use coretrace_python_analyze.Cfg.Builder.Follows.Branches.{fresh_lem, Lays}
use coretrace_python_analyze.Cfg.Builder.Follows.Plans.{
  IsFor, required_lem, new_handlers_lem, id_of_lem, IsPlan, after_try_lem,
}
use coretrace_python_analyze.Cfg.Builder.Follows.Clauses.{
  Clauses, in_clauses, try_body_lem, lay_else_lem, lay_handlers_lem, try_end_lem,
}

module _ {T : Type 0} (making : Making T) (match_args : Dict String (List String)) where
  module _ (fuel : ℕ) (go : Go T) (faithful : IsFaithful making match_args fuel go) (P : Promise)
      (c : Context) (o : Open T) (k : Option BlockId) (inside : IsInside P c)
      (next : IsPromised P k) where
    -- What is left to do once each id is known.
    module _ (body : Statements T) (hs : Handlers T) (orelse finalbody : Statements T)
        (at : SourceSpan) where
      abbrev from_join :
          BlockId
          → List BlockId
          → Option BlockId
          → Option BlockId
          → Option BlockId
          → BlockId
          → Build T (Option (Open T))
      from_join body_id ids else_id final after join =
          finish c o (jump body_id at)
          >> (try_body making match_args go c o k body ids body_id else_id join at >>= λ end.
              lay_else making match_args go c o k end else_id orelse join at
              >> (lay_handlers making match_args go c o k hs ids join at
                  >> try_end making match_args go c o k final after finalbody at))

      abbrev from_after :
          BlockId
          → List BlockId
          → Option BlockId
          → Option BlockId
          → Option BlockId
          → Build T (Option (Open T))
      from_after body_id ids else_id final after =
          required (first_of making match_args go c o k final after)
          >>= from_join body_id ids else_id final after

      abbrev from_finally :
          BlockId → List BlockId → Option BlockId → Option BlockId → Build T (Option (Open T))
      from_finally body_id ids else_id final =
          after_try making match_args go c o k final >>= from_after body_id ids else_id final

      abbrev from_else : BlockId → List BlockId → Option BlockId → Build T (Option (Open T))
      from_else body_id ids else_id =
          id_of making match_args go c o k "finally" finalbody >>= from_finally body_id ids else_id

      abbrev from_handlers : BlockId → List BlockId → Build T (Option (Open T))
      from_handlers body_id ids =
          id_of making match_args go c o k "else" orelse >>= from_else body_id ids

      abbrev from_body : BlockId → Build T (Option (Open T))
      from_body body_id = new_handlers making match_args go c o k hs >>= from_handlers body_id

    pub try_lem :
        (body : Statements T) (hs : Handlers T) (orelse finalbody : Statements T) (at : SourceSpan)
        (b : Builder T)
        → statements_size body
            + handlers_size hs
            + statements_size orelse
            + statements_size finalbody
          ≤ fuel
        → Promised (Or o.id P) b.blocks
        → Holds
            (Lays making match_args fuel go faithful P c o k inside next ⊥ b)
            (try_clauses making match_args go c o k body hs orelse finalbody at b)
    unfolding try_clauses targets
    try_lem body hs orelse finalbody at b small h =
        let L = Lays making match_args fuel go faithful P c o k inside next ⊥ b in
        fresh_lem making match_args "try" b (from_body body hs orelse finalbody at) L
          (λ body_id b₁ same₁.
            Holds-bind (new_handlers making match_args go c o k hs)
              (from_handlers body hs orelse finalbody at body_id) b₁ _ L
              (new_handlers_lem making match_args go c o k hs b₁)
              (λ ids b₂ (same₂, matched).
                Holds-bind (id_of making match_args go c o k "else" orelse)
                  (from_else body hs orelse finalbody at body_id ids) b₂ _ L
                  (id_of_lem making match_args go c o k "else" orelse b₂)
                  (λ else_id b₃ same₃.
                    Holds-bind (id_of making match_args go c o k "finally" finalbody)
                      (from_finally body hs orelse finalbody at body_id ids else_id) b₃ _ L
                      (id_of_lem making match_args go c o k "finally" finalbody b₃)
                      (λ final b₄ same₄.
                        Holds-bind (after_try making match_args go c o k final)
                          (from_after body hs orelse finalbody at body_id ids else_id final) b₄ _ L
                          (after_try_lem making match_args go c o k final b₄)
                          (λ after b₅ (same₅, (join, found, plan)).
                            required_lem found b₅
                              (from_join body hs orelse finalbody at body_id ids else_id final
                                after)
                              L
                              (laid body_id ids else_id final after join b₅ matched plan
                                (same₅ ∙ same₄ ∙ same₃ ∙ same₂ ∙ same₁)))))))
      where
        laid :
            (body_id : BlockId) (ids : List BlockId) (else_id final after : Option BlockId)
            (join : BlockId) (b₅ : Builder T)
            → IsFor hs ids
            → IsPlan making match_args go c o k final after join
            → b₅.blocks ≡ b.blocks
            → Holds
                (λ end b'. Follows P o b end b' × Falls k ⊥ end)
                ((finish c o (jump body_id at)
                    >> (try_body making match_args go c o k body ids body_id else_id join at
                        >>= λ end.
                            lay_else making match_args go c o k end else_id orelse join at
                            >> (lay_handlers making match_args go c o k hs ids join at
                                >> try_end making match_args go c o k final after finalbody at)))
                  b₅)
        laid body_id ids else_id final after join b₅ matched plan same =
            let L =
              λ (end : Option (Open T)) (b' : Builder T). Follows P o b end b' × Falls k ⊥ end in
            let R = Clauses making match_args fuel go faithful P c o k inside next ids join in
            Holds-bind (finish c o (jump body_id at)) _ b₅ _ L
              (finish_lem c o (jump body_id at) b₅ (Or o.id P) (Or body_id R)
                (subst (λ d. Promised (Or o.id P) d) (sym same) h)
                (λ t p. elim p [ inl e ↦ inl e | inr q ↦ inr (inr (inr (inr q))) ]) (inl refl, tt)
                (All-exception_targets (Or body_id R) c (
                  IsInside-mono R (Or body_id R) c (λ t p. inr p)
                    (in_clauses making match_args fuel go faithful P c o k inside next ids join))))
              (λ _ b₆ (promised₆, grows₆, known).
                Holds-bind (try_body making match_args go c o k body ids body_id else_id join at) _
                  b₆ _ L
                  (try_body_lem making match_args fuel go faithful P c o k inside next body ids
                    body_id else_id join at b₆ (omega (arith, small)) promised₆)
                  (λ end b₇ (promised₇, grows₇).
                    Holds-bind (lay_else making match_args go c o k end else_id orelse join at) _ b₇
                      _ L
                      (lay_else_lem making match_args fuel go faithful P c o k inside next end
                        else_id orelse ids join at b₇ (omega (arith, small)) promised₇)
                      (λ _ b₈ (promised₈, grows₈).
                        Holds-bind (lay_handlers making match_args go c o k hs ids join at) _ b₈ _ L
                          (lay_handlers_lem making match_args fuel go faithful P c o k inside next
                            hs ids join at b₈ matched (omega (arith, small)) promised₈)
                          (λ _ b₉ (promised₉, grows₉).
                            try_end_lem making match_args fuel go faithful P c o k inside next final
                              after join finalbody at b b₉ plan (omega (arith, small)) promised₉
                              (λ t there. grows₉ t (
                                grows₈ t
                                  (grows₇ t (grows₆ t (subst (λ d. Known d t) (sym same) there)))))
                              (grows₉ o.id (grows₈ o.id (grows₇ o.id known)))))))
