-- ===== src/Cfg/Builder/Follows/Clauses.antt =====
-- The clauses of `try_statement` of cfg/builder.py.
use coretrace_python_analyze.Hir.{Statements, Handlers, no_handlers, handler, enter_handler}
use coretrace_python_analyze.Findings.{SourceSpan}
use coretrace_python_analyze.Cfg.{BlockId, jump, targets}
use coretrace_python_analyze.Cfg.Builder.Comprehension.{Making}
use coretrace_python_analyze.Cfg.Builder.Size.{size, statements_size, handlers_size}
use coretrace_python_analyze.Cfg.Builder.Layout.{
  Open, Builder, Context, Build, Go, opened, also, sequence, finish, give, ◌>>◌,
}
use coretrace_python_analyze.Cfg.Builder.Statements.{try_body, try_end, lay_else, lay_handlers}
use coretrace_python_analyze.Cfg.Builder.Promises.{
  Promise, Or, Known, Promised, Promised-weaken, Grows, Holds, Holds-bind, Holds-map, finish_lem,
}
use coretrace_python_analyze.Cfg.Builder.Follows.{
  IsInside, IsPromised, IsInside-mono, All-exception_targets, Follows, Falls, IsFaithful,
  sequence_lem,
}
use coretrace_python_analyze.Base.{
  Dict, List, Option, String, [], inl, inr, none, refl, some, ◌∷◌, ◌∙◌, ◌⊎◌, ℕ, ◌≤◌, arith, Memᴰ,
  Memᴰ-cons, Memᴰ-nil, All-of, sym, string_eq, list_eq, nat_eq, option_eq, pair_eq,
}
use coretrace_python_analyze.Cfg.Builder.Follows.Branches.{unless_lem, branch_lem, branch_open_lem}
use coretrace_python_analyze.Cfg.Builder.Follows.Plans.{IsFor, give_lem, IsPlan}

module _ {T : Type 0} (making : Making T) (match_args : Dict String (List String)) where
  module _ (fuel : ℕ) (go : Go T) (faithful : IsFaithful making match_args fuel go) (P : Promise)
      (c : Context) (o : Open T) (k : Option BlockId) (inside : IsInside P c)
      (next : IsPromised P k) where
    -- The handlers' ids, and the join.
    abbrev pub Clauses : List BlockId → BlockId → Promise
    Clauses ids join t = Memᴰ t ids ⊎ Or join P t

    -- The `else` clause is to be laid out where the body falls through.
    abbrev pub WithElse : Option (Open T) → Option BlockId → Promise → Promise
    WithElse none else_id R = R
    WithElse (some _) none R = R
    WithElse (some _) (some id) R = Or id R

    abbrev pub Kept : Promise → Builder T → Builder T → Type 0
    Kept R b b' = Promised R b'.blocks × Grows b.blocks b'.blocks

    pub in_clauses : (ids : List BlockId) (join : BlockId) → IsInside (Clauses ids join) c
    in_clauses ids join = IsInside-mono P (Clauses ids join) c (λ t p. inr (inr p)) inside

    pub try_body_lem :
        (body : Statements T) (ids : List BlockId) (body_id : BlockId) (else_id : Option BlockId)
        (join : BlockId) (at : SourceSpan) (b : Builder T)
        → statements_size body ≤ fuel
        → Promised (Or body_id (Clauses ids join)) b.blocks
        → Holds
            (λ end b'. Kept (WithElse end else_id (Clauses ids join)) b b')
            (try_body making match_args go c o k body ids body_id else_id join at b)
    unfolding try_body targets
    try_body_lem body ids body_id else_id join at b small h =
        Holds-bind (sequence making match_args go c' body (opened body_id) none at) _ b _
          (λ end b'. Kept (WithElse end else_id R) b b')
          (sequence_lem making match_args fuel go faithful R c' body (opened body_id) none at b
            small in_R tt h)
          (λ end b' (follows, _, _). ending end b' follows)
      where
        R : Promise
        R = Clauses ids join

        c' : Context
        c' = record c { handlers = ids ∷ c.handlers }

        in_R : IsInside (Clauses ids join) (record c { handlers = ids ∷ c.handlers })
        in_R = record {
          loops = (in_clauses ids join).loops;
          handlers = (All-of (Clauses ids join) ids (λ t m. inl m), (in_clauses ids join).handlers);
        }

        ending :
            (end : Option (Open T)) (b' : Builder T)
            → Follows R (opened body_id) b end b'
            → Holds
                (λ end' b₂. Kept (WithElse end' else_id R) b b₂)
                ((elim end as (λ _. Build T (Option (Open T))) [
                  | none ↦ give none
                  | some e ↦
                      (finish c' e (jump (elim else_id [ none ↦ join | some id ↦ id ]) at)
                        >> give (some e))
                ])
                  b')
        ending none b' follows =
            give_lem (λ end' b₂. Kept (WithElse end' else_id R) b b₂) none b'
              (follows.promised, follows.grows)
        ending (some e) b' follows = ended else_id
          where
            ended :
                (el : Option BlockId)
                → Holds
                    (λ end' b₂. Kept (WithElse end' el R) b b₂)
                    ((finish c' e
                          (jump (elim el as (λ _. BlockId) [ none ↦ join | some id ↦ id ]) at)
                        >> give (some e))
                      b')
            ended none =
                Holds-bind (finish c' e (jump join at)) _ b' _
                  (λ end' b₂. Kept (WithElse end' none R) b b₂)
                  (finish_lem c' e (jump join at) b' (Or e.id R) R follows.promised (λ t p. p)
                    (inr (inl refl), tt) (All-exception_targets R c' in_R))
                  (λ _ b₂ (promised, grows, _).
                    give_lem (λ end' b₂. Kept (WithElse end' none R) b b₂) (some e) b₂
                      (promised, λ t known. grows t (follows.grows t known)))
            ended (some id) =
                Holds-bind (finish c' e (jump id at)) _ b' _
                  (λ end' b₂. Kept (WithElse end' (some id) R) b b₂)
                  (finish_lem c' e (jump id at) b' (Or e.id R) (Or id R) follows.promised
                    (λ t p. elim p [ inl same ↦ inl same | inr q ↦ inr (inr q) ]) (inl refl, tt)
                    (All-exception_targets (Or id R) c'
                      (IsInside-mono R (Or id R) c' (λ t p. inr p) in_R)))
                  (λ _ b₂ (promised, grows, _).
                    give_lem (λ end' b₂. Kept (WithElse end' (some id) R) b b₂) (some e) b₂
                      (promised, λ t known. grows t (follows.grows t known)))

    pub lay_else_lem :
        (end : Option (Open T)) (else_id : Option BlockId) (orelse : Statements T)
        (ids : List BlockId) (join : BlockId) (at : SourceSpan) (b : Builder T)
        → statements_size orelse ≤ fuel
        → Promised (WithElse end else_id (Clauses ids join)) b.blocks
        → Holds
            (λ _ b'. Kept (Clauses ids join) b b')
            (lay_else making match_args go c o k end else_id orelse join at b)
    unfolding lay_else
    lay_else_lem none else_id orelse ids join at b small h =
        give_lem (λ _ b'. Kept (Clauses ids join) b b') tt b (h, λ t known. known)
    lay_else_lem (some _) none orelse ids join at b small h =
        give_lem (λ _ b'. Kept (Clauses ids join) b b') tt b (h, λ t known. known)
    lay_else_lem (some _) (some id) orelse ids join at b small h =
        Holds-bind (sequence making match_args go c orelse (opened id) (some join) at) _ b _
          (λ _ b'. Kept (Clauses ids join) b b')
          (branch_lem making match_args fuel go faithful P c o k inside next (Clauses ids join) c
            orelse id join at b small (in_clauses ids join) (inr (inl refl)) h)
          (λ _ b' kept. give_lem (λ _ b'. Kept (Clauses ids join) b b') tt b' kept)

    pub lay_handlers_lem :
        (hs : Handlers T) (ids : List BlockId) (join : BlockId) (at : SourceSpan) (b : Builder T)
        → IsFor hs ids
        → handlers_size hs ≤ fuel
        → Promised (Clauses ids join) b.blocks
        → Holds
            (λ _ b'. Kept (Or join P) b b')
            (lay_handlers making match_args go c o k hs ids join at b)
    unfolding lay_handlers size
    lay_handlers_lem no_handlers [] join at b matched small h =
        give_lem (λ _ b'. Kept (Or join P) b b') tt b
          (
            Promised-weaken (Clauses [] join) (Or join P) b.blocks h
                (λ t p. elim p [ inl m ↦ absurd (Memᴰ-nil m) | inr q ↦ inr q ]),
            λ t known. known,
          )
    lay_handlers_lem no_handlers (_ ∷ _) join at b matched small h = absurd matched
    lay_handlers_lem (handler _ _ _ _ _) [] join at b matched small h = absurd matched
    lay_handlers_lem (handler type bound body h_at more) (id ∷ ids) join at b matched small h =
        Holds-bind
          (sequence making match_args go c body
            (also (opened id) (enter_handler type bound body h_at h_at)) (some join) at)
          _ b _ (λ _ b'. Kept (Or join P) b b')
          (branch_open_lem making match_args fuel go faithful P c o k inside next (Clauses ids join)
            c body (also (opened id) (enter_handler type bound body h_at h_at)) join at b
            (omega (arith, small)) (in_clauses ids join) (inr (inl refl))
            (Promised-weaken (Clauses (id ∷ ids) join) (Or id (Clauses ids join)) b.blocks h (λ t p.
              elim p [
                | inl m ↦ elim ((Memᴰ-cons t id ids).0 m) [
                  | inl same ↦ inr (inl same)
                  | inr later ↦ inr (inr (inl later))
                ]
                | inr q ↦ inr (inr (inr q))
              ])))
          (λ _ b₁ (promised, grows).
            Holds-map _ _ (lay_handlers making match_args go c o k more ids join at b₁)
              (lay_handlers_lem more ids join at b₁ matched (omega (arith, small)) promised)
              (λ _ b₂ (promised', grows'). (promised', λ t known. grows' t (grows t known))))

    pub try_end_lem :
        (final after : Option BlockId) (join : BlockId) (finalbody : Statements T) (at : SourceSpan)
        (b b₁ : Builder T)
        → IsPlan making match_args go c o k final after join
        → statements_size finalbody ≤ fuel
        → Promised (Or join P) b₁.blocks
        → Grows b.blocks b₁.blocks
        → Known b₁.blocks o.id
        → Holds
            (λ end b'. Follows P o b end b' × Falls k ⊥ end)
            (try_end making match_args go c o k final after finalbody at b₁)
    unfolding try_end
    try_end_lem none after join finalbody at b b₁ (is_after, is_next) small h grows known =
        rw is_after (unless_lem P k o b b₁ join ⊥ is_next next h grows known)
    try_end_lem (some f) after join finalbody at b b₁ (is_join, (target, found, is_next)) small h
          grows known =
        rw found (
          Holds-bind (sequence making match_args go c finalbody (opened f) (some target) at) _ b₁ _
            (λ end b'. Follows P o b end b' × Falls k ⊥ end)
            (branch_lem making match_args fuel go faithful P c o k inside next (Or target P) c
              finalbody f target at b₁ small (IsInside-mono P (Or target P) c (λ t p. inr p) inside)
              (inl refl)
              (Promised-weaken (Or join P) (Or f (Or target P)) b₁.blocks h (λ t p. elim p [
                | inl same ↦ inr (inl (same ∙ sym is_join))
                | inr q ↦ inr (inr (inr q))
              ])))
            (λ _ b₂ (promised, grows').
              unless_lem P k o b b₂ target ⊥ is_next next promised
                (λ t there. grows' t (grows t there)) (grows' o.id known)))
