-- ===== src/Cfg/Builder/Follows/Branches.antt =====
-- `conditional`, `loop_statement`, `with_statement` and `match_statement` of cfg/builder.py keep their
-- promises.
use coretrace_python_analyze.Hir.{Statements, Expression, empty, first}
use coretrace_python_analyze.Findings.{SourceSpan}
use coretrace_python_analyze.Cfg.{BlockId, Terminator, jump, branch, targets}
use coretrace_python_analyze.Cfg.Builder.Comprehension.{Making}
use coretrace_python_analyze.Cfg.Builder.Size.{size, statements_size}
use coretrace_python_analyze.Cfg.Builder.Layout.{
  hir, Open, Builder, Context, Build, Go, opened, sequence, new_id, finish, give, unless,
  given_or_new, conditional_statement, ◌>>=◌, ◌>>◌,
}
use coretrace_python_analyze.Cfg.Builder.Statements.{loop_statement}
use coretrace_python_analyze.Cfg.Builder.Promises.{
  Promise, Or, Known, Promised, Promised-weaken, Grows, Holds, Holds-bind, Holds-map, finish_lem,
}
use coretrace_python_analyze.Cfg.Builder.Follows.{
  IsInside, IsPromised, IsInside-mono, All-exception_targets, Follows, Closes, Falls, IsFaithful,
  sequence_lem,
}
use coretrace_python_analyze.Base.{
  Dict, List, Option, String, [], inl, inr, none, refl, some, ◌∷◌, ◌≡◌, ◌∙◌, ℕ, ◌≤◌, ◌+◌, arith,
  subst, sym, suc, get_or, put, string_eq, list_eq, nat_eq, option_eq, pair_eq,
}

-- A way for the ids of `P` to be ids of `Q`.
abbrev Within : Promise → Promise → Type 0
Within P Q = (t : BlockId) → P t → Q t

module _ {T : Type 0} where
  -- The end of a statement that goes on to `next`.
  pub unless_lem :
      (P : Promise) (k : Option BlockId) (o : Open T) (b b' : Builder T) (next : BlockId)
      (A : Type 0)
      → ((n : BlockId) → k ≡ some n → next ≡ n)
      → IsPromised P k
      → Promised (Or next P) b'.blocks
      → Grows b.blocks b'.blocks
      → Known b'.blocks o.id
      → Holds
          (λ end b'. Follows P o b end b' × Falls k A end)
          (give {A = Option (Open T)} (unless k (opened next)) b')
  unfolding Holds
  unless_lem P none o b b' next A same to h grows known =
      (record { promised = h; grows = grows; laid = inl known }, tt)
  unless_lem P (some n) o b b' next A same to h grows known = (
    record {
      promised =
          Promised-weaken (Or next P) P b'.blocks h
            (λ t p. elim p [ inl e ↦ let e' = same n refl in inr (rw (e, e') to) | inr q ↦ inr q ]);
      grows = grows;
      laid = known;
    },
    tt,
  )

  module _ (making : Making T) (match_args : Dict String (List String)) where
    -- A continuation, or a new id; the blocks stay.
    abbrev GivenOrNew : Option BlockId → Builder T → BlockId → Builder T → Type 0
    GivenOrNew k b id b' = (b'.blocks ≡ b.blocks) × ((n : BlockId) → k ≡ some n → id ≡ n)

    pub given_or_new_lem :
        (k : Option BlockId) (kind : String) (b : Builder T)
        → Holds (GivenOrNew k b) (given_or_new making match_args k kind b)
    unfolding new_id Holds
    given_or_new_lem none kind b = (refl, λ n e. cc e)
    given_or_new_lem (some id) kind b = (refl, λ n e. cc e)

    pub new_id_lem :
        (kind : String) (b : Builder T)
        → Holds (λ _ b'. b'.blocks ≡ b.blocks) (new_id making match_args kind b)
    unfolding new_id Holds
    new_id_lem kind b = refl

    pub fresh_lem :
        {A : Type 0} (kind : String) (b : Builder T) (f : BlockId → Build T A)
        (R : A → Builder T → Type 0)
        → ((id : BlockId) (b' : Builder T) → b'.blocks ≡ b.blocks → Holds R (f id b'))
        → Holds R ((new_id making match_args kind >>= f) b)
    fresh_lem kind b f R h =
        Holds-bind (new_id making match_args kind) f b _ R (new_id_lem kind b) h

    module _ (fuel : ℕ) (go : Go T) (faithful : IsFaithful making match_args fuel go) (P : Promise)
        (c : Context) (o : Open T) (k : Option BlockId) (inside : IsInside P c)
        (next : IsPromised P k) where
      -- What a statement does.
      abbrev pub Lays : Type 0 → Builder T → Option (Open T) → Builder T → Type 0
      Lays A b end b' = Follows P o b end b' × Falls k A end

      -- The body of a branch, which goes on to `merge`.
      pub branch_open_lem :
          (R : Promise) (c' : Context) (stmts : Statements T) (e : Open T) (merge : BlockId)
          (at : SourceSpan) (b : Builder T)
          → statements_size stmts ≤ fuel
          → IsInside R c'
          → R merge
          → Promised (Or e.id R) b.blocks
          → Holds
              (λ _ b'. Promised R b'.blocks × Grows b.blocks b'.blocks)
              (sequence making match_args go c' stmts e (some merge) at b)
      branch_open_lem R c' stmts e merge at b small in_R to h =
          Holds-map _ _ (sequence making match_args go c' stmts e (some merge) at b)
            (sequence_lem making match_args fuel go faithful R c' stmts e (some merge) at b small
              in_R to h)
            (λ end b' (follows, closed, _). closing end b' follows closed)
        where
          closing :
              (end : Option (Open T)) (b' : Builder T)
              → Follows R e b end b'
              → Closes (some merge) end
              → Promised R b'.blocks × Grows b.blocks b'.blocks
          closing none b' follows closed = (follows.promised, follows.grows)
          closing (some _) b' follows closed = absurd closed

      pub branch_lem :
          (R : Promise) (c' : Context) (stmts : Statements T) (id merge : BlockId) (at : SourceSpan)
          (b : Builder T)
          → statements_size stmts ≤ fuel
          → IsInside R c'
          → R merge
          → Promised (Or id R) b.blocks
          → Holds
              (λ _ b'. Promised R b'.blocks × Grows b.blocks b'.blocks)
              (sequence making match_args go c' stmts (opened id) (some merge) at b)
      branch_lem R c' stmts id merge = branch_open_lem R c' stmts (opened id) merge

      pub conditional_lem :
          (condition : Expression T) (body orelse : Statements T) (at : SourceSpan) (b : Builder T)
          → statements_size body + statements_size orelse ≤ fuel
          → Promised (Or o.id P) b.blocks
          → Holds
              (Lays (Unit {0}) b)
              (conditional_statement making match_args go c o k condition body orelse at b)
      unfolding conditional_statement new_id targets size
      conditional_lem condition body empty at b small h =
          Holds-bind (given_or_new making match_args k "merge") _ b _ _
            (given_or_new_lem k "merge" b)
            (λ merge b₁ (same, is_next).
              let then_id = making.numbered "then" (suc (get_or "then" 0 b₁.counters)) in
              let Q : Promise = Or then_id (Or merge P) in
              Holds-bind (finish c o (branch condition then_id merge at)) _ _ _ _
                (finish_lem c o (branch condition then_id merge at) _ (Or o.id P) Q
                  (subst (λ d. Promised (Or o.id P) d) (sym same) h)
                  (λ t p. elim p [ inl e ↦ inl e | inr q ↦ inr (inr (inr q)) ])
                  (inl refl, (inr (inl refl), tt))
                  (All-exception_targets Q c (IsInside-mono P Q c (λ t p. inr (inr p)) inside)))
                (λ _ b₂ (promised, grows, known).
                  Holds-bind (sequence making match_args go c body (opened then_id) (some merge) at)
                    _ b₂ _ _
                    (branch_lem (Or merge P) c body then_id merge at b₂ (omega (arith, small))
                      (IsInside-mono P (Or merge P) c (λ t p. inr p) inside) (inl refl) promised)
                    (λ _ b₃ (promised', grows').
                      unless_lem P k o b b₃ merge (Unit {0}) is_next next promised'
                        (λ t there. grows' t (grows t (subst (λ d. Known d t) (sym same) there)))
                        (grows' o.id known))))
      conditional_lem condition body (first s more) at b small h =
          Holds-bind (given_or_new making match_args k "merge") _ b _ _
            (given_or_new_lem k "merge" b)
            (λ merge b₁ (same, is_next).
              let then_id = making.numbered "then" (suc (get_or "then" 0 b₁.counters)) in
              let counters = put "then" (suc (get_or "then" 0 b₁.counters)) b₁.counters in
              let else_id = making.numbered "else" (suc (get_or "else" 0 counters)) in
              let R : Promise = Or else_id (Or merge P) in
              let Q : Promise = Or then_id R in
              Holds-bind (finish c o (branch condition then_id else_id at)) _ _ _ _
                (finish_lem c o (branch condition then_id else_id at) _ (Or o.id P) Q
                  (subst (λ d. Promised (Or o.id P) d) (sym same) h)
                  (λ t p. elim p [ inl e ↦ inl e | inr q ↦ inr (inr (inr (inr q))) ])
                  (inl refl, (inr (inl refl), tt))
                  (All-exception_targets Q c
                    (IsInside-mono P Q c (λ t p. inr (inr (inr p))) inside)))
                (λ _ b₂ (promised, grows, known).
                  Holds-bind (sequence making match_args go c body (opened then_id) (some merge) at)
                    _ b₂ _ _
                    (branch_lem R c body then_id merge at b₂ (omega (arith, small))
                      (IsInside-mono P R c (λ t p. inr (inr p)) inside) (inr (inl refl)) promised)
                    (λ _ b₃ (promised', grows').
                      Holds-bind
                        (sequence making match_args go c (first s more) (opened else_id)
                          (some merge) at)
                        _ b₃ _ _
                        (branch_lem (Or merge P) c (first s more) else_id merge at b₃
                          (omega (arith, small))
                          (IsInside-mono P (Or merge P) c (λ t p. inr p) inside) (inl refl)
                          promised')
                        (λ _ b₄ (promised'', grows'').
                          unless_lem P k o b b₄ merge (Unit {0}) is_next next promised''
                            (λ t there.
                              grows'' t
                                (grows' t (grows t (subst (λ d. Known d t) (sym same) there))))
                            (grows'' o.id (grows' o.id known))))))

      -- The header, the body that goes back to it, and what is then promised.
      header_lem :
          (header : BlockId → BlockId → Terminator (hir T))
          → ((x y : BlockId) → targets (header x y) ≡ x ∷ y ∷ [])
          → (body : Statements T) (at : SourceSpan) (header_id body_id exit_id after_id : BlockId)
            (b : Builder T)
          → (Q : Promise) → ((t : BlockId) → P t → Q t)
          → Q exit_id
          → Q after_id
          → statements_size body ≤ fuel
          → Promised (Or o.id P) b.blocks
          → (rest : Build T (Option (Open T))) (S : Option (Open T) → Builder T → Type 0)
          → ((b' : Builder T)
              → Promised Q b'.blocks
              → Grows b.blocks b'.blocks
              → Known b'.blocks o.id
              → Holds S (rest b'))
          → Holds S (
              (finish c o (jump header_id at)
                  >> (finish c (opened header_id) (header body_id exit_id)
                      >> (sequence making match_args go
                            (record c { loops = (header_id, after_id) ∷ c.loops })
                            body
                            (opened body_id)
                            (some header_id)
                            at
                          >> rest)))
                b)
      unfolding targets
      header_lem header shape body at header_id body_id exit_id after_id b Q wider exits afters
            small h rest S finally =
          let R : Promise = Or header_id Q in
          let in_R = IsInside-mono P R c (λ t p. inr (wider t p)) inside in
          let in_body : IsInside R (record c { loops = (header_id, after_id) ∷ c.loops }) = record {
            loops = ((inl refl, inr afters), in_R.loops);
            handlers = in_R.handlers;
          } in
          Holds-bind (finish c o (jump header_id at)) _ b _ _
            (finish_lem c o (jump header_id at) b (Or o.id P) R h
              (λ t p. elim p [ inl e ↦ inl e | inr q ↦ inr (inr (wider t q)) ]) (inl refl, tt)
              (All-exception_targets R c in_R))
            (λ _ b₁ (promised, grows, known).
              Holds-bind (finish c (opened header_id) (header body_id exit_id)) _ b₁ _ _
                (finish_lem c (opened header_id) (header body_id exit_id) b₁ R (Or body_id R)
                  promised (λ t p. inr (inr p))
                  (rw (shape body_id exit_id) (inl refl, (inr (inr exits), tt)))
                  (All-exception_targets (Or body_id R) c
                    (IsInside-mono R (Or body_id R) c (λ t p. inr p) in_R)))
                (λ _ b₂ (promised', grows', header_known).
                  Holds-bind
                    (sequence making match_args go
                      (record c { loops = (header_id, after_id) ∷ c.loops }) body (opened body_id)
                      (some header_id) at)
                    _ b₂ _ _
                    (branch_lem R (record c { loops = (header_id, after_id) ∷ c.loops }) body
                      body_id header_id at b₂ small in_body (inl refl) promised')
                    (λ _ b₃ (promised'', grows'').
                      finally b₃
                        (Promised-weaken R Q b₃.blocks promised'' (λ t p. elim p [
                          | inl e ↦ inl (rw e (grows'' header_id header_known))
                          | inr q ↦ inr q
                        ]))
                        (λ t there. grows'' t (grows' t (grows t there)))
                        (grows'' o.id (grows' o.id known)))))

      pub loop_lem :
          (header : BlockId → BlockId → Terminator (hir T))
          → ((x y : BlockId) → targets (header x y) ≡ x ∷ y ∷ [])
          → (body orelse : Statements T) (at : SourceSpan) (b : Builder T)
          → statements_size body + statements_size orelse ≤ fuel
          → Promised (Or o.id P) b.blocks
          → Holds
              (Lays (Unit {0}) b)
              (loop_statement making match_args go c o k header body orelse at b)
      unfolding loop_statement size
      loop_lem header shape body empty at b small h = fresh_lem "loop" b _ _ (λ header_id b₁ same₁.
          fresh_lem "body" b₁ _ _ (λ body_id b₂ same₂.
            Holds-bind (given_or_new making match_args k "exit") _ b₂ _ _
              (given_or_new_lem k "exit" b₂)
              (λ after_id b₃ (same₃, is_next).
                let same = same₃ ∙ same₂ ∙ same₁ in
                header_lem header shape body at header_id body_id after_id after_id b₃
                  (Or after_id P) (λ t p. inr p) (inl refl) (inl refl) (omega (arith, small))
                  (subst (λ d. Promised (Or o.id P) d) (sym same) h) _ _
                  (λ b₄ promised grows known.
                    unless_lem P k o b b₄ after_id (Unit {0}) is_next next promised
                      (λ t there. grows t (subst (λ d. Known d t) (sym same) there)) known))))
      loop_lem header shape body (first s more) at b small h =
          fresh_lem "loop" b _ _ (λ header_id b₁ same₁. fresh_lem "body" b₁ _ _ (λ body_id b₂ same₂.
            Holds-bind (given_or_new making match_args k "exit") _ b₂ _ _
              (given_or_new_lem k "exit" b₂)
              (λ after_id b₃ (same₃, is_next). fresh_lem "else" b₃ _ _ (λ exit_id b₄ same₄.
                let same = same₄ ∙ same₃ ∙ same₂ ∙ same₁ in
                header_lem header shape body at header_id body_id exit_id after_id b₄
                  (Or exit_id (Or after_id P)) (λ t p. inr (inr p)) (inl refl) (inr (inl refl))
                  (omega (arith, small)) (subst (λ d. Promised (Or o.id P) d) (sym same) h) _ _
                  (λ b₅ promised grows known.
                    Holds-bind
                      (sequence making match_args go c (first s more) (opened exit_id)
                        (some after_id) at)
                      _ b₅ _ _
                      (branch_lem (Or after_id P) c (first s more) exit_id after_id at b₅
                        (omega (arith, small))
                        (IsInside-mono P (Or after_id P) c (λ t p. inr p) inside) (inl refl)
                        promised)
                      (λ _ b₆ (promised', grows').
                        unless_lem P k o b b₆ after_id (Unit {0}) is_next next promised'
                          (λ t there. grows' t (grows t (subst (λ d. Known d t) (sym same) there)))
                          (grows' o.id known)))))))
