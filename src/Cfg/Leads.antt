-- ===== src/Cfg/Leads.antt =====
-- Where the edges of cfg/model.py lead: the successors of a block, by what its terminator is.
use mathlib.Core.Option
use coretrace_python_analyze.Cfg.{
  BlockId, Syntax, BasicBlock, Terminator, branch, jump, return, raise, for_each, targets,
  out_edges, extend_new, make, successors, Cfg,
}
use coretrace_python_analyze.Cfg.Build.{successors-make}
use coretrace_python_analyze.Base.{
  ◌≡◌, ◌↔◌, ◌⊎◌, inl, inr, refl, ap, ==_iff, ==_refl, Bool-cases, true, List, [], ◌∷◌, ◌++◌,
  contains, none, some, Dict, get, IsDict, String, arith, ◌∙◌, ◌==◌, ◌||◌, string_eq, list_eq,
  nat_eq, option_eq, pair_eq, contains-append, subst, sym, ok,
}

contains-extend_new :
    (found more : List BlockId) (t : BlockId)
    → contains (extend_new found more) t ≡ (contains found t || contains more t)
unfolding extend_new contains
contains-extend_new found [] t = ground arith
contains-extend_new found (x ∷ more) t = elim (Bool-cases (contains found x)) [
  | inl old ↦
      let h = contains-extend_new found more t in
      let e = ==_iff t x in
      rw old (elim (Bool-cases (t == x)) [
        | inl same ↦ let there = ap (contains found) ((==_iff t x).0 same) in ground arith
        | inr other ↦ ground arith
      ])
  | inr new ↦
      let h = contains-extend_new (found ++ x ∷ []) more t in
      let g = contains-append found (x ∷ []) t in rw new (ground arith)
]

one_of : (x t : BlockId) → contains (x ∷ []) t ≡ true → t ≡ x
unfolding contains
one_of x t h = (==_iff t x).0 (ground arith)

two_of : (x y t : BlockId) → contains (x ∷ y ∷ []) t ≡ true → (t ≡ x) ⊎ (t ≡ y)
unfolding contains
two_of x y t h = elim (Bool-cases (t == x)) [
  | inl same ↦ inl ((==_iff t x).0 same)
  | inr other ↦ inr ((==_iff t y).0 (ground arith))
]

module _ {syntax : Syntax} where
  -- Where a terminator may go.
  pub data Goes : Terminator syntax → BlockId → Type 0 where
    to_then : {c : syntax.Expression} {t e : BlockId} {at : syntax.Span} → Goes (branch c t e at) t
    to_else : {c : syntax.Expression} {t e : BlockId} {at : syntax.Span} → Goes (branch c t e at) e
    to_target : {t : BlockId} {at : syntax.Span} → Goes (jump t at) t
    to_body :
        {v : syntax.Name} {i : syntax.Expression} {body exit : BlockId} {at : syntax.Span}
        → Goes (for_each v i body exit at) body
    to_exit :
        {v : syntax.Name} {i : syntax.Expression} {body exit : BlockId} {at : syntax.Span}
        → Goes (for_each v i body exit at) exit

  -- Where a block may go: as its terminator says, or to a handler.
  pub data Leads (b : BasicBlock syntax) (t : BlockId) : Type 0 where
    goes : Goes b.terminator t → Leads b t
    raises : contains b.exception_targets t ≡ true → Leads b t

  targets-Goes : (m : Terminator syntax) (t : BlockId) → contains (targets m) t ≡ true → Goes m t
  unfolding targets
  targets-Goes (branch c x y at) t h = elim (two_of x y t h) [
    | inl e ↦ subst (λ t. Goes (branch c x y at) t) (sym e) to_then
    | inr e ↦ subst (λ t. Goes (branch c x y at) t) (sym e) to_else
  ]
  targets-Goes (jump x at) t h = subst (λ t. Goes (jump x at) t) (sym (one_of x t h)) to_target
  targets-Goes (return _ _) t h = absurd (unfold contains in cc h)
  targets-Goes (raise _ _ _) t h = absurd (unfold contains in cc h)
  targets-Goes (for_each v i x y at) t h = elim (two_of x y t h) [
    | inl e ↦ subst (λ t. Goes (for_each v i x y at) t) (sym e) to_body
    | inr e ↦ subst (λ t. Goes (for_each v i x y at) t) (sym e) to_exit
  ]

  Goes-targets : (m : Terminator syntax) (t : BlockId) → Goes m t → contains (targets m) t ≡ true
  unfolding targets contains
  Goes-targets (branch _ x y _) t to_then = rw (==_refl x) refl
  Goes-targets (branch _ x y _) t to_else = rw (==_refl y) (ground arith)
  Goes-targets (jump x _) t to_target = rw (==_refl x) refl
  Goes-targets (return _ _) t g = elim g [ ]
  Goes-targets (raise _ _ _) t g = elim g [ ]
  Goes-targets (for_each _ _ x y _) t to_body = rw (==_refl x) refl
  Goes-targets (for_each _ _ x y _) t to_exit = rw (==_refl y) (ground arith)

  out_edges-Leads :
      (b : BasicBlock syntax) (t : BlockId) → (contains (out_edges b) t ≡ true) ↔ Leads b t
  unfolding out_edges
  out_edges-Leads b t =
      let all = contains-extend_new (targets b.terminator) b.exception_targets t in
      (
        λ h. elim (Bool-cases (contains (targets b.terminator) t)) [
          | inl there ↦ goes (targets-Goes b.terminator t there)
          | inr absent ↦ raises (ground arith)
        ],
        λ l. elim l [
          | goes g ↦ let there = Goes-targets b.terminator t g in ground arith
          | raises r ↦ ground arith
        ],
      )

module _ {syntax : Syntax} (entry : BlockId) (blocks : Dict BlockId (BasicBlock syntax))
    (locals : List String) where
  -- In a graph that the constructor returns, the successors of a block are exactly the blocks that
  -- its terminator may go to, by what kind it is, and its exception targets; and what is no block
  -- has no successors.
  pub successors-Leads :
      {cfg : Cfg syntax} (id : BlockId)
      → IsDict blocks
      → make entry blocks locals ≡ ok cfg
      → (get id blocks ≡ none → successors cfg id ≡ none)
        × ((b : BasicBlock syntax)
            → get id blocks ≡ some b
            → (found : List BlockId) × (successors cfg id ≡ some found)
              × ((t : BlockId) → (contains found t ≡ true) ↔ Leads b t))
  successors-Leads {cfg} id d h =
      let e = successors-make entry blocks locals id d h in
      (
        λ absent. e ∙ ap (Option.map out_edges) absent,
        λ b there. (out_edges b, e ∙ ap (Option.map out_edges) there, out_edges-Leads b),
      )
