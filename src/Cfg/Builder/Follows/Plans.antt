-- ===== src/Cfg/Builder/Follows/Plans.antt =====
-- The ids that `try_statement` of cfg/builder.py chooses first.
use coretrace_python_analyze.Hir.{Statements, Handlers, empty, first, no_handlers, handler}
use coretrace_python_analyze.Cfg.{BlockId}
use coretrace_python_analyze.Cfg.Builder.Comprehension.{Making}
use coretrace_python_analyze.Cfg.Builder.Layout.{
  Open, Builder, Context, Build, Go, give, given_or_new, ◌>>=◌,
}
use coretrace_python_analyze.Cfg.Builder.Statements.{
  new_handlers, id_of, after_try, required, first_of,
}
use coretrace_python_analyze.Cfg.Builder.Promises.{Holds, Holds-bind}
use coretrace_python_analyze.Base.{
  Dict, List, Option, String, [], none, refl, some, ◌∷◌, ◌≡◌, ◌∙◌, string_eq, list_eq, nat_eq,
  option_eq, pair_eq,
}
use coretrace_python_analyze.Cfg.Builder.Follows.Branches.{given_or_new_lem, fresh_lem}

module _ {T : Type 0} where
  -- An id for each handler.
  abbrev pub IsFor : Handlers T → List BlockId → Type 0
  IsFor no_handlers [] = Unit {0}
  IsFor no_handlers (_ ∷ _) = ⊥
  IsFor (handler _ _ _ _ _) [] = ⊥
  IsFor (handler _ _ _ _ more) (_ ∷ ids) = IsFor more ids

  pub give_lem :
      {A : Type 0} (Q : A → Builder T → Type 0) (a : A) (b : Builder T) → Q a b → Holds Q (give a b)
  unfolding Holds
  give_lem Q a b h = h

  pub required_lem :
      {A B : Type 0} {found : Option A} {a : A}
      → found ≡ some a
      → (b : Builder T) (f : A → Build T B) (R : B → Builder T → Type 0) → Holds R (f a b)
      → Holds R ((required found >>= f) b)
  required_lem e b f R h = rw e h

  -- Some id is chosen, and the blocks stay.
  abbrev pub IsSame : {A : Type 0} → Builder T → A → Builder T → Type 0
  IsSame b _ b' = b'.blocks ≡ b.blocks

module _ {T : Type 0} (making : Making T) (match_args : Dict String (List String)) where
  module _ (go : Go T) (c : Context) (o : Open T) (k : Option BlockId) where
    abbrev pub HasIds : Handlers T → Builder T → List BlockId → Builder T → Type 0
    HasIds hs b ids b' = (b'.blocks ≡ b.blocks) × IsFor hs ids

    pub new_handlers_lem :
        (hs : Handlers T) (b : Builder T)
        → Holds (HasIds hs b) (new_handlers making match_args go c o k hs b)
    unfolding new_handlers
    new_handlers_lem no_handlers b = give_lem (HasIds no_handlers b) [] b (refl, tt)
    new_handlers_lem (handler t bound body at more) b =
        fresh_lem making match_args "handler" b _ (HasIds (handler t bound body at more) b)
          (λ id b₁ same₁.
            Holds-bind (new_handlers making match_args go c o k more) _ b₁ _
              (HasIds (handler t bound body at more) b) (new_handlers_lem more b₁)
              (λ ids b₂ (same₂, matched).
                give_lem (HasIds (handler t bound body at more) b) (id ∷ ids) b₂
                  (same₂ ∙ same₁, matched)))

    pub id_of_lem :
        (kind : String) (stmts : Statements T) (b : Builder T)
        → Holds (IsSame b) (id_of making match_args go c o k kind stmts b)
    unfolding id_of
    id_of_lem kind empty b = give_lem (IsSame b) none b refl
    id_of_lem kind (first _ _) b =
        fresh_lem making match_args kind b _ (IsSame b)
          (λ id b₁ same. give_lem (IsSame b) (some id) b₁ same)

    -- The `finally` clause, or the block after.
    abbrev pub IsTarget : BlockId → Type 0
    IsTarget target = (n : BlockId) → k ≡ some n → target ≡ n

    -- Where the clauses join, and where the `finally` clause goes.
    abbrev pub IsPlan : Option BlockId → Option BlockId → BlockId → Type 0
    IsPlan none after join = (after ≡ some join) × IsTarget join
    IsPlan (some f) after join =
        (f ≡ join)
        × ((target : BlockId) × (first_of making match_args go c o k k after ≡ some target)
            × IsTarget target)

    abbrev pub Planned : Option BlockId → Builder T → Option BlockId → Builder T → Type 0
    Planned final b after b' =
        (b'.blocks ≡ b.blocks)
        × ((join : BlockId) × (first_of making match_args go c o k final after ≡ some join)
            × IsPlan final after join)

  pub after_try_lem :
      (go : Go T) (c : Context) (o : Open T) (k final : Option BlockId) (b : Builder T)
      → Holds (Planned go c o k final b) (after_try making match_args go c o k final b)
  unfolding after_try
  after_try_lem go c o k none b =
      Holds-bind (given_or_new making match_args k "after") _ b _ (Planned go c o k none b)
        (given_or_new_lem making match_args k "after" b)
        (λ id b' (same, is_next).
          give_lem (Planned go c o k none b) (some id) b' (same, (id, refl, (refl, is_next))))
  after_try_lem go c o none (some f) b =
      fresh_lem making match_args "after" b _ (Planned go c o none (some f) b) (λ id b' same.
        give_lem (Planned go c o none (some f) b) (some id) b'
          (same, (f, refl, (refl, (id, refl, λ n e. cc e)))))
  after_try_lem go c o (some n) (some f) b =
      give_lem (Planned go c o (some n) (some f) b) none b
        (refl, (f, refl, (refl, (n, refl, λ m e. cc e))))
