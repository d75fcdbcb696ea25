-- ===== src/Cfg/Builder/Promises.antt =====
-- What holds between the steps of cfg/builder.py: the blocks so far lead to blocks, or to ids that are
-- promised to become blocks.
use coretrace_python_analyze.Cfg.{BasicBlock, Terminator, BlockId, targets, out_edges, extend_new}
use coretrace_python_analyze.Cfg.Build.{IsBlock}
use coretrace_python_analyze.Cfg.Builder.Patterns.{BuildError}
use coretrace_python_analyze.Cfg.Builder.Size.Subjects.{Reported}
use coretrace_python_analyze.Cfg.Builder.Layout.{
  hir, Open, Builder, Context, Build, finish, exception_targets, ◌>>=◌,
}
use coretrace_python_analyze.Base.{
  All, Bool-cases, Dict, List, Result, [], contains, contains-keys-put, inl, inr, err, ok, keys,
  put, refl, string_eq, true, ◌++◌, ◌==◌, ◌∙◌, ◌∷◌, ◌≡◌, ◌⊎◌, arith, ==_iff, list_eq, nat_eq,
  option_eq, pair_eq,
}

abbrev pub Promise : Type 1
Promise = BlockId → Type 0

abbrev pub Or : BlockId → Promise → Promise
Or x P t = (t ≡ x) ⊎ P t

All-map {ℓ κ μ} :
    {A : Type ℓ} (P : A → Type κ) (Q : A → Type μ) (xs : List A)
    → ((a : A) → P a → Q a)
    → All P xs
    → All Q xs
All-map P Q [] f h = tt
All-map P Q (x ∷ xs) f h = (f x h.0, All-map P Q xs f h.1)

All-append {ℓ κ} :
    {A : Type ℓ} (P : A → Type κ) (xs ys : List A) → All P xs → All P ys → All P (xs ++ ys)
All-append P [] ys h k = k
All-append P (x ∷ xs) ys h k = (h.0, All-append P xs ys h.1 k)

All-extend_new :
    (P : Promise) (found more : List BlockId)
    → All P found
    → All P more
    → All P (extend_new found more)
unfolding extend_new
All-extend_new P found [] h k = h
All-extend_new P found (t ∷ more) h k = elim (Bool-cases (contains found t)) [
  | inl old ↦ rw old (All-extend_new P found more h k.1)
  | inr new ↦
      rw new (All-extend_new P (found ++ t ∷ []) more (All-append P found (t ∷ []) h (k.0, tt)) k.1)
]

abbrev pub Blocks : Type 0 → Type 0
Blocks T = Dict BlockId (BasicBlock (hir T))

-- What holds where a method returns; where it raises, the function's own code is to blame.
unfoldable pub Holds :
    {T A : Type 0} → (A → Builder T → Type 0) → Result BuildError (A × Builder T) → Type 0
Holds Q (err e) = Reported e
Holds Q (ok (a, b)) = Q a b

pub Holds-map :
    {T A : Type 0} (Q R : A → Builder T → Type 0) (r : Result BuildError (A × Builder T))
    → Holds Q r
    → ((a : A) (b : Builder T) → Q a b → R a b)
    → Holds R r
unfolding Holds
Holds-map Q R (err e) h f = h
Holds-map Q R (ok (a, b)) h f = f a b h

pub Holds-bind :
    {T A B : Type 0} (m : Build T A) (f : A → Build T B) (b : Builder T)
    (Q : A → Builder T → Type 0) (R : B → Builder T → Type 0)
    → Holds Q (m b)
    → ((a : A) (b' : Builder T) → Q a b' → Holds R (f a b'))
    → Holds R ((m >>= f) b)
unfolding Holds
Holds-bind {T} {A} {B} m f b Q R h k = go (m b) h
  where
    go :
        (r : Result BuildError (A × Builder T))
        → Holds Q r
        → Holds R (elim r [ err e ↦ err e | ok (a, b') ↦ f a b' ])
    go (err e) h = h
    go (ok (a, b')) h = k a b' h

module _ {T : Type 0} where
  abbrev pub Known : Blocks T → Promise
  Known d t = contains (keys d) t ≡ true

  -- Stored under its own id, with targets among `R`.
  abbrev Laid : Promise → BlockId × BasicBlock (hir T) → Type 0
  Laid R (id, b) = (b.id ≡ id) × All R (targets b.terminator) × All R b.exception_targets

  abbrev Here : Promise → Blocks T → Promise
  Here P d t = Known d t ⊎ P t

  -- Each target is a block or promised.
  abbrev pub Promised : Promise → Blocks T → Type 0
  Promised P d = All (Laid (Here P d)) d

  Laid-map :
      (R Q : Promise) (e : BlockId × BasicBlock (hir T))
      → ((t : BlockId) → R t → Q t)
      → Laid R e
      → Laid Q e
  Laid-map R Q (id, b) f h =
      (h.0, All-map R Q (targets b.terminator) f h.1, All-map R Q b.exception_targets f h.2)

  -- A promise is kept by a block, or passed on.
  pub Promised-weaken :
      (P Q : Promise) (d : Blocks T)
      → Promised P d
      → ((t : BlockId) → P t → Known d t ⊎ Q t)
      → Promised Q d
  Promised-weaken P Q d h f =
      All-map (Laid (Here P d)) (Laid (Here Q d)) d
        (λ e l. Laid-map (Here P d) (Here Q d) e (λ t. step t) l) h
    where
      step : (t : BlockId) → Here P d t → Here Q d t
      step t (inl known) = inl known
      step t (inr p) = f t p

  All-put :
      (R : Promise) (k : BlockId) (b : BasicBlock (hir T)) (d : Blocks T)
      → All (Laid R) d
      → Laid R (k, b)
      → All (Laid R) (put k b d)
  unfolding put
  All-put R k b [] h l = (l, tt)
  All-put R k b ((j, w) ∷ d) h l = elim (Bool-cases (k == j)) [
    | inl same ↦ rw same ((l.0 ∙ (==_iff k j).0 same, l.1, l.2), h.1)
    | inr other ↦ rw other (h.0, All-put R k b d h.1 l)
  ]

  abbrev pub Grows : Blocks T → Blocks T → Type 0
  Grows d d' = (t : BlockId) → Known d t → Known d' t

  -- The block that is finished keeps the promise of its id.
  pub finish_lem :
      (c : Context) (o : Open T) (end : Terminator (hir T)) (b : Builder T) (P Q : Promise)
      → Promised P b.blocks
      → ((t : BlockId) → P t → (t ≡ o.id) ⊎ Q t)
      → All Q (targets end)
      → All Q (exception_targets c)
      → Holds
          (λ _ b'. Promised Q b'.blocks × Grows b.blocks b'.blocks × Known b'.blocks o.id)
          (finish c o end b)
  unfolding finish Holds
  finish_lem c o end b P Q h f to_targets to_handlers =
      let d' = put o.id laid' b.blocks in
      (
        All-put (Here Q d') o.id laid' b.blocks
            (All-map (Laid (Here P b.blocks)) (Laid (Here Q d')) b.blocks
              (λ e l. Laid-map (Here P b.blocks) (Here Q d') e (λ t. moved t) l) h)
            (
              refl,
              All-map Q (Here Q d') (targets end) (λ t q. inr q) to_targets,
              All-map Q (Here Q d') (exception_targets c) (λ t q. inr q) to_handlers,
            ),
        grows,
        now,
      )
    where
      laid' : BasicBlock (hir T)
      laid' = record {
        id = o.id;
        statements = o.statements;
        terminator = end;
        exception_targets = exception_targets c;
      }

      grows : Grows b.blocks (put o.id laid' b.blocks)
      grows t k = ground (arith, contains-keys-put o.id t laid' b.blocks)

      now : Known (put o.id laid' b.blocks) o.id
      now = ground (arith, contains-keys-put o.id o.id laid' b.blocks, ==_iff o.id o.id)

      moved : (t : BlockId) → Here P b.blocks t → Here Q (put o.id laid' b.blocks) t
      moved t (inl known) = inl (grows t known)
      moved t (inr p) = elim (f t p) [ inl self ↦ inl (rw self now) | inr q ↦ inr q ]

  -- The graph is accepted where every promise is kept.
  pub IsBlock-Promised : (d : Blocks T) → Promised (λ _. ⊥) d → All (IsBlock (keys d)) d
  unfolding out_edges
  IsBlock-Promised d h = All-map (Laid (Here (λ _. ⊥) d)) (IsBlock (keys d)) d (λ e. one e) h
    where
      kept : (t : BlockId) → Here (λ _. ⊥) d t → Known d t
      kept t (inl known) = known
      kept t (inr n) = absurd n

      one : (e : BlockId × BasicBlock (hir T)) → Laid (Here (λ _. ⊥) d) e → IsBlock (keys d) e
      one (id, b) l = (
        l.0,
        All-extend_new (Known d) (targets b.terminator) b.exception_targets
            (All-map (Here (λ _. ⊥) d) (Known d) (targets b.terminator) kept l.1)
            (All-map (Here (λ _. ⊥) d) (Known d) b.exception_targets kept l.2),
      )
