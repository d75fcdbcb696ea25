-- ===== src/Cfg/Builder/Follows.antt =====
-- How `sequence` of cfg/builder.py keeps its promises, where its statements do.
pub mod Branches
pub mod Plans
pub mod Clauses
pub mod Tries
pub mod Bodies
use coretrace_python_analyze.Hir.{Statement, Statements, empty, first}
use coretrace_python_analyze.Findings.{SourceSpan}
use coretrace_python_analyze.Cfg.{BlockId, jump, targets}
use coretrace_python_analyze.Cfg.Builder.Comprehension.{Making}
use coretrace_python_analyze.Cfg.Builder.Size.{size, statements_size}
use coretrace_python_analyze.Cfg.Builder.Size.Straight.{IsStraight, AllStraight}
use coretrace_python_analyze.Cfg.Builder.Layout.{
  Open, Builder, Context, Build, Go, finish, opened, close, reopen, sequence, exception_targets,
  new_id, ◌>>=◌,
}
use coretrace_python_analyze.Cfg.Builder.Promises.{
  Promise, Or, Known, Promised, Promised-weaken, Grows, Holds, Holds-bind, Holds-map, finish_lem,
}
use coretrace_python_analyze.Base.{
  All, Dict, List, Option, String, [], inl, inr, none, refl, some, ◌∷◌, ◌≡◌, ◌⊎◌, ℕ, ◌≤◌, arith,
  suc, get_or, put, string_eq, list_eq, nat_eq, option_eq, pair_eq,
}

-- Where the enclosing statements may go is promised.
pub record IsInside (P : Promise) (c : Context) : Type 0 where
  pub loops : All (λ (l : BlockId × BlockId). P l.0 × P l.1) c.loops
  pub handlers : All (All P) c.handlers

abbrev pub IsPromised : Promise → Option BlockId → Type 0
IsPromised P none = Unit {0}
IsPromised P (some next) = P next

All-mono {ℓ} :
    {A : Type ℓ} (P Q : A → Type 0) (xs : List A) → ((a : A) → P a → Q a) → All P xs → All Q xs
All-mono P Q [] f h = tt
All-mono P Q (x ∷ xs) f h = (f x h.0, All-mono P Q xs f h.1)

pub IsInside-mono :
    (P Q : Promise) (c : Context) → ((t : BlockId) → P t → Q t) → IsInside P c → IsInside Q c
IsInside-mono P Q c f h = record {
  loops =
      All-mono (λ (l : BlockId × BlockId). P l.0 × P l.1) (λ l. Q l.0 × Q l.1) c.loops
        (λ l p. (f l.0 p.0, f l.1 p.1)) h.loops;
  handlers = All-mono (All P) (All Q) c.handlers (λ ts p. All-mono P Q ts f p) h.handlers;
}

pub All-exception_targets : (P : Promise) (c : Context) → IsInside P c → All P (exception_targets c)
unfolding exception_targets
All-exception_targets P c h = at c.handlers h.handlers
  where
    at : (hs : List (List BlockId)) → All (All P) hs → All P (elim hs [ [] ↦ [] | ts ∷ _ ↦ ts ])
    at [] p = tt
    at (ts ∷ _) p = p.0

module _ {T : Type 0} where
  -- The open end, if there is one, is promised too.
  abbrev pub Ends : Option (Open T) → Promise → Promise
  Ends none P = P
  Ends (some o) P = Or o.id P

  abbrev pub IsLaid : Option (Open T) → Builder T → BlockId → Type 0
  IsLaid none b id = Known b.blocks id
  IsLaid (some o) b id = Known b.blocks id ⊎ (id ≡ o.id)

  -- After a method that took an open block over.
  pub record Follows (P : Promise) (o : Open T) (b : Builder T) (end : Option (Open T))
      (b' : Builder T) : Type 0 where
    pub promised : Promised (Ends end P) b'.blocks
    pub grows : Grows b.blocks b'.blocks
    pub laid : IsLaid end b' o.id

  -- With a continuation, a sequence leaves no block open.
  abbrev pub Closes : Option BlockId → Option (Open T) → Type 0
  Closes none end = Unit {0}
  Closes (some _) none = Unit {0}
  Closes (some _) (some _) = ⊥

  -- Without one, it leaves a block open where `A` holds.
  abbrev pub Falls : Option BlockId → Type 0 → Option (Open T) → Type 0
  Falls none A none = A → ⊥
  Falls none A (some _) = Unit {0}
  Falls (some _) A end = Unit {0}

  pub Falls-map :
      (k : Option BlockId) (A B : Type 0) (end : Option (Open T))
      → (B → A)
      → Falls k A end
      → Falls k B end
  Falls-map none A B none f h = λ b. h (f b)
  Falls-map none A B (some _) f h = tt
  Falls-map (some _) A B end f h = tt

  pub Falls-open : (k : Option BlockId) (A : Type 0) (o : Open T) → Falls k A (some o)
  Falls-open none A o = tt
  Falls-open (some _) A o = tt

  pub IsLaid-known :
      (end : Option (Open T)) (b : Builder T) (id : BlockId) → Known b.blocks id → IsLaid end b id
  IsLaid-known none b id known = known
  IsLaid-known (some o) b id known = inl known

  pub Follows-refl :
      (P : Promise) (o : Open T) (b : Builder T)
      → Promised (Or o.id P) b.blocks
      → Follows P o b (some o) b
  Follows-refl P o b h = record { promised = h; grows = λ t known. known; laid = inr refl }

  pub Follows-then :
      (P : Promise) (o o' : Open T) (b b₁ b₂ : Builder T) (end : Option (Open T))
      → Follows P o b (some o') b₁
      → Follows P o' b₁ end b₂
      → Follows P o b end b₂
  Follows-then P o o' b b₁ b₂ end h k = record {
    promised = k.promised;
    grows = λ t known. k.grows t (h.grows t known);
    laid = laid end k.laid h.laid;
  }
    where
      laid :
          (end : Option (Open T))
          → IsLaid end b₂ o'.id
          → Known b₁.blocks o.id ⊎ (o.id ≡ o'.id)
          → IsLaid end b₂ o.id
      laid none l (inl known) = k.grows o.id known
      laid none l (inr same) = rw same l
      laid (some e) l (inl known) = inl (k.grows o.id known)
      laid (some e) l (inr same) = rw same l

  pub close_lem :
      (P : Promise) (c : Context) (k : Option BlockId) (at : SourceSpan) (o : Open T)
      (b b₁ : Builder T) (end : Option (Open T)) (A : Type 0)
      → IsInside P c
      → IsPromised P k
      → Follows P o b end b₁
      → Falls k A end
      → Holds
          (λ end' b₂. Follows P o b end' b₂ × Closes k end' × Falls k A end')
          (close c k at end b₁)
  unfolding close targets Holds finish
  close_lem P c none at o b b₁ none A inside next h f = (h, tt, f)
  close_lem P c (some n) at o b b₁ none A inside next h f = (h, tt, f)
  close_lem P c none at o b b₁ (some e) A inside next h f = (h, tt, f)
  close_lem P c (some n) at o b b₁ (some e) A inside next h f =
      let (promised, grows, now) =
        finish_lem c e (jump n at) b₁ (Or e.id P) P h.promised (λ t p. p) (next, tt)
          (All-exception_targets P c inside) in
      (
        record {
          promised = promised;
          grows = λ t known. grows t (h.grows t known);
          laid = elim h.laid [ inl known ↦ grows o.id known | inr same ↦ rw same now ];
        },
        tt,
        tt,
      )

  module _ (making : Making T) (match_args : Dict String (List String)) (fuel : ℕ) where
    -- What `go` does with statements that the fuel is enough for.
    abbrev pub IsFaithful : Go T → Type 1
    IsFaithful go =
        (P : Promise) (c : Context) (s : Statement T) (o : Open T) (k : Option BlockId)
        (b : Builder T)
        → size s ≤ fuel
        → IsInside P c
        → IsPromised P k
        → Promised (Or o.id P) b.blocks
        → Holds (λ end b'. Follows P o b end b' × Falls k (IsStraight s) end) (go c s o k b)

    -- What a sequence of statements does.
    abbrev pub Sequences :
        Promise
        → Option BlockId
        → Statements T
        → Open T
        → Builder T
        → Option (Open T)
        → Builder T
        → Type 0
    Sequences P k stmts o b end b' =
        Follows P o b end b' × Closes k end × Falls k (AllStraight stmts) end

    reopen_lem :
        (P : Promise) (k : Option BlockId) (o : Open T) (s : Statement T) (more : Statements T)
        (b b₁ : Builder T) (end : Option (Open T)) (rest : Open T → Build T (Option (Open T)))
        → Follows P o b end b₁
        → ((o' : Open T) (b' : Builder T)
            → Promised (Or o'.id P) b'.blocks
            → Holds (Sequences P k more o' b') (rest o' b'))
        → Holds (Sequences P k (first s more) o b) ((reopen making match_args end >>= rest) b₁)
    unfolding reopen new_id
    reopen_lem P k o s more b b₁ (some e) rest h go =
        Holds-map _ _ (rest e b₁) (go e b₁ h.promised) (λ end b' (follows, closed, falls).
          (Follows-then P o e b b₁ b' end h follows, closed, Falls-map k _ _ end (λ p. p.1) falls))
    reopen_lem P k o s more b b₁ none rest h go =
        let n = suc (get_or "dead" 0 b₁.counters) in
        let o' = opened (making.numbered "dead" n) in
        let b' = record b₁ { counters = put "dead" n b₁.counters } in
        Holds-map _ _ (rest o' b')
          (go o' b' (Promised-weaken P (Or o'.id P) b₁.blocks h.promised (λ t p. inr (inr p))))
          (λ end b'' (follows, closed, falls). (
            record {
              promised = follows.promised;
              grows = λ t known. follows.grows t (h.grows t known);
              laid = IsLaid-known end b'' o.id (follows.grows o.id h.laid);
            },
            closed,
            Falls-map k _ _ end (λ p. p.1) falls,
          ))

    module _ (go : Go T) (faithful : IsFaithful go) where
      pub sequence_lem :
          (P : Promise) (c : Context) (stmts : Statements T) (o : Open T) (k : Option BlockId)
          (at : SourceSpan) (b : Builder T)
          → statements_size stmts ≤ fuel
          → IsInside P c
          → IsPromised P k
          → Promised (Or o.id P) b.blocks
          → Holds (Sequences P k stmts o b) (sequence making match_args go c stmts o k at b)
      unfolding sequence size
      sequence_lem P c empty o k at b small inside next h =
          close_lem P c k at o b b (some o) (Unit {0}) inside next (Follows-refl P o b h)
            (Falls-open k (Unit {0}) o)
      sequence_lem P c (first s empty) o k at b small inside next h =
          Holds-bind (go c s o k) (λ end. close c k at end) b _ _
            (faithful P c s o k b (omega (arith, small)) inside next h)
            (λ end b₁ (follows, falls).
              close_lem P c k at o b b₁ end (AllStraight (first s empty)) inside next follows
                (Falls-map k (IsStraight s) _ end (λ p. p.0) falls))
      sequence_lem P c (first s (first s' more)) o k at b small inside next h =
          Holds-bind (go c s o none)
            (λ end. reopen making match_args end >>= λ o'.
              sequence making match_args go c (first s' more) o' k at)
            b _ _ (faithful P c s o none b (omega (arith, small)) inside tt h)
            (λ end b₁ (follows, _).
              reopen_lem P k o s (first s' more) b b₁ end _ follows (λ o' b' h'.
                sequence_lem P c (first s' more) o' k at b' (omega (arith, small)) inside next h'))
