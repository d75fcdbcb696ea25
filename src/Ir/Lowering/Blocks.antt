-- ===== src/Ir/Lowering/Blocks.antt =====
-- The blocks that ir/lowering.py makes of a graph.
use coretrace_python_analyze.Ir
use coretrace_python_analyze.Ir.{
  Value, Instruction, FunctionIr, operands, terminator_operands, terminator_targets,
  effect_operands,
}
use coretrace_python_analyze.Findings.{SourceSpan}
use coretrace_python_analyze.Cfg.{Cfg, BlockId, BasicBlock, targets}
use coretrace_python_analyze.Cfg.Builder.Layout.{hir}
use coretrace_python_analyze.Ir.Lowering.{LoweringError, Environment, Lowerer, ◌>>=◌, give}
use coretrace_python_analyze.Ir.Lowering.Functions.{
  Subject, captured_values, store_reassigned, store_nonlocals, prologue, lower_body, lower_block,
  lower_blocks,
}
use coretrace_python_analyze.Ir.Lowering.Triples.{
  IsGood, Outcome, Lowers, Lowers-give, Lowers-emit_effect,
}
use coretrace_python_analyze.Ir.Lowering.Values.{Lowers-then}
use coretrace_python_analyze.Ir.Lowering.Values.Executed.{Lowers-statements}
use coretrace_python_analyze.Ir.Lowering.Values.Ended.{IsEnd, Lowers-terminator}
use coretrace_python_analyze.Ir.Lowering.Counted.{
  Below, All-Below, AllValues, AllValues-mono, IsDone, defined_values, IsRead, IsRead-mono, among,
  among_both,
}
use coretrace_python_analyze.Base.{
  All, Dict, List, [], ◌∷◌, ◌++◌, String, ℕ, suc, ◌+◌, ◌≤◌, ◌≡◌, arith, refl, contains, length,
  ◌==◌, string_eq, pair_eq, nat_eq, option_eq, list_eq, Bool-cases, inl, inr, Result, ok, err,
  count, count-append,
}

-- The values that blocks define.
unfoldable pub block_values : {T : Type 0} → List (Ir.BasicBlock T SourceSpan) → List Value
unfolding defined_values
block_values [] = []
block_values (b ∷ more) = defined_values b.instructions ++ block_values more

among_self : (n : ℕ) (v : Value) → 0 ≡ among n n v
among_self n v = ground arith

module _ {T : Type 0} where
  -- The blocks of the graph, in its order, with the same edges.
  abbrev pub Corresponds :
      Dict BlockId (BasicBlock (hir T)) → List (Ir.BasicBlock T SourceSpan) → Type 0
  Corresponds [] [] = Unit {0}
  Corresponds [] (_ ∷ _) = ⊥
  Corresponds (_ ∷ _) [] = ⊥
  Corresponds ((_, block) ∷ more) (b ∷ bs) =
      ((b.id ≡ block.id)
        × (terminator_targets b.terminator ≡ targets block.terminator)
        × (b.exception_targets ≡ block.exception_targets))
      × Corresponds more bs

  -- Every instruction and terminator reads values below `k`.
  abbrev pub AllRead : ℕ → List (Ir.BasicBlock T SourceSpan) → Type 0
  AllRead k [] = Unit {0}
  AllRead k (b ∷ bs) =
      (IsRead k b.instructions × All (Below k) (terminator_operands b.terminator)) × AllRead k bs

  pub record AreBlocksOf (blocks : Dict BlockId (BasicBlock (hir T)))
      (bs : List (Ir.BasicBlock T SourceSpan)) (n k : ℕ) : Type 0 where
    pub grows : n ≤ k
    pub same : Corresponds blocks bs
    pub defines : (v : Value) → count v (block_values bs) ≡ among n k v
    pub reads : AllRead k bs

module _ {T : Type 0} (env : Environment T) (cfg : Cfg (hir T))
    (back_edges : List (BlockId × BlockId)) (f : Subject) where
  Lowers-store_reassigned :
      {n : ℕ} (xs : List (String × SourceSpan)) (v : ℕ)
      → v + length xs ≤ n
      → Lowers env n (store_reassigned env cfg back_edges f xs v) IsDone
  unfolding store_reassigned effect_operands
  Lowers-store_reassigned [] v small = Lowers-give env tt IsDone (λ k le. tt)
  Lowers-store_reassigned ((x, at) ∷ more) v small = elim (Bool-cases (contains f.reassigned x)) [
    | inl own ↦ rw own (
        Lowers-then env _ _ IsDone
          (Lowers-emit_effect env (Ir.store_local at x v) (omega (arith, small), tt))
          (λ k le. Lowers-store_reassigned more (suc v) (omega (arith, small, le))))
    | inr other ↦ rw other (Lowers-store_reassigned more (suc v) (omega (arith, small)))
  ]

  Lowers-store_nonlocals :
      {n : ℕ} (d : Dict String Value)
      → AllValues n d
      → Lowers env n (store_nonlocals env cfg back_edges f d) IsDone
  unfolding store_nonlocals effect_operands
  Lowers-store_nonlocals [] h = Lowers-give env tt IsDone (λ k le. tt)
  Lowers-store_nonlocals {n = n} ((x, v) ∷ more) h = elim (Bool-cases (f.is_nonlocal x)) [
    | inl own ↦ rw own (
        Lowers-then env _ _ IsDone (Lowers-emit_effect env (Ir.store_local f.span x v) (h.0, tt))
          (λ k le. Lowers-store_nonlocals more (AllValues-mono n k more le h.1)))
    | inr other ↦ rw other (Lowers-store_nonlocals more h.1)
  ]

  pub AllValues-captured_values :
      (n : ℕ) (xs : List String) (v : ℕ) → v + length xs ≤ n → AllValues n (captured_values xs v)
  unfolding captured_values
  AllValues-captured_values n [] v small = tt
  AllValues-captured_values n (x ∷ more) v small =
      (omega (arith, small), AllValues-captured_values n more (suc v) (omega (arith, small)))

  Lowers-prologue :
      {n : ℕ} (id : BlockId)
      → length f.parameters + length f.captured ≤ n
      → Lowers env n (prologue env cfg back_edges f id) IsDone
  unfolding prologue
  Lowers-prologue {n = n} id small = elim (Bool-cases (id == cfg.entry)) [
    | inl entry ↦ rw entry (
        Lowers-then env _ _ IsDone (Lowers-store_reassigned f.parameters 0 (omega (arith, small)))
          (λ k le. Lowers-store_nonlocals (captured_values f.captured (length f.parameters)) (
            AllValues-captured_values k f.captured (length f.parameters)
              (omega (arith, small, le)))))
    | inr other ↦ rw other (Lowers-give env tt IsDone (λ k le. tt))
  ]

  Lowers-lower_body :
      {n : ℕ} (block : BasicBlock (hir T))
      → length f.parameters + length f.captured ≤ n
      → Lowers env n (lower_body env cfg back_edges f block) (IsEnd block.terminator)
  unfolding lower_body
  Lowers-lower_body block small =
      Lowers-then env _ _ (IsEnd block.terminator) (Lowers-prologue block.id small) (λ k le.
        Lowers-then env _ _ (IsEnd block.terminator) (Lowers-statements env block.statements)
          (λ k' le'. Lowers-terminator env cfg back_edges block.id block.terminator))

  -- A lowered block, between two counts.
  record IsBlockOf (block : BasicBlock (hir T)) (n k : ℕ) (b : Ir.BasicBlock T SourceSpan)
      : Type 0 where
    id : b.id ≡ block.id
    exceptions : b.exception_targets ≡ block.exception_targets
    leads : terminator_targets b.terminator ≡ targets block.terminator
    grows : n ≤ k
    defines : (v : Value) → count v (defined_values b.instructions) ≡ among n k v
    reads : IsRead k b.instructions
    ends : All (Below k) (terminator_operands b.terminator)

  -- What a method on blocks does.
  abbrev pub Blocks :
      {A : Type 0}
      → (A → ℕ → ℕ → Type 0)
      → Lowerer T
      → Result LoweringError (A × Lowerer T)
      → Type 0
  Blocks Q s (err e) = Unit {0}
  Blocks Q s (ok (a, s')) = IsGood env s' × Q a s.next_value_id s'.next_value_id

  lower_block_lem :
      (block : BasicBlock (hir T)) (s : Lowerer T)
      → length f.parameters + length f.captured ≤ s.next_value_id
      → IsGood env s
      → Blocks (λ b n k. IsBlockOf block n k b) s (lower_block env cfg back_edges f block s)
  unfolding lower_block Outcome count defined_values
  lower_block_lem block s small good = ended (lower_body env cfg back_edges f block s₀) (
      (Lowers-lower_body {n = s.next_value_id} block small).run s₀ (omega arith) (record {
        read = tt;
        iterators = good.iterators;
        contexts = good.contexts;
        parameters = good.parameters;
      }))
    where
      s₀ : Lowerer T
      s₀ = record s { instructions = [] }

      ended :
          (r : Result LoweringError (Ir.Terminator T SourceSpan × Lowerer T))
          → Outcome env (IsEnd block.terminator) s₀ r
          → Blocks
              (λ b n k. IsBlockOf block n k b)
              s
              (elim r as (λ _. Result LoweringError (Ir.BasicBlock T SourceSpan × Lowerer T)) [
                | err e ↦ err e
                | ok (end, s') ↦ ok (
                  record {
                    id = block.id;
                    instructions = s'.instructions;
                    terminator = end;
                    exception_targets = block.exception_targets;
                  },
                  s',
                )
              ])
      ended (err e) h = tt
      ended (ok (end, s')) h = (
        h.0,
        record {
          id = refl;
          exceptions = refl;
          leads = h.2.1;
          grows = h.1.grows;
          defines = λ v. omega (arith, h.1.defines v);
          reads = h.0.read;
          ends = h.2.0;
        },
      )

  pub lower_blocks_lem :
      (blocks : Dict BlockId (BasicBlock (hir T))) (s : Lowerer T)
      → length f.parameters + length f.captured ≤ s.next_value_id
      → IsGood env s
      → Blocks (AreBlocksOf blocks) s (lower_blocks env cfg back_edges f blocks s)
  unfolding lower_blocks block_values count
  lower_blocks_lem [] s small good = (
    good,
    record {
      grows = omega arith;
      same = tt;
      defines = λ v. among_self s.next_value_id v;
      reads = tt;
    },
  )
  lower_blocks_lem ((id, block) ∷ more) s small good =
      one (lower_block env cfg back_edges f block s) (lower_block_lem block s small good)
        (λ s₁ le good₁. lower_blocks_lem more s₁ (omega (arith, small, le)) good₁)
    where
      two :
          (b : Ir.BasicBlock T SourceSpan) (s₁ : Lowerer T)
          → IsBlockOf block s.next_value_id s₁.next_value_id b
          → (r : Result LoweringError (List (Ir.BasicBlock T SourceSpan) × Lowerer T))
          → Blocks (AreBlocksOf more) s₁ r
          → Blocks
              (AreBlocksOf ((id, block) ∷ more))
              s
              (elim r
                as (λ _. Result LoweringError (List (Ir.BasicBlock T SourceSpan) × Lowerer T)) [
                  | err e ↦ err e
                  | ok (bs, s₂) ↦ ok (b ∷ bs, s₂)
                ])
      two b s₁ h (err e) k = tt
      two b s₁ h (ok (bs, s₂)) (good₂, k) = (
        good₂,
        record {
          grows = omega (arith, h.grows, k.grows);
          same = ((h.id, h.leads, h.exceptions), k.same);
          defines = λ v. omega (
            arith,
            among_both s.next_value_id s₁.next_value_id s₂.next_value_id v 0
                (count v (defined_values b.instructions))
                (count v (defined_values b.instructions ++ block_values bs)) h.grows k.grows
                (omega (arith, h.defines v))
                (omega (
                  arith,
                  count-append v (defined_values b.instructions) (block_values bs),
                  k.defines v,
                )),
          );
          reads = (
            (
              IsRead-mono s₁.next_value_id s₂.next_value_id b.instructions k.grows h.reads,
              All-Below s₁.next_value_id s₂.next_value_id (terminator_operands b.terminator) k.grows
                  h.ends,
            ),
            k.reads,
          );
        },
      )

      one :
          (r : Result LoweringError (Ir.BasicBlock T SourceSpan × Lowerer T))
          → Blocks (λ b n k. IsBlockOf block n k b) s r
          → ((s₁ : Lowerer T)
              → s.next_value_id ≤ s₁.next_value_id
              → IsGood env s₁
              → Blocks (AreBlocksOf more) s₁ (lower_blocks env cfg back_edges f more s₁))
          → Blocks
              (AreBlocksOf ((id, block) ∷ more))
              s
              (elim r
                as (λ _. Result LoweringError (List (Ir.BasicBlock T SourceSpan) × Lowerer T)) [
                  | err e ↦ err e
                  | ok (b, s₁) ↦ (lower_blocks env cfg back_edges f more >>= λ bs. give (b ∷ bs)) s₁
                ])
      one (err e) h rest = tt
      one (ok (b, s₁)) (good₁, h) rest =
          two b s₁ h (lower_blocks env cfg back_edges f more s₁) (rest s₁ h.grows good₁)
