-- ===== src/Ir/Lowering/Once.antt =====
-- `function` of ir/lowering.py keeps the graph, defines each value once, and reads what it defines.
use coretrace_python_analyze.Ir
use coretrace_python_analyze.Ir.{
  Value, Instruction, FunctionIr, operands, terminator_operands, terminator_targets,
  effect_operands,
}
use coretrace_python_analyze.Findings.{SourceSpan}
use coretrace_python_analyze.Cfg.{Cfg, BlockId}
use coretrace_python_analyze.Cfg.Builder.Layout.{hir}
use coretrace_python_analyze.Ir.Lowering.{LoweringError, Scoping, Texts, Environment, Lowerer}
use coretrace_python_analyze.Ir.Lowering.Functions.{
  Subject, values_from, kept_parameters, captured_values, add_captured, environment, lower_blocks,
  function,
}
use coretrace_python_analyze.Ir.Lowering.Counted.{
  Below, All-Below-append, AllValues, AllValues-put, IsRead, among, among_both, among_first,
}
use coretrace_python_analyze.Base.{
  All, Bool, Dict, List, [], ◌∷◌, ◌++◌, String, ℕ, zero, suc, ◌+◌, ◌≤◌, ◌≡◌, arith, refl, put,
  contains, length, string_eq, pair_eq, nat_eq, option_eq, list_eq, Bool-cases, inl, inr, Result,
  ok, err, count, count-append,
}
use coretrace_python_analyze.Ir.Lowering.Blocks.{
  block_values, Corresponds, AllRead, AreBlocksOf, AllValues-captured_values, Blocks,
  lower_blocks_lem,
}

-- The parameters are the first values.
count-values_from :
    (first n : ℕ) (v : Value) → count v (values_from first n) ≡ among first (first + n) v
unfolding values_from count
count-values_from first zero v = ground arith
count-values_from first (suc n) v = omega (
  arith,
  among_first first (first + suc n) v 0 (count v (values_from (suc first) n))
      (count v (values_from first (suc n))) (omega arith)
      (ground (arith, count-values_from (suc first) n v)) (omega arith),
)

AllValues-kept :
    (n : ℕ) (reassigned : List String) (xs : List (String × SourceSpan)) (v : ℕ)
    (d : Dict String Value)
    → v + length xs ≤ n
    → AllValues n d
    → AllValues n (kept_parameters reassigned xs v d)
unfolding kept_parameters
AllValues-kept n reassigned [] v d small h = h
AllValues-kept n reassigned ((x, at) ∷ more) v d small h =
    elim (Bool-cases (contains reassigned x)) [
      | inl own ↦ rw own (AllValues-kept n reassigned more (suc v) d (omega (arith, small)) h)
      | inr other ↦ rw other (
          AllValues-kept n reassigned more (suc v) (put x v d) (omega (arith, small))
            (AllValues-put n x v d (omega (arith, small)) h))
    ]

AllValues-add_captured :
    (n : ℕ) (is_nonlocal : String → Bool) (c d : Dict String Value)
    → AllValues n c
    → AllValues n d
    → AllValues n (add_captured is_nonlocal c d)
unfolding add_captured
AllValues-add_captured n is_nonlocal [] d h k = k
AllValues-add_captured n is_nonlocal ((x, v) ∷ more) d h k = elim (Bool-cases (is_nonlocal x)) [
  | inl own ↦ rw own (AllValues-add_captured n is_nonlocal more d h.1 k)
  | inr other ↦
      rw other
        (AllValues-add_captured n is_nonlocal more (put x v d) h.1 (AllValues-put n x v d h.0 k))
]

All-counted :
    (k : ℕ) (all vs : List Value)
    → ((v : Value) → count v all ≡ among 0 k v)
    → All (Below k) vs
    → All (λ v. count v all ≡ 1) vs
All-counted k all [] h b = tt
All-counted k all (v ∷ vs) h b = (ground (arith, h v, b.0), All-counted k all vs h b.1)

module _ {T : Type 0} where
  -- What a function defines: its parameters, and the results of its instructions.
  abbrev pub function_values : FunctionIr T SourceSpan → List Value
  function_values ir = ir.parameters ++ block_values ir.blocks

  -- What its instructions and terminators read.
  abbrev pub read_by : List (Instruction T SourceSpan) → List Value
  read_by [] = []
  read_by (i ∷ more) = operands i ++ read_by more

  abbrev pub function_reads : List (Ir.BasicBlock T SourceSpan) → List Value
  function_reads [] = []
  function_reads (b ∷ bs) =
      (read_by b.instructions ++ terminator_operands b.terminator) ++ function_reads bs

  All-Below-read_by :
      (k : ℕ) (is : List (Instruction T SourceSpan)) → IsRead k is → All (Below k) (read_by is)
  All-Below-read_by k [] h = tt
  All-Below-read_by k (i ∷ is) h =
      All-Below-append k (operands i) (read_by is) h.0 (All-Below-read_by k is h.1)

  All-Below-function_reads :
      (k : ℕ) (bs : List (Ir.BasicBlock T SourceSpan))
      → AllRead k bs
      → All (Below k) (function_reads bs)
  All-Below-function_reads k [] h = tt
  All-Below-function_reads k (b ∷ bs) h =
      All-Below-append k (read_by b.instructions ++ terminator_operands b.terminator)
        (function_reads bs)
        (All-Below-append k (read_by b.instructions) (terminator_operands b.terminator)
          (All-Below-read_by k b.instructions h.0.0) h.0.1)
        (All-Below-function_reads k bs h.1)

  pub record IsLowered (cfg : Cfg (hir T)) (ir : FunctionIr T SourceSpan) : Type 0 where
    pub entry : ir.entry ≡ cfg.entry
    pub same : Corresponds cfg.blocks ir.blocks
    pub once : (v : Value) → count v (function_values ir) ≤ 1
    pub defined : All (λ v. count v (function_values ir) ≡ 1) (function_reads ir.blocks)

  -- Lowering fails, or keeps what the graph says.
  abbrev pub Lowered : Cfg (hir T) → Result LoweringError (FunctionIr T SourceSpan) → Type 0
  Lowered cfg (err e) = Unit {0}
  Lowered cfg (ok ir) = IsLowered cfg ir

  -- Where a function is lowered without an error, the blocks are those of its graph in the same
  -- order, with the same ids, terminator targets and exception targets; no value is defined twice,
  -- by the parameters and all the instructions; and whatever an instruction or a terminator reads
  -- is defined by one of them, exactly once.
  pub function-Lowered :
      (scoping : Scoping T) (texts : Texts T) (f : Subject) (cfg : Cfg (hir T))
      (back_edges : List (BlockId × BlockId))
      → Lowered cfg (function scoping texts f cfg back_edges)
  unfolding function environment
  function-Lowered scoping texts f cfg back_edges =
      made (lower_blocks env cfg back_edges f cfg.blocks start) (
        lower_blocks_lem env cfg back_edges f cfg.blocks start (omega arith) (record {
          read = tt;
          iterators = tt;
          contexts = tt;
          parameters =
              AllValues-add_captured total f.is_nonlocal captured _
                (AllValues-captured_values env cfg back_edges f total f.captured
                  (length f.parameters) (omega arith))
                (AllValues-kept total f.reassigned f.parameters 0 [] (omega arith) tt);
        }))
    where
      env : Environment T
      env = environment scoping texts f cfg.synthetic_locals

      total : ℕ
      total = length f.parameters + length f.captured

      captured : Dict String Value
      captured = captured_values f.captured (length f.parameters)

      start : Lowerer T
      start = record {
        next_value_id = total;
        instructions = [];
        iterators = [];
        contexts = [];
        nested_defs = [];
      }

      made :
          (r : Result LoweringError (List (Ir.BasicBlock T SourceSpan) × Lowerer T))
          → Blocks env cfg back_edges f (AreBlocksOf cfg.blocks) start r
          → Lowered cfg (elim r as (λ _. Result LoweringError (FunctionIr T SourceSpan)) [
            | err e ↦ err e
            | ok (blocks, _) ↦ ok (record {
              name = f.qualified_name;
              parameters = values_from 0 total;
              entry = cfg.entry;
              blocks = blocks;
              location = f.span;
            })
          ])
      made (err e) h = tt
      made (ok (bs, s)) (good, h) =
          let counted : (v : Value)
              → count v (values_from 0 total ++ block_values bs) ≡ among 0 s.next_value_id v =
            λ v. omega (
              arith,
              among_both 0 total s.next_value_id v 0 (count v (values_from 0 total))
                  (count v (values_from 0 total ++ block_values bs)) (omega arith) h.grows
                  (ground (arith, count-values_from 0 total v))
                  (omega
                    (arith, count-append v (values_from 0 total) (block_values bs), h.defines v)),
            ) in
          record {
            entry = refl;
            same = h.same;
            once = λ v. ground (arith, counted v);
            defined =
                All-counted s.next_value_id (values_from 0 total ++ block_values bs)
                  (function_reads bs) counted (All-Below-function_reads s.next_value_id bs h.reads);
          }
