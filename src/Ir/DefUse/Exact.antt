-- ===== src/Ir/DefUse/Exact.antt =====
-- The chains of ir/defuse.py hold every use, and no other.
use coretrace_python_analyze.Cfg.{BlockId}
use coretrace_python_analyze.Ir.{
  Value, Instruction, BasicBlock, FunctionIr, operands, terminator_operands,
}
use coretrace_python_analyze.Ir.DefUse.{
  Use, DefUse, add_uses, scan_instructions, scan_blocks, def_use, define_parameters, uses_of,
}
use coretrace_python_analyze.Base.{
  ==_iff, Bool-cases, Dict, List, [], append-nil, append_assoc, get_or, get_or-put, if◌then◌else◌,
  inl, inr, list_eq, nat_eq, none, option_eq, pair_eq, put, refl, some, string_eq, suc, sym, ℕ,
  ◌++◌, ◌==◌, ◌∙◌, ◌∷◌, ◌≡◌, ap, get,
}

-- `use_`, for each operand that is `v`.
unfoldable pub each_use : Value → Use → List Value → List Use
each_use v use_ [] = []
each_use v use_ (o ∷ more) = let rest = each_use v use_ more in if v == o then use_ ∷ rest else rest

get_or-add_uses :
    (v : Value) (use_ : Use) (os : List Value) (uses : Dict Value (List Use))
    → get_or v [] (add_uses use_ os uses) ≡ get_or v [] uses ++ each_use v use_ os
unfolding add_uses each_use
get_or-add_uses v use_ [] uses = sym (append-nil (get_or v [] uses))
get_or-add_uses v use_ (o ∷ more) uses =
    get_or-add_uses v use_ more (put o (get_or o [] uses ++ use_ ∷ []) uses)
    ∙ (elim (Bool-cases (v == o)) [
      | inl same ↦
          rw (get_or-put o v (get_or o [] uses ++ use_ ∷ []) [] uses, same, ← (==_iff v o).0 same)
            (append_assoc (get_or v [] uses) (use_ ∷ []) (each_use v use_ more))
      | inr other ↦ rw (get_or-put o v (get_or o [] uses ++ use_ ∷ []) [] uses, other) refl
    ])

module _ {Const Span : Type 0} where
  unfoldable pub instruction_uses : Value → BlockId → ℕ → List (Instruction Const Span) → List Use
  unfolding each_use
  instruction_uses v block index [] = []
  instruction_uses v block index (i ∷ more) =
      each_use v (record { block = block; index = some index }) (operands i)
      ++ instruction_uses v block (suc index) more

  -- The uses of `v` in the order of the program: each instruction's, then the terminator's.
  unfoldable pub block_uses : Value → List (BasicBlock Const Span) → List Use
  unfolding instruction_uses each_use
  block_uses v [] = []
  block_uses v (b ∷ more) =
      instruction_uses v b.id 0 b.instructions
      ++ (each_use v (record { block = b.id; index = none }) (terminator_operands b.terminator)
          ++ block_uses v more)

  uses-scan_instructions :
      (v : Value) (block : BlockId) (index : ℕ) (is : List (Instruction Const Span))
      (found : DefUse)
      → uses_of (scan_instructions block index is found) v
        ≡ uses_of found v ++ instruction_uses v block index is
  unfolding scan_instructions instruction_uses
  uses-scan_instructions v block index [] found = sym (append-nil (uses_of found v))
  uses-scan_instructions v block index (i ∷ more) found =
      let use_ : Use = record { block = block; index = some index } in
      let later = instruction_uses v block (suc index) more in
      uses-scan_instructions v block (suc index) more _
      ∙ ap (λ us. us ++ later) (get_or-add_uses v use_ (operands i) found.uses)
      ∙ append_assoc (uses_of found v) (each_use v use_ (operands i)) later

  uses-scan_blocks :
      (v : Value) (bs : List (BasicBlock Const Span)) (found : DefUse)
      → uses_of (scan_blocks bs found) v ≡ uses_of found v ++ block_uses v bs
  unfolding scan_blocks block_uses
  uses-scan_blocks v [] found = sym (append-nil (uses_of found v))
  uses-scan_blocks v (b ∷ more) found =
      let use_ : Use = record { block = b.id; index = none } in
      let within = instruction_uses v b.id 0 b.instructions in
      let last = each_use v use_ (terminator_operands b.terminator) in
      uses-scan_blocks v more _
      ∙ ap (λ us. us ++ block_uses v more)
          (get_or-add_uses v use_ (terminator_operands b.terminator)
              (scan_instructions b.id 0 b.instructions found).uses
            ∙ ap (λ us. us ++ last) (uses-scan_instructions v b.id 0 b.instructions found))
      ∙ append_assoc (uses_of found v ++ within) last (block_uses v more)
      ∙ append_assoc (uses_of found v) within (last ++ block_uses v more)

  -- The uses that the chains give for a value are its uses in the program, each as often as it
  -- stands there and in the order of the program.
  pub uses-def_use :
      (v : Value) (f : FunctionIr Const Span) → uses_of (def_use f) v ≡ block_uses v f.blocks
  unfolding def_use
  uses-def_use v f =
      uses-scan_blocks v f.blocks
        (record { definitions = define_parameters f.parameters []; uses = [] })
      ∙ (unfold get_or get in refl)
