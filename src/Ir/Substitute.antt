-- ===== src/Ir/Substitute.antt =====
-- The laws of `substitute`: what it does to operands and results, and that it composes.
use mathlib.Core.Option
use coretrace_python_analyze.Ir.{
  Value, ValueInstruction, EffectInstruction, Instruction, computes, affects, Terminator,
  from_option, seconds, firsts, both, map_second, map_first, map_both, renamed, value_operands,
  effect_operands, operands, terminator_operands, result_of, value_result, substitute_value,
  substitute_effect, substitute, substitute_terminator,
}
use coretrace_python_analyze.Ir
use coretrace_python_analyze.Base.{
  Bool, List, Option, [], list_eq, map, map-append, nat_eq, none, option_eq, pair_eq, refl, some,
  string_eq, ◌∷◌, ◌≡◌, ap,
}

from_option-map :
    (f : Value → Value) (o : Option Value) → from_option (Option.map f o) ≡ map f (from_option o)
from_option-map f none = refl
from_option-map f (some v) = refl

seconds-map_second :
    {A : Type 0} (f : Value → Value) (ps : List (A × Value))
    → seconds (map_second f ps) ≡ map f (seconds ps)
seconds-map_second f [] = refl
seconds-map_second f ((a, v) ∷ ps) = rw (seconds-map_second f ps)

firsts-map_first :
    {B : Type 0} (f : Value → Value) (ps : List (Value × B))
    → firsts (map_first f ps) ≡ map f (firsts ps)
firsts-map_first f [] = refl
firsts-map_first f ((v, b) ∷ ps) = rw (firsts-map_first f ps)

both-map_both :
    (f : Value → Value) (ps : List (Value × Value)) → both (map_both f ps) ≡ map f (both ps)
both-map_both f [] = refl
both-map_both f ((k, v) ∷ ps) = rw (both-map_both f ps)

ruleset field_laws =
    (from_option-map, seconds-map_second, firsts-map_first, both-map_both, map-append)

module _ {Const Span : Type 0} (f : Value → Value) where
  value_operands-substitute :
      (r : Bool) (i : ValueInstruction Const Span)
      → value_operands (substitute_value r f i) ≡ map f (value_operands i)
  unfolding value_operands substitute_value
  value_operands-substitute r (Ir.call _ _ _ _ _ _) = simp field_laws
  value_operands-substitute r (Ir.build_list _ _ _ _ _) = simp field_laws
  value_operands-substitute r (Ir.build_tuple _ _ _ _ _) = simp field_laws
  value_operands-substitute r (Ir.build_dict _ _ _ _) = simp field_laws
  value_operands-substitute r (Ir.build_set _ _ _ _) = simp field_laws
  value_operands-substitute r (Ir.build_slice _ _ _ _ _) = simp field_laws
  value_operands-substitute r (Ir.catch _ _ _) = simp field_laws
  value_operands-substitute r (Ir.yield _ _ _) = simp field_laws
  value_operands-substitute r (Ir.phi _ _ _ _) = simp field_laws
  value_operands-substitute r _ = refl

  effect_operands-substitute :
      (i : EffectInstruction Const Span)
      → effect_operands (substitute_effect f i) ≡ map f (effect_operands i)
  unfolding effect_operands substitute_effect
  effect_operands-substitute (Ir.assert _ _ _) = simp field_laws
  effect_operands-substitute _ = refl

  value_result-substitute :
      (r : Bool) (i : ValueInstruction Const Span)
      → value_result (substitute_value r f i) ≡ renamed r f (value_result i)
  unfolding value_result substitute_value
  value_result-substitute r (Ir.constant _ _ _) = refl
  value_result-substitute r _ = refl

  -- The operands of a substituted instruction are those of the instruction, each through `f`.
  pub operands-substitute :
      (r : Bool) (i : Instruction Const Span) → operands (substitute r f i) ≡ map f (operands i)
  unfolding operands substitute
  operands-substitute r (computes i) = value_operands-substitute r i
  operands-substitute r (affects i) = effect_operands-substitute i

  -- A substitution leaves the result, or passes it through `f` as well.
  pub result-substitute :
      (r : Bool) (i : Instruction Const Span)
      → result_of (substitute r f i) ≡ Option.map (renamed r f) (result_of i)
  unfolding result_of substitute
  result-substitute r (computes i) = ap some (value_result-substitute r i)
  result-substitute r (affects i) = refl

  pub terminator_operands-substitute :
      (r : Bool) (t : Terminator Const Span)
      → terminator_operands (substitute_terminator r f t) ≡ map f (terminator_operands t)
  unfolding terminator_operands substitute_terminator
  terminator_operands-substitute r (Ir.return _ _) = simp field_laws
  terminator_operands-substitute r (Ir.raise _ _ _) = simp field_laws
  terminator_operands-substitute r _ = refl

  -- Substitution passes every operand of an instruction or terminator through the mapping, in
  -- place, and an instruction's result too exactly if asked.
  pub substitute_lem :
      (r : Bool) (i : Instruction Const Span) (t : Terminator Const Span)
      → (operands (substitute r f i) ≡ map f (operands i))
        × (result_of (substitute r f i) ≡ Option.map (renamed r f) (result_of i))
        × (terminator_operands (substitute_terminator r f t) ≡ map f (terminator_operands t))
  substitute_lem r i t =
      (operands-substitute r i, result-substitute r i, terminator_operands-substitute r t)
