-- ===== src/Ir.antt =====
-- ir/model.py: the instructions of PyIR, their operands, and substitution.
pub mod Substitute
pub mod DefUse
pub mod Lowering
mod Tests
use mathlib.Core.Option
use coretrace_python_analyze.Cfg.{BlockId, extend_new}
use coretrace_python_analyze.Base.{
  Bool, List, Option, String, [], if◌then◌else◌, list_eq, map, nat_eq, none, option_eq, pair_eq,
  some, string_eq, ℕ, ◌++◌, ◌∷◌,
}

abbrev pub Value : Type 0
Value = ℕ

-- A symbol by its canonical name.
abbrev pub SymbolId : Type 0
SymbolId = String

-- The constants of the language and the source spans, which instructions carry.
module _ (Const Span : Type 0) where
  -- Each has the value that it defines and its place.
  pub data ValueInstruction : Type 0 where
    constant : (result : Value) → Span → (value : Const) → ValueInstruction
    global : (result : Value) → Span → (name : String) → ValueInstruction
    symbol : (result : Value) → Span → (symbol_id : SymbolId) → ValueInstruction
    binary_op :
        (result : Value)
        → Span
        → (operator : String) → (left : Value) → (right : Value) → ValueInstruction
    unary_op : (result : Value) → Span → (operator : String) → (operand : Value) → ValueInstruction
    compare :
        (result : Value)
        → Span
        → (operator : String) → (left : Value) → (right : Value) → ValueInstruction
    call :
        (result : Value)
        → Span
        → (callee : Value) → (arguments : List Value) → (keywords : List (Option String × Value))
        → (starred : List Value) → ValueInstruction
    bool_op :
        (result : Value) → Span → (operator : String) → (values : List Value) → ValueInstruction
    build_list :
        (result : Value)
        → Span
        → (elements : List Value) → (unpacked : List Value) → (unpacked_at : List ℕ)
        → ValueInstruction
    build_tuple :
        (result : Value)
        → Span
        → (elements : List Value) → (unpacked : List Value) → (unpacked_at : List ℕ)
        → ValueInstruction
    build_dict :
        (result : Value)
        → Span
        → (items : List (Value × Value)) → (unpacked : List Value) → ValueInstruction
    build_set :
        (result : Value)
        → Span
        → (elements : List Value) → (unpacked : List Value) → ValueInstruction
    make_function :
        (result : Value) → Span → (name : String) → (captured : List Value) → ValueInstruction
    make_class : (result : Value) → Span → (name : String) → ValueInstruction
    build_string : (result : Value) → Span → (parts : List Value) → ValueInstruction
    build_slice :
        (result : Value)
        → Span
        → (lower : Option Value) → (upper : Option Value) → (step : Option Value) → ValueInstruction
    with_enter : (result : Value) → Span → (context : Value) → ValueInstruction
    catch : (result : Value) → Span → (kind : Option Value) → ValueInstruction
    await : (result : Value) → Span → (value : Value) → ValueInstruction
    yield : (result : Value) → Span → (value : Option Value) → ValueInstruction
    nonlocal_result :
        (result : Value)
        → Span
        → (invocation : Value) → (name : String) → (previous : Value) → ValueInstruction
    get_attr : (result : Value) → Span → (object : Value) → (attribute : String) → ValueInstruction
    get_item : (result : Value) → Span → (object : Value) → (key : Value) → ValueInstruction
    get_iter : (result : Value) → Span → (iterable : Value) → ValueInstruction
    load_local : (result : Value) → Span → (name : String) → ValueInstruction
    phi :
        (result : Value)
        → Span
        → (name : String) → (incoming : List (Value × BlockId)) → ValueInstruction
    undefined : (result : Value) → Span → (name : String) → ValueInstruction

  -- Each has its place, and defines nothing.
  pub data EffectInstruction : Type 0 where
    store_local : Span → (name : String) → (value : Value) → EffectInstruction
    set_attr : Span → (object : Value) → (attribute : String) → (value : Value) → EffectInstruction
    set_item : Span → (object : Value) → (key : Value) → (value : Value) → EffectInstruction
    with_exit : Span → (context : Value) → EffectInstruction
    assert : Span → (test : Value) → (message : Option Value) → EffectInstruction
    del_item : Span → (object : Value) → (key : Value) → EffectInstruction
    del_attr : Span → (object : Value) → (attribute : String) → EffectInstruction
    set_nonlocal : Span → (name : String) → (value : Value) → EffectInstruction
    set_global : Span → (name : String) → (value : Value) → EffectInstruction
    import :
        Span → (module_ : String) → (symbol_id : SymbolId) → (name : String) → EffectInstruction

  pub data Instruction : Type 0 where
    computes : ValueInstruction → Instruction
    affects : EffectInstruction → Instruction

  pub data Terminator : Type 0 where
    return : Span → (value : Option Value) → Terminator
    branch :
        Span → (condition : Value) → (then_block : BlockId) → (else_block : BlockId) → Terminator
    jump : Span → (target : BlockId) → Terminator
    raise : Span → (exception : Option Value) → (cause : Option Value) → Terminator
    for_next :
        Span
        → (iterator : Value) → (target : String) → (body : BlockId) → (exit : BlockId)
        → (result : Option Value) → Terminator

  pub record BasicBlock : Type 0 where
    pub id : BlockId
    pub instructions : List Instruction
    pub terminator : Terminator
    pub exception_targets : List BlockId

  pub record FunctionIr : Type 0 where
    pub name : String
    pub parameters : List Value
    pub entry : BlockId
    pub blocks : List BasicBlock
    pub location : Span

-- `_values_in` of a field, by the field's shape.
abbrev pub from_option : Option Value → List Value
from_option none = []
from_option (some v) = v ∷ []

abbrev pub seconds : {A : Type 0} → List (A × Value) → List Value
seconds ps = map (λ p. p.1) ps

abbrev pub firsts : {B : Type 0} → List (Value × B) → List Value
firsts ps = map (λ p. p.0) ps

abbrev pub both : List (Value × Value) → List Value
both [] = []
both ((k, v) ∷ ps) = k ∷ v ∷ both ps

-- `_map_values` of a field.
abbrev pub map_second : {A : Type 0} → (Value → Value) → List (A × Value) → List (A × Value)
map_second f [] = []
map_second f ((a, v) ∷ ps) = (a, f v) ∷ map_second f ps

abbrev pub map_first : {B : Type 0} → (Value → Value) → List (Value × B) → List (Value × B)
map_first f [] = []
map_first f ((v, b) ∷ ps) = (f v, b) ∷ map_first f ps

abbrev pub map_both : (Value → Value) → List (Value × Value) → List (Value × Value)
map_both f [] = []
map_both f ((k, v) ∷ ps) = (f k, f v) ∷ map_both f ps

-- A result, which is passed through `f` only if asked.
abbrev pub renamed : Bool → (Value → Value) → Value → Value
renamed include_result f v = if include_result then f v else v

module _ {Const Span : Type 0} where
  -- `Operands.operands`: the values of every field but `result`, in the fields' order.
  unfoldable pub value_operands : ValueInstruction Const Span → List Value
  value_operands (constant _ _ _) = []
  value_operands (global _ _ _) = []
  value_operands (symbol _ _ _) = []
  value_operands (binary_op _ _ _ left right) = left ∷ right ∷ []
  value_operands (unary_op _ _ _ operand) = operand ∷ []
  value_operands (compare _ _ _ left right) = left ∷ right ∷ []
  value_operands (call _ _ callee arguments keywords starred) =
      callee ∷ arguments ++ seconds keywords ++ starred
  value_operands (bool_op _ _ _ values) = values
  value_operands (build_list _ _ elements unpacked _) = elements ++ unpacked
  value_operands (build_tuple _ _ elements unpacked _) = elements ++ unpacked
  value_operands (build_dict _ _ items unpacked) = both items ++ unpacked
  value_operands (build_set _ _ elements unpacked) = elements ++ unpacked
  value_operands (make_function _ _ _ captured) = captured
  value_operands (make_class _ _ _) = []
  value_operands (build_string _ _ parts) = parts
  value_operands (build_slice _ _ lower upper step) =
      from_option lower ++ from_option upper ++ from_option step
  value_operands (with_enter _ _ context) = context ∷ []
  value_operands (catch _ _ kind) = from_option kind
  value_operands (await _ _ value) = value ∷ []
  value_operands (yield _ _ value) = from_option value
  value_operands (nonlocal_result _ _ invocation _ previous) = invocation ∷ previous ∷ []
  value_operands (get_attr _ _ object _) = object ∷ []
  value_operands (get_item _ _ object key) = object ∷ key ∷ []
  value_operands (get_iter _ _ iterable) = iterable ∷ []
  value_operands (load_local _ _ _) = []
  value_operands (phi _ _ _ incoming) = firsts incoming
  value_operands (undefined _ _ _) = []

  unfoldable pub effect_operands : EffectInstruction Const Span → List Value
  effect_operands (store_local _ _ value) = value ∷ []
  effect_operands (set_attr _ object _ value) = object ∷ value ∷ []
  effect_operands (set_item _ object key value) = object ∷ key ∷ value ∷ []
  effect_operands (with_exit _ context) = context ∷ []
  effect_operands (assert _ test message) = test ∷ from_option message
  effect_operands (del_item _ object key) = object ∷ key ∷ []
  effect_operands (del_attr _ object _) = object ∷ []
  effect_operands (set_nonlocal _ _ value) = value ∷ []
  effect_operands (set_global _ _ value) = value ∷ []
  effect_operands (import _ _ _ _) = []

  unfoldable pub operands : Instruction Const Span → List Value
  unfolding value_operands effect_operands
  operands (computes i) = value_operands i
  operands (affects i) = effect_operands i

  unfoldable pub terminator_operands : Terminator Const Span → List Value
  terminator_operands (return _ value) = from_option value
  terminator_operands (branch _ condition _ _) = condition ∷ []
  terminator_operands (jump _ _) = []
  terminator_operands (raise _ exception cause) = from_option exception ++ from_option cause
  terminator_operands (for_next _ iterator _ _ _ _) = iterator ∷ []

  unfoldable pub value_result : ValueInstruction Const Span → Value
  value_result (constant result _ _) = result
  value_result (global result _ _) = result
  value_result (symbol result _ _) = result
  value_result (binary_op result _ _ _ _) = result
  value_result (unary_op result _ _ _) = result
  value_result (compare result _ _ _ _) = result
  value_result (call result _ _ _ _ _) = result
  value_result (bool_op result _ _ _) = result
  value_result (build_list result _ _ _ _) = result
  value_result (build_tuple result _ _ _ _) = result
  value_result (build_dict result _ _ _) = result
  value_result (build_set result _ _ _) = result
  value_result (make_function result _ _ _) = result
  value_result (make_class result _ _) = result
  value_result (build_string result _ _) = result
  value_result (build_slice result _ _ _ _) = result
  value_result (with_enter result _ _) = result
  value_result (catch result _ _) = result
  value_result (await result _ _) = result
  value_result (yield result _ _) = result
  value_result (nonlocal_result result _ _ _ _) = result
  value_result (get_attr result _ _ _) = result
  value_result (get_item result _ _ _) = result
  value_result (get_iter result _ _) = result
  value_result (load_local result _ _) = result
  value_result (phi result _ _ _) = result
  value_result (undefined result _ _) = result

  unfoldable pub result_of : Instruction Const Span → Option Value
  unfolding value_result
  result_of (computes i) = some (value_result i)
  result_of (affects _) = none

  -- `substitute`: every operand, and the result if asked, through `f`.
  unfoldable pub substitute_value :
      Bool → (Value → Value) → ValueInstruction Const Span → ValueInstruction Const Span
  substitute_value r f (constant result at value) = constant (renamed r f result) at value
  substitute_value r f (global result at name) = global (renamed r f result) at name
  substitute_value r f (symbol result at symbol_id) = symbol (renamed r f result) at symbol_id
  substitute_value r f (binary_op result at operator left right) =
      binary_op (renamed r f result) at operator (f left) (f right)
  substitute_value r f (unary_op result at operator operand) =
      unary_op (renamed r f result) at operator (f operand)
  substitute_value r f (compare result at operator left right) =
      compare (renamed r f result) at operator (f left) (f right)
  substitute_value r f (call result at callee arguments keywords starred) =
      call (renamed r f result) at (f callee) (map f arguments) (map_second f keywords)
        (map f starred)
  substitute_value r f (bool_op result at operator values) =
      bool_op (renamed r f result) at operator (map f values)
  substitute_value r f (build_list result at elements unpacked unpacked_at) =
      build_list (renamed r f result) at (map f elements) (map f unpacked) unpacked_at
  substitute_value r f (build_tuple result at elements unpacked unpacked_at) =
      build_tuple (renamed r f result) at (map f elements) (map f unpacked) unpacked_at
  substitute_value r f (build_dict result at items unpacked) =
      build_dict (renamed r f result) at (map_both f items) (map f unpacked)
  substitute_value r f (build_set result at elements unpacked) =
      build_set (renamed r f result) at (map f elements) (map f unpacked)
  substitute_value r f (make_function result at name captured) =
      make_function (renamed r f result) at name (map f captured)
  substitute_value r f (make_class result at name) = make_class (renamed r f result) at name
  substitute_value r f (build_string result at parts) =
      build_string (renamed r f result) at (map f parts)
  substitute_value r f (build_slice result at lower upper step) =
      build_slice (renamed r f result) at (Option.map f lower) (Option.map f upper)
        (Option.map f step)
  substitute_value r f (with_enter result at context) =
      with_enter (renamed r f result) at (f context)
  substitute_value r f (catch result at kind) = catch (renamed r f result) at (Option.map f kind)
  substitute_value r f (await result at value) = await (renamed r f result) at (f value)
  substitute_value r f (yield result at value) = yield (renamed r f result) at (Option.map f value)
  substitute_value r f (nonlocal_result result at invocation name previous) =
      nonlocal_result (renamed r f result) at (f invocation) name (f previous)
  substitute_value r f (get_attr result at object attribute) =
      get_attr (renamed r f result) at (f object) attribute
  substitute_value r f (get_item result at object key) =
      get_item (renamed r f result) at (f object) (f key)
  substitute_value r f (get_iter result at iterable) = get_iter (renamed r f result) at (f iterable)
  substitute_value r f (load_local result at name) = load_local (renamed r f result) at name
  substitute_value r f (phi result at name incoming) =
      phi (renamed r f result) at name (map_first f incoming)
  substitute_value r f (undefined result at name) = undefined (renamed r f result) at name

  unfoldable pub substitute_effect :
      (Value → Value) → EffectInstruction Const Span → EffectInstruction Const Span
  substitute_effect f (store_local at name value) = store_local at name (f value)
  substitute_effect f (set_attr at object attribute value) =
      set_attr at (f object) attribute (f value)
  substitute_effect f (set_item at object key value) = set_item at (f object) (f key) (f value)
  substitute_effect f (with_exit at context) = with_exit at (f context)
  substitute_effect f (assert at test message) = assert at (f test) (Option.map f message)
  substitute_effect f (del_item at object key) = del_item at (f object) (f key)
  substitute_effect f (del_attr at object attribute) = del_attr at (f object) attribute
  substitute_effect f (set_nonlocal at name value) = set_nonlocal at name (f value)
  substitute_effect f (set_global at name value) = set_global at name (f value)
  substitute_effect f (import at module_ symbol_id name) = import at module_ symbol_id name

  unfoldable pub substitute :
      Bool → (Value → Value) → Instruction Const Span → Instruction Const Span
  unfolding substitute_value substitute_effect
  substitute r f (computes i) = computes (substitute_value r f i)
  substitute r f (affects i) = affects (substitute_effect f i)

  unfoldable pub substitute_terminator :
      Bool → (Value → Value) → Terminator Const Span → Terminator Const Span
  substitute_terminator r f (return at value) = return at (Option.map f value)
  substitute_terminator r f (branch at condition then_block else_block) =
      branch at (f condition) then_block else_block
  substitute_terminator r f (jump at target) = jump at target
  substitute_terminator r f (raise at exception cause) =
      raise at (Option.map f exception) (Option.map f cause)
  substitute_terminator r f (for_next at iterator target body exit result) =
      for_next at (f iterator) target body exit (Option.map (renamed r f) result)

  unfoldable pub terminator_targets : Terminator Const Span → List BlockId
  terminator_targets (return _ _) = []
  terminator_targets (branch _ _ then_block else_block) = then_block ∷ else_block ∷ []
  terminator_targets (jump _ target) = target ∷ []
  terminator_targets (raise _ _ _) = []
  terminator_targets (for_next _ _ _ body exit _) = body ∷ exit ∷ []

  -- Terminator targets followed by the exception edges of the block.
  unfoldable pub successors : BasicBlock Const Span → List BlockId
  unfolding terminator_targets extend_new
  successors b = extend_new (terminator_targets b.terminator) b.exception_targets
