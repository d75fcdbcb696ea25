-- ===== src/Hir.antt =====
-- hir/nodes.py: expressions, patterns and statements of PyHIR, each class a constructor with the same
-- fields in the same order. A tuple of nodes is a data type of its own in the same block.
use coretrace_python_analyze.Findings.{SourceSpan}
use coretrace_python_analyze.Base.{
  Bool, List, Option, String, ℕ, list_eq, nat_eq, option_eq, pair_eq, string_eq,
}

-- `T` holds the values of constants.
module _ (T : Type 0) where
  mutual
    pub data Expression : Type 0 where
      name : (identifier : String) → (span : SourceSpan) → Expression
      constant : (value : T) → (span : SourceSpan) → Expression
      binary_op : (operator : String) → (left right : Expression) → (span : SourceSpan) → Expression
      unary_op : (operator : String) → (operand : Expression) → (span : SourceSpan) → Expression
      bool_op : (operator : String) → (values : Expressions) → (span : SourceSpan) → Expression
      compare : (operator : String) → (left right : Expression) → (span : SourceSpan) → Expression
      attribute : (value : Expression) → (attr : String) → (span : SourceSpan) → Expression
      subscript : (value key : Expression) → (span : SourceSpan) → Expression
      call :
          (callee : Expression)
          → (arguments : Expressions) → (keywords : Keywords) → (span : SourceSpan) → Expression
      tuple : (elements : Expressions) → (span : SourceSpan) → Expression
      list : (elements : Expressions) → (span : SourceSpan) → Expression
      dict : (items : Items) → (span : SourceSpan) → Expression
      formatted_string : (parts : Expressions) → (span : SourceSpan) → Expression
      slice : (lower upper step : Maybe) → (span : SourceSpan) → Expression
      starred : (value : Expression) → (span : SourceSpan) → Expression
      set : (elements : Expressions) → (span : SourceSpan) → Expression
      conditional : (test body orelse : Expression) → (span : SourceSpan) → Expression
      lambda : (parameters : Parameters) → (body : Expression) → (span : SourceSpan) → Expression
      await : (value : Expression) → (span : SourceSpan) → Expression
      yield : (value : Maybe) → (span : SourceSpan) → (delegate : Bool) → Expression
      named_expr :
          (target : String)
          → (target_span : SourceSpan) → (value : Expression) → (span : SourceSpan) → Expression
      comprehension :
          (kind : String)
          → (element : Expression) → (generators : Generators) → (span : SourceSpan) → (key : Maybe)
          → Expression

    pub data Expressions : Type 0 where
      nil : Expressions
      cons : Expression → Expressions → Expressions

    -- `Expression | None`
    pub data Maybe : Type 0 where
      absent : Maybe
      present : Expression → Maybe

    pub data Keywords : Type 0 where
      no_keywords : Keywords
      keyword :
          (argument : Option String)
          → (value : Expression) → (span : SourceSpan) → Keywords
          → Keywords

    pub data Items : Type 0 where
      no_items : Items
      item : (key : Maybe) → (value : Expression) → Items → Items

    pub data Parameters : Type 0 where
      no_parameters : Parameters
      parameter :
          (argument : String)
          → (span : SourceSpan) → (default : Maybe) → (kind : String) → (annotation : Maybe)
          → Parameters
          → Parameters

    pub data Generators : Type 0 where
      no_generators : Generators
      generator :
          (target iterable : Expression)
          → (conditions : Expressions) → (span : SourceSpan) → Generators
          → Generators

  mutual
    pub data Pattern : Type 0 where
      value_pattern : (value : Expression) → (span : SourceSpan) → Pattern
      singleton_pattern : (value : T) → (span : SourceSpan) → Pattern
      wildcard_pattern : (span : SourceSpan) → Pattern
      capture_pattern : (bound : String) → (span : SourceSpan) → Pattern
      -- A `CapturePattern` with a pattern: `<pattern> as name`.
      as_pattern : (bound : String) → (pattern : Pattern) → (span : SourceSpan) → Pattern
      or_pattern : (alternatives : Patterns) → (span : SourceSpan) → Pattern
      star_pattern : (bound : Option String) → (span : SourceSpan) → Pattern
      sequence_pattern : (patterns : Patterns) → (span : SourceSpan) → Pattern
      mapping_pattern : (entries : Entries) → (rest : Option String) → (span : SourceSpan) → Pattern
      class_pattern :
          (cls : Expression)
          → (patterns : Patterns) → (named : Attributes) → (span : SourceSpan) → Pattern
      unsupported_pattern : (kind : String) → (span : SourceSpan) → Pattern

    pub data Patterns : Type 0 where
      no_patterns : Patterns
      sub : Pattern → Patterns → Patterns

    -- The keys of a mapping pattern, each with its pattern.
    pub data Entries : Type 0 where
      no_entries : Entries
      entry : (key : Expression) → Pattern → Entries → Entries

    -- The names of a class pattern's keywords, each with its pattern.
    pub data Attributes : Type 0 where
      no_attributes : Attributes
      where_attribute : (attr : String) → Pattern → Attributes → Attributes

  pub record WithItem : Type 0 where
    pub context : Expression
    pub target : Option Expression
    pub span : SourceSpan

  pub record ImportAlias : Type 0 where
    pub imported : String
    pub as_name : Option String
    pub span : SourceSpan

  mutual
    pub data Statement : Type 0 where
      assign : (target value : Expression) → (span : SourceSpan) → Statement
      aug_assign :
          (target : Expression)
          → (operator : String) → (value : Expression) → (span : SourceSpan) → Statement
      return : (value : Maybe) → (span : SourceSpan) → Statement
      expression_statement : (expression : Expression) → (span : SourceSpan) → Statement
      pass : (span : SourceSpan) → Statement
      delete : (targets : Expressions) → (span : SourceSpan) → Statement
      match : (subject : Expression) → (cases : Cases) → (span : SourceSpan) → Statement
      declaration : (declared : String) → (annotation : Maybe) → (span : SourceSpan) → Statement
      assert : (test : Expression) → (message : Maybe) → (span : SourceSpan) → Statement
      if_statement :
          (condition : Expression) → (body orelse : Statements) → (span : SourceSpan) → Statement
      while_statement :
          (condition : Expression)
          → (body : Statements) → (span : SourceSpan) → (orelse : Statements) → Statement
      for_statement :
          (target : String)
          → (target_span : SourceSpan) → (iterable : Expression) → (body : Statements)
          → (is_async : Bool) → (span : SourceSpan) → (orelse : Statements) → Statement
      break : (span : SourceSpan) → Statement
      continue : (span : SourceSpan) → Statement
      raise : (exception : Maybe) → (span : SourceSpan) → (cause : Maybe) → Statement
      with_statement :
          (items : List WithItem)
          → (body : Statements) → (is_async : Bool) → (span : SourceSpan) → Statement
      enter_with : (item : WithItem) → (span : SourceSpan) → Statement
      exit_with : (item : WithItem) → (span : SourceSpan) → Statement
      try_statement :
          (body : Statements)
          → (handlers : Handlers) → (orelse finalbody : Statements) → (span : SourceSpan)
          → Statement
      enter_handler :
          (type : Maybe)
          → (bound : Option String) → (body : Statements) → (handler_span : SourceSpan)
          → (span : SourceSpan) → Statement
      import : (names : List ImportAlias) → (span : SourceSpan) → Statement
      import_from :
          (from_module : Option String)
          → (names : List ImportAlias) → (level : ℕ) → (span : SourceSpan) → Statement
      global : (names : List String) → (span : SourceSpan) → Statement
      nonlocal : (names : List String) → (span : SourceSpan) → Statement
      function :
          (name : String)
          → (parameters : Parameters) → (body : Statements) → (is_async : Bool)
          → (span : SourceSpan) → (decorators : Expressions) → Statement
      class :
          (name : String)
          → (bases : Expressions) → (body : Statements) → (span : SourceSpan)
          → (decorators : Expressions) → (keywords : Keywords) → Statement

    pub data Statements : Type 0 where
      empty : Statements
      first : Statement → Statements → Statements

    pub data Cases : Type 0 where
      no_cases : Cases
      case :
          (pattern : Pattern)
          → (guard : Maybe) → (body : Statements) → (span : SourceSpan) → Cases
          → Cases

    pub data Handlers : Type 0 where
      no_handlers : Handlers
      handler :
          (type : Maybe)
          → (bound : Option String) → (body : Statements) → (span : SourceSpan) → Handlers
          → Handlers
