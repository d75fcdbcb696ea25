-- ===== src/Findings.antt =====
-- findings/model.py and source/model.py: a finding and where it is; and the lists that the findings
-- are parted into.
pub mod Baseline
pub mod Suppressions
pub mod Coverage
pub mod Spans
mod Tests
use coretrace_python_analyze.Base.{
  Dict, List, Option, String, [], list_eq, nat_eq, option_eq, pair_eq, string_eq, ℕ, ◌∷◌,
}

pub data Severity : Type 0 where
  info low medium high critical : Severity

pub data Confidence : Type 0 where
  low medium high : Confidence

pub record SourceSpan : Type 0 where
  pub source_id : String
  pub start_line : ℕ
  pub start_column : ℕ
  pub end_line : Option ℕ
  pub end_column : Option ℕ

pub record FileLocation : Type 0 where
  pub source_id : String
  pub pointer : String
  pub digest : String

pub data Location : Type 0 where
  lines : SourceSpan → Location
  file : FileLocation → Location

unfoldable pub source_of : Location → String
source_of (lines s) = s.source_id
source_of (file l) = l.source_id

pub record RelatedLocation : Type 0 where
  pub span : SourceSpan
  pub message : String

pub record Finding : Type 0 where
  pub rule_id : String
  pub message : String
  pub severity : Severity
  pub confidence : Confidence
  pub span : Location
  pub function : Option String
  pub metadata : Dict String String
  pub related : List RelatedLocation

-- `xs` dealt out to `fs` and `ss`, each in the order of `xs`.
pub data Deals {A : Type 0} (first : A → Type 0) (second : A → Type 0)
    : List A → List A → List A → Type 0 where
  done : Deals first second [] [] []
  to_first :
      {x : A} {xs fs ss : List A}
      → first x
      → Deals first second xs fs ss
      → Deals first second (x ∷ xs) (x ∷ fs) ss
  to_second :
      {x : A} {xs fs ss : List A}
      → second x
      → Deals first second xs fs ss
      → Deals first second (x ∷ xs) fs (x ∷ ss)
