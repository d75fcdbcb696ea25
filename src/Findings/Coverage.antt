-- ===== src/Findings/Coverage.antt =====
-- findings/coverage.py: which files and functions a run looked at.
use coretrace_python_analyze.Base.{
  List, String, [], if◌then◌else◌, length, list_eq, nat_eq, option_eq, pair_eq, string_eq, ℕ, ◌+◌,
  ◌==◌, ◌∷◌,
}

pub record FileCoverage : Type 0 where
  pub path : String
  pub status : String
  pub functions : ℕ
  pub analysed : ℕ

pub record Coverage : Type 0 where
  pub details : List FileCoverage
  pub unread_templates : List String

unfoldable pub files : Coverage → ℕ
files c = length c.details

unfoldable pub count_analysed : List FileCoverage → ℕ
count_analysed [] = 0
count_analysed (d ∷ more) = (if d.status == "analysed" then 1 else 0) + count_analysed more

unfoldable pub files_analysed : Coverage → ℕ
unfolding count_analysed
files_analysed c = count_analysed c.details

unfoldable pub sum_of : (FileCoverage → ℕ) → List FileCoverage → ℕ
sum_of f [] = 0
sum_of f (d ∷ more) = f d + sum_of f more

unfoldable pub functions : Coverage → ℕ
unfolding sum_of
functions c = sum_of (λ (d : FileCoverage). d.functions) c.details

unfoldable pub functions_analysed : Coverage → ℕ
unfolding sum_of
functions_analysed c = sum_of (λ (d : FileCoverage). d.analysed) c.details
