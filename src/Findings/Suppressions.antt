-- ===== src/Findings/Suppressions.antt =====
-- findings/suppressions.py: the findings that a comment on their line silences.
pub mod Partition
use coretrace_python_analyze.Findings.{Finding, Location, lines, file, SourceSpan}
use coretrace_python_analyze.Base.{
  Bool, Dict, List, Option, String, [], contains, false, get, if◌then◌else◌, list_eq, nat_eq, none,
  option_eq, pair_eq, put, some, string_eq, true, union, ℕ, ◌∷◌,
}

-- What Python's `tokenize` and `re` give: the comments of a text with their lines; whether a comment
-- has the marker, and the text in its brackets, if it has any; the rules that such a text names.
pub record Reader : Type 0 where
  pub comments : String → List (ℕ × String)
  pub marker : String → Option (Option String)
  pub named : String → List String

-- Line number to the suppressed rules, `none` meaning every rule.
abbrev pub Suppressions : Type 0
Suppressions = Dict ℕ (Option (List String))

-- `rules is None or finding.rule_id in rules`, of `get(line, frozenset())`
abbrev pub silences : Option (Option (List String)) → String → Bool
silences none rule = false
silences (some none) rule = true
silences (some (some rules)) rule = contains rules rule

unfoldable pub is_silenced : Suppressions → ℕ → String → Bool
is_silenced found line rule = silences (get line found) rule

module _ (reader : Reader) where
  -- A comment of `line`, by its marker.
  unfoldable pub suppress : Suppressions → ℕ → Option (Option String) → Suppressions
  suppress found line none = found
  suppress found line (some none) = put line none found
  suppress found line (some (some rules)) = elim (get line found) [
    | none ↦ put line (some (union [] (reader.named rules))) found
    | some none ↦ found
    | some (some listed) ↦ put line (some (union listed (reader.named rules))) found
  ]

  unfoldable pub suppress_all : Suppressions → List (ℕ × String) → Suppressions
  unfolding suppress
  suppress_all found [] = found
  suppress_all found ((line, comment) ∷ rest) =
      suppress_all (suppress found line (reader.marker comment)) rest

  unfoldable pub suppressions_in : String → Suppressions
  unfolding suppress_all
  suppressions_in text = suppress_all [] (reader.comments text)

  unfoldable pub of_text : Option String → Suppressions
  of_text none = []
  of_text (some text) = suppressions_in text

  -- The file's suppressions, from the cache or from its text, and the cache then.
  unfoldable pub look_up :
      (String → Option String)
      → Dict String Suppressions
      → String
      → Suppressions × Dict String Suppressions
  unfolding of_text
  look_up text_of cache id = elim (get id cache) [
    | some found ↦ (found, cache)
    | none ↦ (let found = of_text (text_of id) in (found, put id found cache))
  ]

  -- The loop of `partition`, with its cache: the kept ones, and the suppressed ones.
  unfoldable pub partition_from :
      (String → Option String)
      → Dict String Suppressions
      → List Finding
      → List Finding × List Finding
  unfolding is_silenced look_up
  partition_from text_of cache [] = ([], [])
  partition_from text_of cache (f ∷ fs) = elim f.span [
    | file _ ↦ (let rest = partition_from text_of cache fs in (f ∷ rest.0, rest.1))
    | lines span ↦
        let read = look_up text_of cache span.source_id in
        let rest = partition_from text_of read.1 fs in
        if is_silenced read.0 span.start_line f.rule_id
        then (rest.0, f ∷ rest.1)
        else (f ∷ rest.0, rest.1)
  ]

  unfoldable pub partition : (String → Option String) → List Finding → List Finding × List Finding
  unfolding partition_from
  partition text_of findings = partition_from text_of [] findings
