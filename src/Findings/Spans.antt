-- ===== src/Findings/Spans.antt =====
-- The constructor of a span, `SourceSpan.__post_init__` of source/model.py.
use coretrace_python_analyze.Findings.{SourceSpan}
use coretrace_python_analyze.Base.{
  Option, Result, none, some, ok, err, ℕ, ltb, eqb, ◌<◌, ◌≤◌, ◌≡◌, ◌⊎◌, ◌↔◌, refl, if◌then◌else◌,
  arith,
}

-- The `ValueError`s, by what they say; the last may be raised at two places.
pub data SpanError : Type 0 where
  not_one_based half_an_end ends_before_start : SpanError

-- The tests where the end line and the end column are given.
unfoldable pub check_end : SourceSpan → ℕ → ℕ → Result SpanError SourceSpan
check_end s end_line end_column =
    if ltb end_line s.start_line
    then err ends_before_start
    else if eqb end_line s.start_line
    then (if ltb end_column s.start_column then err ends_before_start else ok s)
    else ok s

-- The tests of the two ends: it is refused that one is given and the other is not.
unfoldable pub check_ends : SourceSpan → Option ℕ → Option ℕ → Result SpanError SourceSpan
unfolding check_end
check_ends s none none = ok s
check_ends s none (some _) = err half_an_end
check_ends s (some _) none = err half_an_end
check_ends s (some end_line) (some end_column) = check_end s end_line end_column

unfoldable pub make_span : SourceSpan → Result SpanError SourceSpan
unfolding check_ends
make_span s =
    let ends = check_ends s s.end_line s.end_column in
    if ltb s.start_line 1
    then err not_one_based
    else if ltb s.start_column 1
    then err not_one_based
    else ends

-- From the start, `end` comes later or is the same place, in the order of lines, then columns.
abbrev pub IsFrom : ℕ → ℕ → ℕ → ℕ → Type 0
IsFrom line column end_line end_column =
    (line < end_line) ⊎ ((line ≡ end_line) × (column ≤ end_column))

abbrev pub IsEnd : ℕ → ℕ → Option ℕ → Option ℕ → Type 0
IsEnd line column none none = Unit {0}
IsEnd line column none (some _) = ⊥
IsEnd line column (some _) none = ⊥
IsEnd line column (some end_line) (some end_column) = IsFrom line column end_line end_column

module _ (s : SourceSpan) where
  check_end-IsFrom : (l c : ℕ) → (check_end s l c ≡ ok s) ↔ IsFrom s.start_line s.start_column l c
  unfolding check_end
  check_end-IsFrom l c = (λ h. ground arith, λ h. ground arith)

  check_ends-IsEnd :
      (l c : Option ℕ) → (check_ends s l c ≡ ok s) ↔ IsEnd s.start_line s.start_column l c
  unfolding check_ends
  check_ends-IsEnd none none = (λ h. tt, λ h. refl)
  check_ends-IsEnd none (some _) = (λ h. cc, λ h. absurd h)
  check_ends-IsEnd (some _) none = (λ h. cc, λ h. absurd h)
  check_ends-IsEnd (some l) (some c) = check_end-IsFrom l c

  -- The constructor of a span returns it exactly where its line and column are one or more and
  -- either it has no end line and no end column, or it has both and the end is, in the order of
  -- lines and then columns, not before the start.
  pub make_span_iff : (make_span s ≡ ok s) ↔ (
      (1 ≤ s.start_line)
      × (1 ≤ s.start_column)
      × IsEnd s.start_line s.start_column s.end_line s.end_column)
  unfolding make_span
  make_span_iff =
      let (sound, complete) = check_ends-IsEnd s.end_line s.end_column in
      (
        λ h. ground (arith, sound),
        λ (first, column, ends). ground (arith, first, column, complete ends),
      )
