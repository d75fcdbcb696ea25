-- ===== src/Findings/Tests.antt =====
-- A baseline and a suppression, against two findings.
use coretrace_python_analyze.Findings.{Finding, SourceSpan, Location, lines, medium, Deals}
use coretrace_python_analyze.Findings
use coretrace_python_analyze.Findings.Baseline.{
  Files, Fingerprint, fingerprint_eq, Baseline, fingerprint, of, key_of,
}
use coretrace_python_analyze.Findings.Baseline
use coretrace_python_analyze.Findings.Baseline.Partition.{
  having, having-partition, partition-first_come, first_come, partition-of,
}
use coretrace_python_analyze.Findings.Suppressions.{Reader}
use coretrace_python_analyze.Findings.Suppressions
use coretrace_python_analyze.Findings.Suppressions.Partition.{
  is_suppressed, partition-is_suppressed,
}
use coretrace_python_analyze.Findings.Spans.{
  IsEnd, make_span, make_span_iff, check_ends, check_end, ends_before_start,
}
use coretrace_python_analyze.Base.{
  ◌↔◌, ◌≤◌, ok, err, refl, List, [], count, false, get_or, list_eq, min, nat_eq, none, option_eq,
  pair_eq, some, string_eq, true, ℕ, ◌∷◌, ◌≡◌, arith,
}

abbrev at_line : ℕ → Finding
at_line n = record {
  rule_id = "R1";
  message = "m";
  severity = Findings.Severity.high;
  confidence = Findings.Confidence.high;
  span = lines (record {
    source_id = "a.py";
    start_line = n;
    start_column = 1;
    end_line = none;
    end_column = none;
  });
  function = none;
  metadata = [];
  related = [];
}

-- Every file has the same three lines.
abbrev files : Files
files = record {
  relative = λ p. p;
  lines_of = λ p. some ("x = 1" ∷ "y = 2" ∷ "x = 1" ∷ []);
  strip = λ l. l;
  shown = λ n. "?";
  text_digest = λ t. t;
}

abbrev both_lines : List Finding
both_lines = at_line 1 ∷ at_line 3 ∷ []

having-partition_example :
    having
      (key_of files (of files none (at_line 1 ∷ [])))
      (fingerprint files none (at_line 3))
      (Baseline.partition files (of files none (at_line 1 ∷ [])) both_lines).1
    ≡ min (get_or (fingerprint files none (at_line 3)) 0 (of files none (at_line 1 ∷ [])).entries) (
        having
          (key_of files (of files none (at_line 1 ∷ [])))
          (fingerprint files none (at_line 3))
          both_lines)
having-partition_example =
    having-partition files (of files none (at_line 1 ∷ [])) both_lines
      (fingerprint files none (at_line 3))

partition-first_come_example :
    Baseline.partition files (of files none (at_line 1 ∷ [])) both_lines
    ≡ first_come
        (key_of files (of files none (at_line 1 ∷ [])))
        (of files none (at_line 1 ∷ [])).entries
        []
        both_lines
partition-first_come_example =
    partition-first_come files (of files none (at_line 1 ∷ [])) both_lines

partition-of_example : (Baseline.partition files (of files none both_lines) (at_line 3 ∷ [])).0 ≡ []
partition-of_example =
    partition-of files none both_lines (at_line 3 ∷ []) (λ k. unfold count in omega arith)

-- A comment is its own marker, and names one rule.
abbrev reader : Reader
reader = record { comments = λ t. (3, t) ∷ []; marker = λ c. some (some c); named = λ t. t ∷ [] }

partition-is_suppressed_example :
    Deals
      (λ f. is_suppressed reader (λ id. some "R1") f ≡ false)
      (λ f. is_suppressed reader (λ id. some "R1") f ≡ true)
      both_lines
      (Suppressions.partition reader (λ id. some "R1") both_lines).0
      (Suppressions.partition reader (λ id. some "R1") both_lines).1
partition-is_suppressed_example = partition-is_suppressed reader (λ id. some "R1") both_lines

-- A range that ends on a later line, in an earlier column, and one that ends before it starts.
abbrev two_lines : SourceSpan
two_lines = record {
  source_id = "a.py";
  start_line = 3;
  start_column = 9;
  end_line = some 4;
  end_column = some 1;
}

abbrev backwards : SourceSpan
backwards = record two_lines { end_line = some 3 }

make_span_iff_example :
    (make_span two_lines ≡ ok two_lines) ↔ ((1 ≤ 3) × (1 ≤ 9) × IsEnd 3 9 (some 4) (some 1))
make_span_iff_example = make_span_iff two_lines

backwards_refused : make_span backwards ≡ err ends_before_start
unfolding make_span check_ends check_end
backwards_refused = refl
