-- ===== src/Findings/Baseline.antt =====
-- findings/baseline.py: the fingerprints of findings, the entries that a baseline counts, and the
-- findings that are new against it.
pub mod Partition
use Prim.Native.String.{◌++◌ as append}
use coretrace_python_analyze.Findings.{Finding, lines, file, source_of, SourceSpan}
use coretrace_python_analyze.Base.{
  Bool, Dict, Eq, List, Option, String, [], contains, eqb, false, get_or, if◌then◌else◌, length,
  list_eq, ltb, map, nat_eq, none, option_eq, pair_eq, put, some, string_eq, suc, true, ℕ, ◌-◌, ◌∷◌,
  drop, take,
}

-- What is read of the files and of Python: a path relative to the root, or as it is when it does not
-- lie there; the lines of a file that can be read and decoded; `strip` and `str`; the digest of a text.
pub record Files : Type 0 where
  pub relative : String → String
  pub lines_of : String → Option (List String)
  pub strip : String → String
  pub shown : ℕ → String
  pub text_digest : String → String

-- A key, by its digest.
abbrev pub Key : Type 0
Key = String → String

abbrev pub Fingerprint : Type 0
Fingerprint = String × (String × (String × (String × String)))

instance abbrev pub fingerprint_eq : Eq Fingerprint
fingerprint_eq = pair_eq

-- `(*head, digest, pointer)`
abbrev pub headed : String × (String × String) → String → String → Fingerprint
headed head digest pointer = (head.0, (head.1.0, (head.1.1, (digest, pointer))))

unfoldable pub join_lines : List String → String
join_lines [] = ""
join_lines (l ∷ []) = l
join_lines (l ∷ k ∷ ls) = append l (append "\n" (join_lines (k ∷ ls)))

module _ (files : Files) where
  unfoldable pub span_text : String → SourceSpan → String
  unfolding join_lines
  span_text path span = elim (files.lines_of path) [
    | none ↦ files.shown span.start_line
    | some ls ↦
        let end : ℕ = elim span.end_line [
          | none ↦ span.start_line
          | some e ↦ if eqb e 0 then span.start_line else e
        ] in
        if ltb (length ls) span.start_line
        then files.shown span.start_line
        else join_lines (map files.strip (drop (span.start_line - 1) (take end ls)))
  ]

  unfoldable pub head_of : Finding → String × (String × String)
  head_of f = (
    files.relative (source_of f.span),
    (f.rule_id, elim f.function [ none ↦ "" | some name ↦ name ]),
  )

  unfoldable pub fingerprint : Option Key → Finding → Fingerprint
  unfolding head_of
  fingerprint key f =
      let digest : String → String = elim key [ none ↦ files.text_digest | some k ↦ k ] in
      elim f.span [
        | lines span ↦ headed (head_of f) (digest (span_text (source_of f.span) span)) ""
        | file l ↦
            headed (head_of f) (elim key [ none ↦ l.digest | some k ↦ k l.digest ])
              (digest l.pointer)
      ]

  unfoldable pub legacy_fingerprint : Finding → Option Fingerprint
  unfolding head_of
  legacy_fingerprint f = elim f.span [
    | file l ↦ some (headed (head_of f) l.digest l.pointer)
    | lines span ↦
        let written = some (headed (head_of f) (span_text (source_of f.span) span) "") in
        elim span.end_line [
          | none ↦ written
          | some e ↦ if eqb e span.start_line then written else none
        ]
  ]

pub record Baseline : Type 0 where
  pub entries : Dict Fingerprint ℕ
  pub schema : ℕ
  pub key : Option Key

abbrev pub baseline_schema : ℕ
baseline_schema = 3

abbrev pub keyed_schema : ℕ
keyed_schema = 4

abbrev pub legacy_schemas : List ℕ
legacy_schemas = 1 ∷ 2 ∷ []

module _ {K : Type 0} ⦃e : Eq K⦄ where
  -- `Counter(ks)`, from a counter.
  unfoldable pub counted : Dict K ℕ → List K → Dict K ℕ
  counted entries [] = entries
  counted entries (k ∷ ks) = counted (put k (suc (get_or k 0 entries)) entries) ks

  -- Whether an entry is left for the fingerprint, and what then remains.
  unfoldable pub account : Option K → Dict K ℕ → Bool × Dict K ℕ
  account none remaining = (false, remaining)
  account (some k) remaining =
      if ltb 0 (get_or k 0 remaining)
      then (true, put k (get_or k 0 remaining - 1) remaining)
      else (false, remaining)

  -- The loop of `partition`: the new ones, and those that an entry accounts for.
  unfoldable pub partition_by : {A : Type 0} → (A → Option K) → Dict K ℕ → List A → List A × List A
  unfolding account
  partition_by key_of remaining [] = ([], [])
  partition_by key_of remaining (x ∷ xs) =
      let (accounted, left) = account (key_of x) remaining in
      let rest = partition_by key_of left xs in
      if accounted then (rest.0, x ∷ rest.1) else (x ∷ rest.0, rest.1)

unfoldable pub of : Files → Option Key → List Finding → Baseline
unfolding counted
of files key findings = record {
  entries = counted [] (map (fingerprint files key) findings);
  schema = elim key [ none ↦ baseline_schema | some _ ↦ keyed_schema ];
  key = key;
}

unfoldable pub key_of : Files → Baseline → Finding → Option Fingerprint
key_of files b f =
    if contains legacy_schemas b.schema
    then legacy_fingerprint files f
    else some (fingerprint files (if eqb b.schema keyed_schema then b.key else none) f)

unfoldable pub partition : Files → Baseline → List Finding → List Finding × List Finding
unfolding partition_by key_of
partition files b findings = partition_by (key_of files b) b.entries findings
