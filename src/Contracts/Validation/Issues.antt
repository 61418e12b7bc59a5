-- ===== src/Contracts/Validation/Issues.antt =====
-- What a contract violation reports.
use kafka_sqs.Base.{◌≡◌, refl, List, [], ◌∷◌, map, eq_iff, arith}
use mathlib.Core.Path.{sym}
use mathlib.Core.List.{Perm}
use mathlib.Core.List.Perm
use kafka_sqs.Base.Sort.{IsOrder, IsSorted, sort_by-perm, sort_by-IsSorted}
use kafka_sqs.Base.TextOrder.{le_text_total, le_text_trans, le_text_antisymm}
use kafka_sqs.Base.Effect.{Reply, value, error}
use kafka_sqs.Contracts.Json.{Json}
use kafka_sqs.Contracts.Libraries.{SchemaError, Libraries}
use kafka_sqs.Contracts.Validation.{
  ValidationIssue, issue_le, sort_issues, to_issue, contract_validation_error, check_wire,
  raise_issues,
}

issue_le-IsOrder : IsOrder issue_le
issue_le-IsOrder = record {
  total = λ a b h. ground (
    arith,
    eq_iff a.path b.path,
    eq_iff b.path a.path,
    le_text_total a.path b.path,
    le_text_total a.message b.message,
  );
  trans = λ a b c h h'. ground (
    arith,
    eq_iff a.path b.path,
    eq_iff b.path c.path,
    eq_iff a.path c.path,
    le_text_trans a.path b.path c.path,
    le_text_antisymm a.path b.path,
    le_text_antisymm b.path c.path,
    le_text_trans a.message b.message c.message,
  );
}

-- What the check of a document raises, for the errors that jsonschema found in it.
abbrev pub Reports : List SchemaError → Reply (Unit {0}) → Type 0
Reports errors (value u) = errors ≡ []
Reports errors (error e) =
    (issues : List ValidationIssue) × (e ≡ contract_validation_error issues)
    × IsSorted issue_le issues
    × Perm issues (map to_issue errors)
    × ((first : SchemaError) × (rest : List SchemaError) × (errors ≡ first ∷ rest))

raise_issues-Reports :
    (errors : List SchemaError) (issues : List ValidationIssue)
    → IsSorted issue_le issues
    → Perm issues (map to_issue errors)
    → Reports errors (raise_issues issues)
raise_issues-Reports [] [] sorted perm = refl
raise_issues-Reports (e ∷ errors) [] sorted perm =
    let none_left : map to_issue (e ∷ errors) ≡ [] = sym (Perm.nil-eq perm) in absurd (cc)
raise_issues-Reports [] (a ∷ issues) sorted perm =
    let none_left : a ∷ issues ≡ [] = Perm.eq-nil perm in absurd (cc)
raise_issues-Reports (e ∷ errors) (a ∷ issues) sorted perm =
    (a ∷ issues, refl, sorted, perm, (e, errors, refl))

module _ (lib : Libraries) where
  -- The check of a document raises nothing exactly if jsonschema finds no error in it; otherwise it
  -- raises a ContractValidationError whose issues are those of all the errors, ordered by path and
  -- then by message.
  pub check_wire-Reports : (wire : Json) → Reports (lib.iter_errors wire) (check_wire lib wire)
  unfolding check_wire sort_issues
  check_wire-Reports wire =
      let issues = map to_issue (lib.iter_errors wire) in
      raise_issues-Reports (lib.iter_errors wire) _
        (sort_by-IsSorted issue_le issue_le-IsOrder issues) (sort_by-perm issue_le issues)
