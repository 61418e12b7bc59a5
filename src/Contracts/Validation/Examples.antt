-- ===== src/Contracts/Validation/Examples.antt =====
-- A document that lacks a property, and a wrong amount.
use kafka_sqs.Base.{◌≡◌, refl, ◌<>◌, [], ◌∷◌, arith}
use kafka_sqs.Base.Sort.{sort_by}
use kafka_sqs.Base.Effect.{error}
use kafka_sqs.Contracts.Json.{object, end}
use kafka_sqs.Contracts.Libraries.{name, SchemaError, Libraries}
use kafka_sqs.Contracts.Validation.{
  json_path, to_issue, sort_issues, missing_property, contract_validation_error, check_wire,
}
use kafka_sqs.Contracts.Validation.Issues.{Reports, check_wire-Reports}
use kafka_sqs.Contracts.Validation.Missing.{to_issue-required}
use kafka_sqs.Samples.{sim_libraries}

abbrev amount_wrong : SchemaError
amount_wrong = record {
  absolute_path = name "data" ∷ name "amount" ∷ [];
  message = "0 is less than or equal to the minimum of 0";
  validator = "exclusiveMinimum";
}

abbrev currency_missing : SchemaError
currency_missing = record {
  absolute_path = name "data" ∷ [];
  message = "'currency' is a required property";
  validator = "required";
}

abbrev strict : Libraries
strict = record sim_libraries { iter_errors = λ j. currency_missing ∷ amount_wrong ∷ [] }

reports_both :
    check_wire strict (object end)
    ≡ error (
        contract_validation_error (
          record {
            path = "$.data.amount";
            message = "0 is less than or equal to the minimum of 0";
            rule = "exclusiveMinimum";
          }
          ∷ record { path = "$.data.currency"; message = "is required"; rule = "required" }
          ∷ []))
unfolding check_wire sort_issues sort_by to_issue json_path missing_property
reports_both = refl

check_wire-Reports_example :
    Reports (currency_missing ∷ amount_wrong ∷ []) (check_wire strict (object end))
check_wire-Reports_example = check_wire-Reports strict (object end)

to_issue-required_example :
    to_issue (record {
      absolute_path = name "data" ∷ [];
      message = "'" <> ("currency" <> "' is a required property");
      validator = "required";
    })
    ≡ record {
      path = json_path (name "data" ∷ name "currency" ∷ []);
      message = "is required";
      rule = "required";
    }
to_issue-required_example = to_issue-required (name "data" ∷ []) "currency" (omega arith) refl
