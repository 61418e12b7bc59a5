-- ===== src/Contracts/Validation.antt =====
-- messaging/contracts/validation.py: schema violations with their field paths, and parsing.
pub mod Issues
pub mod Missing
mod Examples
use Prim.Native.Char.{code}
use Prim.Native.String.{[] as text_nil, ◌∷◌ as text_cons}
use mathlib.Core.Option
use kafka_sqs.Base.{
  String, ◌<>◌, Bool, true, false, ◌||◌, Option, none, some, List, [], ◌∷◌, ◌++◌, map, str_eq, ◌==◌,
  if◌then◌else◌, ◌≡◌, refl,
}
use kafka_sqs.Base.Sort.{sort_by}
use kafka_sqs.Base.Text.{str_int, is_empty}
use kafka_sqs.Base.TextOrder.{le_text}
use kafka_sqs.Base.Effect.{Exc, Reply, value, error}
use kafka_sqs.Contracts.Event.{OrderCreatedEvent}
use kafka_sqs.Contracts.Json.{Json, is_object}
use kafka_sqs.Contracts.Libraries.{PathPart, index, name, SchemaError, Libraries}

pub record ValidationIssue : Type 0 where
  pub path : String
  pub message : String
  pub rule : String

abbrev part_text : PathPart → String
part_text (index n) = "[" <> (str_int n <> "]")
part_text (name s) = "." <> s

extend_path : String → List PathPart → String
extend_path path [] = path
extend_path path (part ∷ parts) = extend_path (path <> part_text part) parts

-- _json_path
unfoldable pub json_path : List PathPart → String
unfolding extend_path str_int
json_path parts = extend_path "$" parts

abbrev pub is_required_suffix : String → Bool
is_required_suffix s = str_eq s "' is a required property" || str_eq s "' is a required property\n"

-- The text before the last "' is a required property", in which "." is no line end.
unfoldable pub field_before : String → Option String
field_before text_nil = none
field_before (text_cons c s) =
    let rest = Option.map (text_cons c) (field_before s) in
    if is_required_suffix (text_cons c s) then some "" else if code c == 10 then none else rest

abbrev pub nonempty : Option String → Option String
nonempty none = none
nonempty (some s) = if is_empty s then none else some s

-- _MISSING_PROPERTY.match(message).group("field")
unfoldable pub missing_property : String → Option String
unfolding field_before
missing_property text_nil = none
missing_property (text_cons c s) = if code c == 39 then nonempty (field_before s) else none

abbrev issue_of : SchemaError → Option String → ValidationIssue
issue_of e none = record {
  path = json_path e.absolute_path;
  message = e.message;
  rule = e.validator;
}
issue_of e (some field) = record {
  path = json_path (e.absolute_path ++ name field ∷ []);
  message = "is required";
  rule = e.validator;
}

-- _to_issue
unfoldable pub to_issue : SchemaError → ValidationIssue
unfolding json_path missing_property
to_issue e =
    if str_eq e.validator "required"
    then issue_of e (missing_property e.message)
    else issue_of e none

-- (a.path, a.message) <= (b.path, b.message)
abbrev pub issue_le : ValidationIssue → ValidationIssue → Bool
issue_le a b = if str_eq a.path b.path then le_text a.message b.message else le_text a.path b.path

-- sorted(issues, key=lambda issue: (issue.path, issue.message)), which is stable
unfoldable pub sort_issues : List ValidationIssue → List ValidationIssue
unfolding sort_by
sort_issues = sort_by issue_le

abbrev join_issues : List ValidationIssue → String
join_issues [] = ""
join_issues (a ∷ []) = a.path <> (": " <> a.message)
join_issues (a ∷ b ∷ issues) = (a.path <> (": " <> a.message)) <> ("; " <> join_issues (b ∷ issues))

-- ContractValidationError, with the text that its __init__ builds
abbrev pub contract_validation_error : List ValidationIssue → Exc
contract_validation_error issues = record {
  classes = "ContractValidationError" ∷ "ValueError" ∷ "Exception" ∷ [];
  text = "Event contract validation failed: " <> join_issues issues;
}

abbrev pub raise_issues : List ValidationIssue → Reply (Unit {0})
raise_issues [] = value tt
raise_issues (a ∷ issues) = error (contract_validation_error (a ∷ issues))

module _ (lib : Libraries) where
  -- The second half of `validate_order_created_contract`, on the wire dictionary.
  unfoldable pub check_wire : Json → Reply (Unit {0})
  unfolding sort_issues to_issue
  check_wire wire = raise_issues (sort_issues (map to_issue (lib.iter_errors wire)))

  -- dict(payload)
  abbrev pub dict_of : Json → Reply Json
  dict_of payload = if is_object payload then value payload else lib.dict_of_other payload

  abbrev then_check : Reply Json → Reply (Unit {0})
  then_check (value wire) = check_wire wire
  then_check (error e) = error e

  -- validate_order_created_contract of a mapping, and of a typed event
  unfoldable pub validate_mapping : Json → Reply (Unit {0})
  unfolding check_wire
  validate_mapping payload = then_check (dict_of payload)

  unfoldable pub validate_event : OrderCreatedEvent → Reply (Unit {0})
  unfolding check_wire
  validate_event event = check_wire (lib.model_dump event)

  abbrev validate_model : Reply Json → Reply OrderCreatedEvent
  validate_model (value wire) = lib.model_validate_json (lib.dumps wire)
  validate_model (error e) = error e

  abbrev parse_checked : Json → Reply (Unit {0}) → Reply OrderCreatedEvent
  parse_checked payload (value u) = validate_model (dict_of payload)
  parse_checked payload (error e) = error e

  unfoldable pub parse_order_created_event : Json → Reply OrderCreatedEvent
  unfolding validate_mapping
  parse_order_created_event payload = parse_checked payload (validate_mapping payload)

json_path_example : json_path (name "data" ∷ index 3 ∷ []) ≡ "$.data[3]"
unfolding json_path
json_path_example = refl

missing_property_example : missing_property "'it's' is a required property" ≡ some "it's"
unfolding missing_property
missing_property_example = refl

missing_property_other : missing_property "'' is a required property" ≡ none
unfolding missing_property
missing_property_other = refl
