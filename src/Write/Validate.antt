-- ===== src/Write/Validate.antt =====
-- `validate_write_report` of src/odoo_mcp/agent_tools.py: the preview's issues, and those that the
-- metadata of `fields_get` shows.
use mcp_odoo.Prelude.{
  ℕ, ◌+◌, String, Bool, true, false, not, ◌&&◌, ◌||◌, Option, none, some, List, [], ◌∷◌, ◌++◌,
  str_eq, if◌then◌else◌,
}
use mcp_odoo.Json.{
  dict, Items, nil, cons, Fields, end, field, get_field, get_or_null, truthy, insert_field,
}
use mcp_odoo.Write.Host.{Host, str}
use mcp_odoo.Write.Preview.{
  Issue, unknown_field, readonly_field, when, has_error, fields_or_empty, Request,
  build_write_preview_report,
}

pub data HintKind : Type 0 where
  many2one_id command_list required_on_create : HintKind

pub record FieldHint : Type 0 where
  pub name : String
  pub kind : HintKind

-- issues and hints of one values dict
pub record Findings : Type 0 where
  pub issues : List Issue
  pub hints : List FieldHint

abbrev pub no_findings : Findings
no_findings = record { issues = []; hints = [] }

abbrev pub add_findings : Findings → Findings → Findings
add_findings a b = record { issues = a.issues ++ b.issues; hints = a.hints ++ b.hints }

-- `sorted(d)`: the keys in the order of their code points, each with its value
unfoldable pub sorted_fields : Fields → Fields
unfolding insert_field
sorted_fields end = end
sorted_fields (field k v fs) = insert_field k v (sorted_fields fs)

abbrev hint : String → HintKind → Findings
hint name kind = record { issues = []; hints = record { name = name; kind = kind } ∷ [] }

-- the body of the loop for a field whose metadata is a dict
unfoldable pub known_field : Host → Option ℕ → String → Fields → Findings
unfolding str
known_field host label name meta =
    let field_type : String = elim (get_field "type" meta) [ none ↦ "" | some v ↦ str host v ] in
    if truthy (get_or_null "readonly" meta)
    then record { issues = when true (readonly_field label name); hints = [] }
    else if str_eq field_type "many2one"
    then hint name many2one_id
    else if str_eq field_type "many2many" || str_eq field_type "one2many"
    then hint name command_list
    else no_findings

-- the metadata of a field: `none` if it is missing or no dict
unfoldable pub field_metadata : String → Fields → Option Fields
field_metadata name metadata = elim (get_field name metadata) [
  | none ↦ none
  | some v ↦ elim v [ dict meta ↦ some meta | _ ↦ none ]
]

unfoldable pub field_findings : Host → Option ℕ → Fields → String → Findings
unfolding known_field field_metadata
field_findings host label metadata name = elim (field_metadata name metadata) [
  | none ↦ record { issues = when true (unknown_field label name); hints = [] }
  | some meta ↦ known_field host label name meta
]

unfoldable pub findings_from : Host → Option ℕ → Fields → Fields → Findings
unfolding field_findings
findings_from host label metadata end = no_findings
findings_from host label metadata (field k v fs) =
    add_findings (field_findings host label metadata k) (findings_from host label metadata fs)

-- `_metadata_issues_for_values`
unfoldable pub metadata_issues_for_values : Host → Option ℕ → Fields → Fields → Findings
unfolding findings_from sorted_fields
metadata_issues_for_values host label metadata values =
    findings_from host label metadata (sorted_fields values)

-- the loop over `enumerate(values_list)`; the preview has flagged an entry that is no dict
unfoldable pub batch_findings : Host → ℕ → Fields → Items → Findings
unfolding metadata_issues_for_values
batch_findings host i metadata nil = no_findings
batch_findings host i metadata (cons v vs) =
    add_findings
      (elim v [ dict fs ↦ metadata_issues_for_values host (some i) metadata fs | _ ↦ no_findings ])
      (batch_findings host (i + 1) metadata vs)

abbrev has_field : String → Fields → Bool
has_field k fs = elim (get_field k fs) [ none ↦ false | some _ ↦ true ]

-- the loop over `sorted(fields_metadata.items())` for a single create
unfoldable pub required_hints : Fields → Fields → List FieldHint
required_hints values end = []
required_hints values (field k v fs) =
    (elim v [
      | dict meta ↦
          if truthy (get_or_null "required" meta)
            && not (truthy (get_or_null "readonly" meta))
            && not (truthy (get_or_null "compute" meta))
            && not (has_field k values)
          then record { name = k; kind = required_on_create } ∷ []
          else []
      | _ ↦ []
    ])
    ++ required_hints values fs

-- the metadata part of `validate_write_report`; the operation is compared as it was given
unfoldable pub metadata_findings : Host → Request → Option Fields → Findings
unfolding metadata_issues_for_values batch_findings required_hints
metadata_findings host r none = no_findings
metadata_findings host r (some metadata) = elim r.values_list [
  | some entries ↦ batch_findings host 0 metadata entries
  | none ↦
      add_findings (metadata_issues_for_values host none metadata (fields_or_empty r.values))
        (record {
          issues = [];
          hints =
              if str_eq r.operation "create"
              then required_hints (fields_or_empty r.values) (sorted_fields metadata)
              else [];
        })
]

pub record ValidateReport : Type 0 where
  pub success : Bool
  pub operation : String
  pub issues : List Issue
  pub field_hints : List FieldHint
  pub approval : Option Fields

-- `validate_write_report`
unfoldable pub validate_write_report : Host → Request → Option Fields → ValidateReport
unfolding build_write_preview_report metadata_findings
validate_write_report host r metadata =
    let preview = build_write_preview_report host r in
    let found = metadata_findings host r metadata in
    let issues = preview.issues ++ found.issues in
    let success = not (has_error issues) in
    record {
      success = success;
      operation = r.operation;
      issues = issues;
      field_hints = found.hints;
      approval = if success then some preview.approval else none;
    }
