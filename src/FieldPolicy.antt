-- ===== src/FieldPolicy.antt =====
-- `FieldPolicy` of src/odoo_mcp/field_policy.py: the field rules of an instance and a model, and what
-- they remove. A frozen set is a list that is read only by membership.
pub mod Rules
pub mod Redaction
pub mod Parse
mod Tests
use Prim.Native.String.{compare}
use Prim.Native.Nat.{Ordering}
use mcp_odoo.Prelude.{
  String, Bool, true, false, not, ◌&&◌, Option, none, some, List, [], ◌∷◌, ◌++◌, keep, str_eq,
  if◌then◌else◌,
}
use mcp_odoo.Prelude.Dict
use mcp_odoo.Prelude.Dict.{Dict, contains, keys}

pub data Mode : Type 0 where
  deny allow : Mode

pub record ModelFieldRule : Type 0 where
  pub mode : Mode
  pub fields : List String

-- instance → model → rule
abbrev pub FieldPolicy : Type 0
FieldPolicy = Dict (Dict ModelFieldRule)

-- the whitelist, if there is one, and the blacklist
pub record Effective : Type 0 where
  pub allow : Option (List String)
  pub deny : List String

abbrev intersect : Option (List String) → List String → List String
intersect none fields = fields
intersect (some names) fields = keep (contains fields) names

-- one round of the loop over `(star, specific)`
abbrev pub merge_mode : Mode → List String → Effective → Effective
merge_mode deny fields e = record e { deny = e.deny ++ fields }
merge_mode allow fields e = record e { allow = some (intersect e.allow fields) }

unfoldable pub merge_rule : Option ModelFieldRule → Effective → Effective
merge_rule none e = e
merge_rule (some rule) e = merge_mode rule.mode rule.fields e

-- the rules of an instance; an empty dict counts as none
unfoldable pub models_of : FieldPolicy → String → Dict ModelFieldRule
models_of policy instance = elim (Dict.get instance policy) [ none ↦ [] | some models ↦ models ]

unfoldable pub merge_both : Option ModelFieldRule → Option ModelFieldRule → Option Effective
merge_both none none = none
merge_both star specific =
    some (merge_rule specific (merge_rule star (record { allow = none; deny = [] })))

-- `_effective`
unfoldable pub effective : FieldPolicy → String → String → Option Effective
effective policy instance model =
    let models = models_of policy instance in
    merge_both (Dict.get "*" models) (Dict.get model models)

-- the tests of the loop in `filter_fields`: is the name kept?
unfoldable pub is_kept : Effective → String → Bool
is_kept e name =
    if str_eq name "id"
    then true
    else if (elim e.allow [ none ↦ false | some names ↦ not (contains names name) ])
    then false
    else if contains e.deny name
    then false
    else true

unfoldable pub split_names : Effective → List String → List String × List String
unfolding is_kept
split_names e [] = ([], [])
split_names e (name ∷ names) =
    let (kept, redacted) = split_names e names in
    if is_kept e name then (name ∷ kept, redacted) else (kept, name ∷ redacted)

unfoldable pub split_by : Option Effective → List String → List String × List String
unfolding split_names
split_by none names = (names, [])
split_by (some e) names = split_names e names

-- `filter_fields`: the names kept and the names redacted
unfoldable pub filter_fields :
    FieldPolicy → String → String → List String → List String × List String
filter_fields policy instance model names = split_by (effective policy instance model) names

module _ {ℓ} {V : Type ℓ} where
  -- `{k: v for k, v in record.items() if k in names}`
  unfoldable pub with_names : List String → Dict V → Dict V
  with_names names [] = []
  with_names names ((k, v) ∷ rest) =
      let others = with_names names rest in if contains names k then (k, v) ∷ others else others

  -- `redact_record`
  unfoldable pub redact_record : FieldPolicy → String → String → Dict V → Dict V × List String
  redact_record policy instance model row = elim (effective policy instance model) [
    | none ↦ (row, [])
    | some _ ↦
        let (kept, redacted) = filter_fields policy instance model (keys row) in
        (with_names kept row, redacted)
  ]

-- a name put in its place in an ordered list, once
unfoldable pub insert_name : String → List String → List String
insert_name k [] = k ∷ []
insert_name k (j ∷ js) = elim (compare k j) [
  | Ordering.lt ↦ k ∷ j ∷ js
  | Ordering.eq ↦ j ∷ js
  | Ordering.gt ↦ j ∷ insert_name k js
]

-- `sorted(set(names))`
unfoldable pub sorted_set : List String → List String
unfolding insert_name
sorted_set [] = []
sorted_set (k ∷ ks) = insert_name k (sorted_set ks)

module _ {ℓ} {V : Type ℓ} where
  -- the loop of `redact_records`: the records without their denied fields, and every denied name
  unfoldable pub redact_each :
      FieldPolicy → String → String → List (Dict V) → List (Dict V) × List String
  redact_each policy instance model [] = ([], [])
  redact_each policy instance model (row ∷ rows) =
      let (filtered, names) = redact_record policy instance model row in
      let (out, redacted) = redact_each policy instance model rows in
      (filtered ∷ out, names ++ redacted)

  -- `redact_records`
  unfoldable pub redact_records :
      FieldPolicy → String → String → List (Dict V) → List (Dict V) × List String
  redact_records policy instance model rows =
      let (out, redacted) = redact_each policy instance model rows in (out, sorted_set redacted)

-- `restricted_fields`
unfoldable pub restricted_fields : FieldPolicy → String → String → List String → List String
restricted_fields policy instance model names = (filter_fields policy instance model names).1

-- a name put in its place in an ordered list, behind its equals
unfoldable pub insert_equal : String → List String → List String
insert_equal k [] = k ∷ []
insert_equal k (j ∷ js) = elim (compare k j) [
  | Ordering.lt ↦ k ∷ j ∷ js
  | _ ↦ j ∷ insert_equal k js
]

-- `sorted(names)`
unfoldable pub sorted : List String → List String
unfolding insert_equal
sorted [] = []
sorted (k ∷ ks) = insert_equal k (sorted ks)

-- `check_aggregate`: the fields that the error names, if there is one
unfoldable pub check_aggregate : FieldPolicy → String → String → List String → Option (List String)
check_aggregate policy instance model names = elim ((filter_fields policy instance model names).1) [
  | [] ↦ none
  | n ∷ ns ↦ some (sorted (n ∷ ns))
]
