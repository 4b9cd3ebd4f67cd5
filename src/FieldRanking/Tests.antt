-- ===== src/FieldRanking/Tests.antt =====
-- Runs of `select_smart_fields` and `resolve_read_fields`, and the theorem at a concrete input.
use mcp_odoo.Prelude.{◌≡◌, ◌⊎◌, ◌≤◌, ◌||◌, max, suc, refl, true, false, none, some, [], ◌∷◌, length}
use mcp_odoo.Prelude.Int.{pos, negsuc}
use mcp_odoo.Prelude.Dict.{contains}
use mcp_odoo.Prelude.Text.{after_prefix, before_suffix, starts_with, ends_with, has_part}
use mcp_odoo.Json.{bool, text, dict, Fields, end, field}
use mcp_odoo.FieldRanking.{
  is_technical_field_name, is_skip_metadata, type_score, smart_field_score, ranks_before,
  insert_candidate, sort_candidates, force_fields, candidate_of, list_candidates, fill_selected,
  select_some, select_smart_fields, resolve_read_fields,
}
use mcp_odoo.FieldRanking.Forced.{count_included, is_forced}
use mcp_odoo.FieldRanking.Selected.{has_relevant, select_smart_fields-IsSelection}

abbrev metadata : Fields
metadata = field "id" (dict (field "type" (text "integer") end)) (
    field "comment" (dict (field "type" (text "html") end)) (
      field "country_id" (dict (field "type" (text "many2one") end)) (
        field "birthdate" (dict (field "type" (text "char") end)) (
          field "image" (dict (field "type" (text "binary") end)) (
            field "name" (dict (field "type" (text "char") end)) (
              field "total"
                (dict (
                  field "type" (text "float")
                    (field "compute" (bool true) (field "store" (bool false) end))))
                (field "message_ids" (dict (field "type" (text "one2many") end)) end)))))))

best_first :
    select_smart_fields metadata (pos 4) [] ≡ ("id" ∷ "name" ∷ "country_id" ∷ "birthdate" ∷ [])
unfolding after_prefix before_suffix starts_with ends_with has_part is_technical_field_name
    is_skip_metadata type_score smart_field_score ranks_before insert_candidate sort_candidates
    force_fields candidate_of list_candidates fill_selected select_some select_smart_fields
best_first = refl

more_than_max_fields :
    select_smart_fields metadata (pos 1) ("image" ∷ "comment" ∷ "other" ∷ [])
    ≡ ("id" ∷ "image" ∷ "comment" ∷ [])
unfolding after_prefix before_suffix starts_with ends_with has_part is_technical_field_name
    is_skip_metadata type_score smart_field_score ranks_before insert_candidate sort_candidates
    force_fields candidate_of list_candidates fill_selected select_some select_smart_fields
more_than_max_fields = refl

no_fields_asked : select_smart_fields metadata (negsuc 2) [] ≡ []
unfolding select_smart_fields
no_fields_asked = refl

identifier_unknown : resolve_read_fields (field "x" (bool true) end) (pos 9) none ≡ some ("id" ∷ [])
unfolding force_fields candidate_of sort_candidates list_candidates fill_selected select_some
    select_smart_fields resolve_read_fields
identifier_unknown = refl

every_field : resolve_read_fields metadata (pos 9) (some ("*" ∷ [])) ≡ none
unfolding resolve_read_fields
every_field = refl

select_smart_fields-IsSelection_example :
    (length (select_smart_fields metadata (pos 3) ("image" ∷ []))
      ≤ max 3 (suc (count_included metadata ("image" ∷ []))))
    × ((contains (select_smart_fields metadata (pos 3) ("image" ∷ [])) "country_id"
          ≡ (is_forced metadata ("image" ∷ []) "country_id" || has_relevant "country_id" metadata))
        ⊎ ((contains (select_smart_fields metadata (pos 3) ("image" ∷ [])) "country_id" ≡ false)
            × (is_forced metadata ("image" ∷ []) "country_id" ≡ false)
            × (3 ≤ length (select_smart_fields metadata (pos 3) ("image" ∷ [])))))
select_smart_fields-IsSelection_example =
    select_smart_fields-IsSelection metadata 2 ("image" ∷ []) "country_id"
