-- ===== src/CrossInstance/Tests.antt =====
-- Selections and merges, and the theorems at concrete inputs.
use mcp_odoo.Prelude.Result.{ok, err}
use mcp_odoo.Prelude.{◌≡◌, refl, true, false, List, [], ◌∷◌, keep}
use mcp_odoo.Prelude.Dict.{Dict}
use mcp_odoo.Prelude.Int.{pos}
use mcp_odoo.Prelude.Text.{strip}
use mcp_odoo.Json.{Value, null, bool, int, text, list, nil, cons, Fields, end, field}
use mcp_odoo.Write.Host.{Host, str}
use mcp_odoo.FieldPolicy.{sorted_set}
use mcp_odoo.SideEffects.{type_error, characters, key_items, iterated}
use mcp_odoo.CrossInstance.{
  InstanceMeta, Requested, stripped_tags, tags_of, parse_instances_meta, rendered, read_request,
  opted_in, select_named, select, select_instances, tag_rows, tag_and_merge,
}
use mcp_odoo.CrossInstance.Selected.{IsSelection, select_instances-IsSelection}
use mcp_odoo.CrossInstance.Merged.{is_tagged, rows_of, keep-tag_and_merge}

abbrev host : Host
host = record { digest = λ _. "?"; render = λ _. "?" }

abbrev metas : Dict InstanceMeta
metas =
    ("us", record { tags = "prod" ∷ []; cross_instance = true })
    ∷ ("eu", record { tags = "prod" ∷ "vat" ∷ []; cross_instance = true })
    ∷ ("lab", record { tags = "vat" ∷ []; cross_instance = false })
    ∷ []

abbrev asked : Value
asked = list (cons (text "lab") (cons (text "eu") (cons (text "moon") nil)))

abbrev results : Dict (List Fields)
results = ("us", field "id" (int (pos 1)) end ∷ []) ∷ ("eu", field "id" (int (pos 2)) end ∷ []) ∷ []

program : Unit {0}
unfolding strip str sorted_set characters key_items iterated stripped_tags tags_of
    parse_instances_meta rendered read_request opted_in select_named select select_instances
    tag_rows tag_and_merge
program = tt

selections :
    (select_instances host null metas
      ≡ ok (record { selected = "eu" ∷ "us" ∷ []; skipped_opt_out = []; unknown = [] }))
    × (select_instances host asked metas
        ≡ ok (record { selected = "eu" ∷ []; skipped_opt_out = "lab" ∷ []; unknown = "moon" ∷ [] }))
    × (select_instances host (text "us") metas
        ≡ ok (record { selected = []; skipped_opt_out = []; unknown = "u" ∷ "s" ∷ [] }))
    × (select_instances host (int (pos 1)) metas ≡ err type_error)
    × (parse_instances_meta host (
          ("us", field "tags" (list (cons (text " prod ") nil)) end)
          ∷ ("lab", field "cross_instance" (bool false) end)
          ∷ [])
        ≡ ok (
            ("us", record { tags = "prod" ∷ []; cross_instance = true })
            ∷ ("lab", record { tags = []; cross_instance = false })
            ∷ []))
unfolding program
selections = (refl, refl, refl, refl, refl)

select_instances-IsSelection_example :
    (q : Requested) × (read_request host asked ≡ ok q)
    × IsSelection metas q
        (record { selected = "eu" ∷ []; skipped_opt_out = "lab" ∷ []; unknown = "moon" ∷ [] })
        "lab"
unfolding program
select_instances-IsSelection_example =
    select_instances-IsSelection host asked metas
      (record { selected = "eu" ∷ []; skipped_opt_out = "lab" ∷ []; unknown = "moon" ∷ [] }) "lab"
      (refl, (refl, (refl, tt))) refl

keep-tag_and_merge_example :
    keep (is_tagged "eu") (tag_and_merge results) ≡ tag_rows "eu" (rows_of "eu" results)
keep-tag_and_merge_example = keep-tag_and_merge "eu" results (refl, (refl, tt))
