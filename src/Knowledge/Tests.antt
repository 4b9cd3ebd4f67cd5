-- ===== src/Knowledge/Tests.antt =====
-- A store with a budget of one document, and the theorem at a concrete input.
use mcp_odoo.Prelude.{◌≡◌, refl, false, none, [], ◌∷◌}
use mcp_odoo.Prelude.Int.{pos}
use mcp_odoo.Prelude.Text.{strip, split_on, after_prefix, starts_with}
use mcp_odoo.Json.{int, text, Fields, end, field}
use mcp_odoo.Knowledge.{
  Store, total_docs, value_parts, record_parts, flatten_record_text, index_document, index_record,
  index_all, index_records, drop_prefix, drop,
}
use mcp_odoo.Knowledge.Index.{
  Language, count, count_tokens, sum_values, find_document, without_document, raise_all, lower_all,
  remove, add,
}
use mcp_odoo.Knowledge.Budget.{IsSound, created, records_indexed, ReachableStore-IsSound}

abbrev words : Language
words = record { tokenize = split_on b' '; strip_tags = λ s. s; render = λ _. "#" }

abbrev note : Fields
note = field "id" (int (pos 1)) (field "name" (text "late late order") end)

abbrev other_note : Fields
other_note = field "id" (int (pos 2)) (field "name" (text "order") end)

abbrev empty_store : Store
empty_store = record { max_docs = 1; indexes = [] }

abbrev filled : Store
filled = (index_records words empty_store "prod" "crm.lead" (note ∷ other_note ∷ []) false).0

program : Unit {0}
unfolding strip split_on after_prefix starts_with total_docs value_parts record_parts
    flatten_record_text index_document index_record index_all index_records drop_prefix drop
    count_tokens sum_values find_document without_document raise_all lower_all remove add
program = tt

runs :
    ((index_records words empty_store "prod" "crm.lead" (note ∷ other_note ∷ note ∷ []) false).1
      ≡ record { indexed_records = 2; skipped_over_budget = 1 })
    × (total_docs filled.indexes ≡ 1)
    × ((drop filled "prod" none).indexes ≡ [])
    × (total_docs (drop filled "pro" none).indexes ≡ 1)
unfolding program
runs = (refl, refl, refl, refl)

counters :
    (count "late"
        (add words
          (pos 1)
          "late late order"
          (record { documents = []; document_frequency = []; total_length = 0 })).document_frequency
      ≡ 1)
unfolding program
counters = refl

ReachableStore-IsSound_example : IsSound filled
ReachableStore-IsSound_example =
    ReachableStore-IsSound
      (records_indexed "prod" "crm.lead" (note ∷ other_note ∷ []) false created)
