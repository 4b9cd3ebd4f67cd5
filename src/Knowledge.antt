-- ===== src/Knowledge.antt =====
-- `KnowledgeStore` of src/odoo_mcp/knowledge_index.py: one BM25 index for each "instance:model", with
-- a budget of documents over all of them. The calls under its lock are made one after the other.
pub mod Index
pub mod Totals
pub mod Budget
mod Tests
use mcp_odoo.Prelude.{
  ℕ, suc, ◌+◌, String, Bool, true, false, not, ◌&&◌, Option, none, some, List, [], ◌∷◌, ◌++◌, leb,
  str_eq, if◌then◌else◌, length,
}
use mcp_odoo.Prelude.Dict
use mcp_odoo.Prelude.Dict.{Dict, keys}
use mcp_odoo.Prelude.Int.{ℤ, pos}
use mcp_odoo.Prelude.Text.{strip, starts_with}
use mcp_odoo.Json.{
  Value, null, bool, int, float, text, list, dict, Items, nil, cons, Fields, end, field,
  get_or_null,
}
use mcp_odoo.Knowledge.Index.{Language, Bm25Index, no_documents, has_document, add}
use Prim.Native.String.{◌++◌ as append_text}

pub record Store : Type 0 where
  pub max_docs : ℕ
  pub indexes : Dict Bm25Index

-- `_key`
abbrev pub store_key : String → String → String
store_key instance model = append_text instance (append_text ":" model)

-- `total_docs_locked`
unfoldable pub total_docs : Dict Bm25Index → ℕ
total_docs [] = 0
total_docs ((key, index) ∷ indexes) = length index.documents + total_docs indexes

-- `isinstance(record_id, int)`; a bool is one
abbrev pub record_id : Fields → Option ℤ
record_id record' = elim (get_or_null "id" record') [
  | int a ↦ some a
  | bool b ↦ some (pos (if b then 1 else 0))
  | _ ↦ none
]

abbrev item_texts : Items → List String
item_texts nil = []
item_texts (cons (text s) vs) = s ∷ item_texts vs
item_texts (cons v vs) = item_texts vs

-- the searchable parts of a value
unfoldable pub value_parts : Language → Value → List String
value_parts lang (text s) = lang.strip_tags s ∷ []
value_parts lang (int a) = lang.render (int a) ∷ []
value_parts lang (float m e) = lang.render (float m e) ∷ []
value_parts lang (list vs) = item_texts vs
value_parts lang _ = []

-- `" ".join(parts)`, behind a text
abbrev joined : String → List String → String
joined s [] = s
joined s (part ∷ parts) = append_text s (append_text " " (joined part parts))

abbrev join_parts : List String → String
join_parts [] = ""
join_parts (part ∷ parts) = joined part parts

unfoldable pub record_parts : Language → Fields → List String
record_parts lang end = []
record_parts lang (field k v fs) =
    let rest = record_parts lang fs in if str_eq k "id" then rest else value_parts lang v ++ rest

-- `flatten_record_text`
unfoldable pub flatten_record_text : Language → Fields → String
flatten_record_text lang record' = join_parts (record_parts lang record')

-- the index of a key, empty where there is none
abbrev pub index_at : String → Dict Bm25Index → Bm25Index
index_at key indexes = elim (Dict.get key indexes) [ none ↦ no_documents | some index ↦ index ]

pub data Indexed : Type 0 where
  indexed over_budget ignored : Indexed

abbrev pub index_text : Language → Store → String → ℤ → String → Store × Indexed
index_text lang store key id content = if str_eq (strip content) "" then (store, ignored) else (
  record store {
    indexes = Dict.put key (add lang id content (index_at key store.indexes)) store.indexes;
  },
  indexed,
)

-- a record with an identifier, if the budget has room for it
unfoldable pub index_document : Language → Store → String → ℤ → Fields → Store × Indexed
index_document lang store key id record' =
    if not (has_document id (index_at key store.indexes))
      && leb store.max_docs (total_docs store.indexes)
    then (store, over_budget)
    else index_text lang store key id (flatten_record_text lang record')

-- one round of the loop over the records
unfoldable pub index_record : Language → Store → String → Fields → Store × Indexed
index_record lang store key record' = elim (record_id record') [
  | none ↦ (store, ignored)
  | some id ↦ index_document lang store key id record'
]

-- how many records were indexed, and how many were left out for the budget
pub record Counts : Type 0 where
  pub indexed_records : ℕ
  pub skipped_over_budget : ℕ

abbrev tally : Indexed → Counts → Counts
tally indexed c = record c { indexed_records = suc c.indexed_records }
tally over_budget c = record c { skipped_over_budget = suc c.skipped_over_budget }
tally ignored c = c

unfoldable pub index_all : Language → Store → String → List Fields → Store × Counts
index_all lang store key [] = (store, record { indexed_records = 0; skipped_over_budget = 0 })
index_all lang store key (record' ∷ records) =
    let (store', outcome) = index_record lang store key record' in
    let (store'', counts) = index_all lang store' key records in (store'', tally outcome counts)

-- `if replace: pop`, then `setdefault`
abbrev pub opened : Store → String → Bool → Store
opened store key replace =
    let kept = if replace then Dict.remove key store.indexes else store.indexes in
    record store { indexes = Dict.put key (index_at key kept) kept }

-- `index_records`
unfoldable pub index_records :
    Language → Store → String → String → List Fields → Bool → Store × Counts
index_records lang store instance model records replace =
    let key = store_key instance model in index_all lang (opened store key replace) key records

-- the keys of an instance
unfoldable pub drop_prefix : String → Dict Bm25Index → Dict Bm25Index
drop_prefix prefix [] = []
drop_prefix prefix ((key, index) ∷ indexes) =
    let rest = drop_prefix prefix indexes in
    if starts_with prefix key then rest else (key, index) ∷ rest

-- `drop`
unfoldable pub drop : Store → String → Option String → Store
drop store instance (some model) = record store {
  indexes = Dict.remove (store_key instance model) store.indexes;
}
drop store instance none = record store {
  indexes = drop_prefix (append_text instance ":") store.indexes;
}
