-- ===== src/Knowledge/Totals.antt =====
-- The documents of all the indexes of a store.
use mcp_odoo.Prelude.{
  ◌+◌, ◌≤◌, String, ◌≡◌, Bool-cases, Option-cases, [], ◌∷◌, str_eq, arith, inl, inr, length,
}
use mcp_odoo.Prelude.Dict
use mcp_odoo.Prelude.Dict.{Dict}
use mcp_odoo.Prelude.Dict.Entries.{Each, Each-get}
use mcp_odoo.Prelude.Text.{starts_with}
use mcp_odoo.Knowledge.{total_docs, index_at, drop_prefix}
use mcp_odoo.Knowledge.Index.{Bm25Index}
use mcp_odoo.Knowledge.Index.Counts.{IsConsistent}
use mcp_odoo.Knowledge.Index.Addition.{no_documents-IsConsistent}

pub total_docs-put :
    (key : String) (index : Bm25Index) (indexes : Dict Bm25Index)
    → total_docs (Dict.put key index indexes) + length (index_at key indexes).documents
      ≡ total_docs indexes + length index.documents
unfolding total_docs
total_docs-put key index [] = omega arith
total_docs-put key index ((k, other) ∷ indexes) = ground (arith, total_docs-put key index indexes)

pub total_docs-remove-le :
    (key : String) (indexes : Dict Bm25Index)
    → total_docs (Dict.remove key indexes) ≤ total_docs indexes
unfolding total_docs
total_docs-remove-le key [] = omega arith
total_docs-remove-le key ((k, other) ∷ indexes) = elim (Bool-cases (str_eq k key)) [
  | inl same ↦ rw same (omega (arith, total_docs-remove-le key indexes))
  | inr differs ↦ rw differs (omega (arith, total_docs-remove-le key indexes))
]

pub total_docs-drop_prefix-le :
    (prefix : String) (indexes : Dict Bm25Index)
    → total_docs (drop_prefix prefix indexes) ≤ total_docs indexes
unfolding total_docs drop_prefix
total_docs-drop_prefix-le prefix [] = omega arith
total_docs-drop_prefix-le prefix ((k, other) ∷ indexes) = elim (Bool-cases (starts_with prefix k)) [
  | inl same ↦ rw (drop_prefix, same) (omega (arith, total_docs-drop_prefix-le prefix indexes))
  | inr differs ↦
      rw (drop_prefix, differs) (omega (arith, total_docs-drop_prefix-le prefix indexes))
]

pub Each-drop_prefix :
    (prefix : String) (indexes : Dict Bm25Index)
    → Each IsConsistent indexes
    → Each IsConsistent (drop_prefix prefix indexes)
unfolding drop_prefix
Each-drop_prefix prefix [] e = tt
Each-drop_prefix prefix ((k, other) ∷ indexes) e = elim (Bool-cases (starts_with prefix k)) [
  | inl same ↦ rw (drop_prefix, same) (Each-drop_prefix prefix indexes e.1)
  | inr differs ↦ rw (drop_prefix, differs) (e.0, Each-drop_prefix prefix indexes e.1)
]

pub index_at-IsConsistent :
    (key : String) (indexes : Dict Bm25Index)
    → Each IsConsistent indexes
    → IsConsistent (index_at key indexes)
index_at-IsConsistent key indexes e = elim (Option-cases (Dict.get key indexes)) [
  | inl missing ↦ rw (index_at, missing) no_documents-IsConsistent
  | inr (index, found) ↦ rw (index_at, found) (Each-get IsConsistent key index indexes e found)
]
