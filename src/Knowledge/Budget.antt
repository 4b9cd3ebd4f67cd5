-- ===== src/Knowledge/Budget.antt =====
-- Any sequence of calls on the knowledge store keeps to the budget, with counters that agree.
use mcp_odoo.Prelude.{
  ℕ, ◌+◌, ◌≤◌, String, Bool-cases, Bool, true, false, Option, Option-cases, none, some, List, [],
  ◌∷◌, str_eq, leb, if◌then◌else◌, arith, inl, inr, leb_false→lt,
}
use mcp_odoo.Prelude.Dict
use mcp_odoo.Prelude.Dict.{Dict}
use mcp_odoo.Prelude.Dict.Entries.{Each, Each-put, Each-remove}
use mcp_odoo.Prelude.Int.{ℤ}
use mcp_odoo.Prelude.Text.{strip}
use mcp_odoo.Json.{Fields}
use mcp_odoo.Knowledge.{
  Store, total_docs, store_key, index_at, record_id, index_text, index_document, index_record,
  index_all, opened, index_records, drop, flatten_record_text,
}
use mcp_odoo.Knowledge.Index.{Language, has_document, add}
use mcp_odoo.Knowledge.Index.Counts.{IsConsistent}
use mcp_odoo.Knowledge.Totals.{
  total_docs-put, total_docs-remove-le, total_docs-drop_prefix-le, Each-drop_prefix,
  index_at-IsConsistent,
}
use mcp_odoo.Knowledge.Index.Addition.{add-IsConsistent, length-add}
use Prim.Native.String.{◌++◌ as append_text}

-- the budget is kept, and the counters of each index agree with its documents
pub record IsSound (store : Store) : Type 0 where
  pub budget : total_docs store.indexes ≤ store.max_docs
  pub consistent : Each IsConsistent store.indexes

module _ (lang : Language) (store : Store) (key : String) where
  index_text-IsSound :
      (id : ℤ) (content : String)
      → IsSound store
      → total_docs store.indexes + (if has_document id (index_at key store.indexes) then 0 else 1)
        ≤ store.max_docs
      → IsSound (index_text lang store key id content).0
  index_text-IsSound id content sound room = elim (Bool-cases (str_eq (strip content) "")) [
    | inl empty ↦ rw empty sound
    | inr other ↦
        let index = index_at key store.indexes in
        rw other (record {
          budget = omega (
            arith,
            room,
            total_docs-put key (add lang id content index) store.indexes,
            length-add lang id content index,
          );
          consistent =
              Each-put IsConsistent key (add lang id content index) store.indexes
                (add-IsConsistent lang id content index
                  (index_at-IsConsistent key store.indexes sound.consistent))
                sound.consistent;
        })
  ]

  index_document-IsSound :
      (id : ℤ) (record' : Fields)
      → IsSound store
      → IsSound (index_document lang store key id record').0
  unfolding index_document
  index_document-IsSound id record' sound =
      let known = has_document id (index_at key store.indexes) in
      let full = leb store.max_docs (total_docs store.indexes) in
      let content = flatten_record_text lang record' in
      elim (Bool-cases known) [
        | inl there ↦
            rw (index_document, there)
              (index_text-IsSound id content sound (rw there (omega (arith, sound.budget))))
        | inr fresh ↦ elim (Bool-cases full) [
          | inl no_room ↦ rw (index_document, fresh, no_room) sound
          | inr room ↦
              rw (index_document, fresh, room)
                (index_text-IsSound id content sound (
                  rw fresh
                    (omega (arith, leb_false→lt store.max_docs (total_docs store.indexes) room))))
        ]
      ]

  index_record-IsSound :
      (record' : Fields) → IsSound store → IsSound (index_record lang store key record').0
  unfolding index_record
  index_record-IsSound record' sound = elim (Option-cases (record_id record')) [
    | inl missing ↦ rw (index_record, missing) sound
    | inr (id, found) ↦ rw (index_record, found) (index_document-IsSound id record' sound)
  ]

index_all-IsSound :
    (lang : Language) (store : Store) (key : String) (records : List Fields)
    → IsSound store
    → IsSound (index_all lang store key records).0
unfolding index_all
index_all-IsSound lang store key [] sound = sound
index_all-IsSound lang store key (record' ∷ records) sound =
    index_all-IsSound lang (index_record lang store key record').0 key records
      (index_record-IsSound lang store key record' sound)

opened-IsSound :
    (store : Store) (key : String) (replace : Bool)
    → IsSound store
    → IsSound (opened store key replace)
opened-IsSound store key true sound = record {
  budget =
      let kept = Dict.remove key store.indexes in
      omega (
        arith,
        sound.budget,
        total_docs-put key (index_at key kept) kept,
        total_docs-remove-le key store.indexes,
      );
  consistent =
      let kept = Dict.remove key store.indexes in
      let each = Each-remove IsConsistent key store.indexes sound.consistent in
      Each-put IsConsistent key (index_at key kept) kept (index_at-IsConsistent key kept each) each;
}
opened-IsSound store key false sound = record {
  budget =
      omega (arith, sound.budget, total_docs-put key (index_at key store.indexes) store.indexes);
  consistent =
      Each-put IsConsistent key (index_at key store.indexes) store.indexes
        (index_at-IsConsistent key store.indexes sound.consistent) sound.consistent;
}

drop-IsSound :
    (store : Store) (instance : String) (model : Option String)
    → IsSound store
    → IsSound (drop store instance model)
unfolding drop
drop-IsSound store instance (some model) sound = record {
  budget =
      omega (arith, sound.budget, total_docs-remove-le (store_key instance model) store.indexes);
  consistent = Each-remove IsConsistent (store_key instance model) store.indexes sound.consistent;
}
drop-IsSound store instance none sound = record {
  budget =
      omega
        (arith, sound.budget, total_docs-drop_prefix-le (append_text instance ":") store.indexes);
  consistent = Each-drop_prefix (append_text instance ":") store.indexes sound.consistent;
}

-- what the calls of the tools make of a new store
pub data ReachableStore (lang : Language) (max_docs : ℕ) : Store → Type 0 where
  created : ReachableStore lang max_docs (record { max_docs = max_docs; indexes = [] })
  records_indexed :
      {store : Store} (instance model : String) (records : List Fields) (replace : Bool)
      → ReachableStore lang max_docs store
      → ReachableStore lang max_docs (index_records lang store instance model records replace).0
  index_dropped :
      {store : Store} (instance : String) (model : Option String)
      → ReachableStore lang max_docs store
      → ReachableStore lang max_docs (drop store instance model)

-- In every store that calls of `index_records` and `drop` make of an empty one, all the indexes
-- together have no more documents than the budget, and in each index every term is counted once for
-- each document that has it and the total length is the sum of the documents' lengths.
pub ReachableStore-IsSound :
    {lang : Language} {max_docs : ℕ} {store : Store}
    → ReachableStore lang max_docs store
    → IsSound store
unfolding total_docs index_records
ReachableStore-IsSound created = record { budget = omega arith; consistent = tt }
ReachableStore-IsSound {lang} (records_indexed {store} instance model records replace reached) =
    let key = store_key instance model in
    index_all-IsSound lang (opened store key replace) key records
      (opened-IsSound store key replace (ReachableStore-IsSound reached))
ReachableStore-IsSound (index_dropped {store} instance model reached) =
    drop-IsSound store instance model (ReachableStore-IsSound reached)
