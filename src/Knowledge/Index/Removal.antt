-- ===== src/Knowledge/Index/Removal.antt =====
-- What `BM25Index.remove` leaves.
use mcp_odoo.Prelude.{
  suc, ◌+◌, ◌-◌, String, ◌≡◌, refl, ◌∙◌, sym, ◌⊎◌, true, false, Option-cases, none, some, List, [],
  ◌∷◌, if◌then◌else◌, arith, inl, inr, length,
}
use mcp_odoo.Prelude.Dict.{keys}
use mcp_odoo.Prelude.Dict.Entries.{IsKeyed}
use mcp_odoo.Prelude.Int.{ℤ, eq_ℤ}
use mcp_odoo.Knowledge.Index.{
  Document, Bm25Index, find_document, without_document, has_document, lower_all, remove,
}
use mcp_odoo.Knowledge.Index.Counts.{
  has_term, documents_with, sum_words, AreKeyed, IsConsistent, count-lower_all,
}

-- taking a document out of the list
module _ (id : ℤ) where
  found_cases :
      (i : ℤ) (d doc : Document) (docs : List (ℤ × Document))
      → find_document id ((i, d) ∷ docs) ≡ some doc
      → ((eq_ℤ i id ≡ true) × (d ≡ doc))
        ⊎ ((eq_ℤ i id ≡ false) × (find_document id docs ≡ some doc))
  unfolding find_document
  found_cases i d doc docs h = ground arith

  documents_with-without_document :
      (t : String) (docs : List (ℤ × Document)) (doc : Document)
      → find_document id docs ≡ some doc
      → documents_with t docs ≡ documents_with t (without_document id docs) + has_term t doc
  unfolding documents_with without_document find_document
  documents_with-without_document t [] doc h = cc h
  documents_with-without_document t ((i, d) ∷ docs) doc h = elim (found_cases i d doc docs h) [
    | inl (here, same) ↦ rw (without_document, here, same) (omega arith)
    | inr (later, found) ↦
        rw (without_document, later)
          (omega (arith, documents_with-without_document t docs doc found))
  ]

  sum_words-without_document :
      (docs : List (ℤ × Document)) (doc : Document)
      → find_document id docs ≡ some doc
      → sum_words docs ≡ sum_words (without_document id docs) + doc.words
  unfolding sum_words without_document find_document
  sum_words-without_document [] doc h = cc h
  sum_words-without_document ((i, d) ∷ docs) doc h = elim (found_cases i d doc docs h) [
    | inl (here, same) ↦ rw (without_document, here, same) (omega arith)
    | inr (later, found) ↦
        rw (without_document, later) (omega (arith, sum_words-without_document docs doc found))
  ]

  AreKeyed-without_document :
      (docs : List (ℤ × Document)) (doc : Document)
      → find_document id docs ≡ some doc
      → AreKeyed docs
      → IsKeyed doc.tokens × AreKeyed (without_document id docs)
  unfolding without_document find_document
  AreKeyed-without_document [] doc h k = cc h
  AreKeyed-without_document ((i, d) ∷ docs) doc h k = elim (found_cases i d doc docs h) [
    | inl (here, same) ↦ rw (without_document, here, sym same) k
    | inr (later, found) ↦
        let (one, others) = AreKeyed-without_document docs doc found k.1 in
        rw (without_document, later) (one, (k.0, others))
  ]

  length-without_document :
      (docs : List (ℤ × Document)) (doc : Document)
      → find_document id docs ≡ some doc
      → length docs ≡ suc (length (without_document id docs))
  unfolding without_document find_document
  length-without_document [] doc h = cc h
  length-without_document ((i, d) ∷ docs) doc h = elim (found_cases i d doc docs h) [
    | inl (here, same) ↦ rw (without_document, here) refl
    | inr (later, found) ↦
        rw (without_document, later) (omega (arith, length-without_document docs doc found))
  ]

  remove_found :
      (index : Bm25Index) (doc : Document)
      → find_document id index.documents ≡ some doc
      → remove id index ≡ record {
        documents = without_document id index.documents;
        document_frequency = lower_all (keys doc.tokens) index.document_frequency;
        total_length = index.total_length - doc.words;
      }
  unfolding remove
  remove_found index doc found = rw (remove, found) refl

  remove_missing :
      (index : Bm25Index) → find_document id index.documents ≡ none → remove id index ≡ index
  unfolding remove
  remove_missing index missing = rw (remove, missing) refl

  pub remove-IsConsistent :
      (index : Bm25Index) → IsConsistent index → IsConsistent (remove id index)
  remove-IsConsistent index c = elim (Option-cases (find_document id index.documents)) [
    | inl missing ↦ rw (remove_missing index missing) c
    | inr (doc, found) ↦
        let (one, others) = AreKeyed-without_document index.documents doc found c.keyed in
        rw (remove_found index doc found) (record {
          frequencies = λ t.
              count-lower_all t doc.tokens index.document_frequency one
              ∙ omega (
                arith,
                c.frequencies t,
                documents_with-without_document t index.documents doc found,
              );
          lengths = omega (arith, c.lengths, sum_words-without_document index.documents doc found);
          keyed = others;
        })
  ]

  pub length-remove :
      (index : Bm25Index)
      → length (remove id index).documents + (if has_document id index then 1 else 0)
        ≡ length index.documents
  length-remove index = elim (Option-cases (find_document id index.documents)) [
    | inl missing ↦ rw (remove_missing index missing, has_document, missing) (omega arith)
    | inr (doc, found) ↦
        rw (remove_found index doc found, has_document, found)
          (omega (arith, length-without_document index.documents doc found))
  ]
