-- ===== src/Knowledge/Index/Addition.antt =====
-- What `BM25Index.add` makes.
use mcp_odoo.Prelude.{
  ℕ, suc, ◌+◌, String, ◌≡◌, refl, ◌∙◌, List, [], ◌∷◌, ◌++◌, if◌then◌else◌, arith, length,
  length-append,
}
use mcp_odoo.Prelude.Dict
use mcp_odoo.Prelude.Dict.{Dict, contains, keys}
use mcp_odoo.Prelude.Dict.Entries.{IsKeyed, put-IsKeyed}
use mcp_odoo.Prelude.Int.{ℤ}
use mcp_odoo.Knowledge.Index.{
  Language, Document, Bm25Index, no_documents, count, count_tokens, document_of, has_document,
  remove, add,
}
use mcp_odoo.Knowledge.Index.Counts.{
  documents_with, sum_words, AreKeyed, IsConsistent, count-raise_all,
}
use mcp_odoo.Knowledge.Index.Removal.{remove-IsConsistent, length-remove}

documents_with-append :
    (t : String) (docs others : List (ℤ × Document))
    → documents_with t (docs ++ others) ≡ documents_with t docs + documents_with t others
unfolding documents_with
documents_with-append t [] others = omega arith
documents_with-append t ((i, d) ∷ docs) others = omega (arith, documents_with-append t docs others)

sum_words-append :
    (docs others : List (ℤ × Document))
    → sum_words (docs ++ others) ≡ sum_words docs + sum_words others
unfolding sum_words
sum_words-append [] others = omega arith
sum_words-append ((i, d) ∷ docs) others = omega (arith, sum_words-append docs others)

AreKeyed-append :
    (docs others : List (ℤ × Document))
    → AreKeyed docs
    → AreKeyed others
    → AreKeyed (docs ++ others)
AreKeyed-append [] others k l = l
AreKeyed-append ((i, d) ∷ docs) others k l = (k.0, AreKeyed-append docs others k.1 l)

count_tokens-IsKeyed :
    (terms : List String) (counter : Dict ℕ)
    → IsKeyed counter
    → IsKeyed (count_tokens terms counter)
unfolding count_tokens
count_tokens-IsKeyed [] counter u = u
count_tokens-IsKeyed (t ∷ terms) counter u =
    count_tokens-IsKeyed terms (Dict.put t (suc (count t counter)) counter)
      (put-IsKeyed t (suc (count t counter)) counter u)

module _ (lang : Language) (id : ℤ) (content : String) (index : Bm25Index) where
  pub add-IsConsistent : IsConsistent index → IsConsistent (add lang id content index)
  unfolding add documents_with sum_words
  add-IsConsistent c =
      let doc = document_of lang content in
      let before = remove-IsConsistent id index c in
      let own : IsKeyed doc.tokens = count_tokens-IsKeyed (lang.tokenize content) [] tt in
      record {
        frequencies = λ t.
            count-raise_all t doc.tokens (remove id index).document_frequency own
            ∙ omega (
              arith,
              before.frequencies t,
              documents_with-append t (remove id index).documents ((id, doc) ∷ []),
            );
        lengths =
            omega (
              arith,
              before.lengths,
              sum_words-append (remove id index).documents ((id, doc) ∷ []),
            );
        keyed = AreKeyed-append (remove id index).documents ((id, doc) ∷ []) before.keyed (own, tt);
      }

  -- a document that is there is replaced, another is one more
  pub length-add :
      length (add lang id content index).documents
      ≡ length index.documents + (if has_document id index then 0 else 1)
  unfolding add
  length-add = ground (
    arith,
    length-remove id index,
    length-append (remove id index).documents ((id, document_of lang content) ∷ []),
  )

pub no_documents-IsConsistent : IsConsistent no_documents
unfolding documents_with sum_words
no_documents-IsConsistent = record { frequencies = λ t. refl; lengths = refl; keyed = tt }
