-- ===== src/Knowledge/Index/Counts.antt =====
-- The counters of a BM25 index agree with its documents.
use mcp_odoo.Prelude.{
  ℕ, suc, ◌+◌, ◌-◌, String, ◌≡◌, refl, ◌∙◌, false, none, List, [], ◌∷◌, str_eq, if◌then◌else◌,
  arith, eq_iff,
}
use mcp_odoo.Prelude.Dict
use mcp_odoo.Prelude.Dict.{Dict, contains, keys}
use mcp_odoo.Prelude.Dict.Entries.{IsKeyed}
use mcp_odoo.Prelude.Int.{ℤ}
use mcp_odoo.Knowledge.Index.{Document, Bm25Index, count, raise_all, lower_one, lower_all}

-- 1 for a document with the term
abbrev pub has_term : String → Document → ℕ
has_term term doc = if contains (keys doc.tokens) term then 1 else 0

-- how many documents have the term
unfoldable pub documents_with : String → List (ℤ × Document) → ℕ
documents_with term [] = 0
documents_with term ((id, doc) ∷ docs) = has_term term doc + documents_with term docs

unfoldable pub sum_words : List (ℤ × Document) → ℕ
sum_words [] = 0
sum_words ((id, doc) ∷ docs) = doc.words + sum_words docs

abbrev pub AreKeyed : List (ℤ × Document) → Type 0
AreKeyed [] = Unit
AreKeyed ((id, doc) ∷ docs) = IsKeyed doc.tokens × AreKeyed docs

-- Each term is counted once for each document that has it, and the total length is the sum of the
-- lengths.
pub record IsConsistent (index : Bm25Index) : Type 0 where
  pub frequencies :
      (term : String) → count term index.document_frequency ≡ documents_with term index.documents
  pub lengths : index.total_length ≡ sum_words index.documents
  pub keyed : AreKeyed index.documents

count-put :
    (k t : String) (n : ℕ) (df : Dict ℕ)
    → count t (Dict.put k n df) ≡ (if str_eq k t then n else count t df)
count-put k t n df = ground (arith, Dict.get-put k t n df)

count-lower_one :
    (k t : String) (df : Dict ℕ)
    → count t (lower_one k df) ≡ (if str_eq k t then count t df - 1 else count t df)
count-lower_one k t df =
    ground (arith, Dict.get-put k t (count k df - 1) df, Dict.get-remove k t df, eq_iff k t)

-- the terms that are counted for one document, each of which stands once
module _ (t : String) where
  absent : (counter : Dict ℕ) → Dict.get t counter ≡ none → contains (keys counter) t ≡ false
  absent [] h = refl
  absent ((k, n) ∷ counter) h = ground (arith, absent counter)

  pub count-raise_all :
      (counter df : Dict ℕ)
      → IsKeyed counter
      → count t (raise_all (keys counter) df)
        ≡ count t df + (if contains (keys counter) t then 1 else 0)
  unfolding raise_all
  count-raise_all [] df u = omega arith
  count-raise_all ((k, n) ∷ counter) df u =
      count-raise_all counter (Dict.put k (suc (count k df)) df) u.1
      ∙ ground (arith, count-put k t (suc (count k df)) df, eq_iff k t, absent counter, u.0)

  pub count-lower_all :
      (counter df : Dict ℕ)
      → IsKeyed counter
      → count t (lower_all (keys counter) df)
        ≡ count t df - (if contains (keys counter) t then 1 else 0)
  unfolding lower_all
  count-lower_all [] df u = omega arith
  count-lower_all ((k, n) ∷ counter) df u =
      count-lower_all counter (lower_one k df) u.1
      ∙ ground (arith, count-lower_one k t df, eq_iff k t, absent counter, u.0)
