-- ===== src/Knowledge/Index.antt =====
-- `BM25Index` of src/odoo_mcp/knowledge_index.py. The tokens of a text are a
-- parameter. `search`, whose scores are floats, is not modelled.
pub mod Counts
pub mod Removal
pub mod Addition
use mcp_odoo.Prelude.{
  ℕ, zero, suc, ◌+◌, ◌-◌, max, String, Bool, true, false, Option, none, some, List, [], ◌∷◌, ◌++◌,
  ◌==◌, if◌then◌else◌, length, take, map,
}
use mcp_odoo.Prelude.Dict
use mcp_odoo.Prelude.Dict.{Dict, keys}
use mcp_odoo.Prelude.Int.{ℤ, eq_ℤ}
use mcp_odoo.Json.{Value}

-- `tokenize` lowers and folds a text by the Unicode tables; `strip_tags` puts a space for each tag of
-- a text that has both angle brackets; `render` is Python's `str` of a number.
pub record Language : Type 0 where
  pub tokenize : String → List String
  pub strip_tags : String → String
  pub render : Value → String

pub record Document : Type 0 where
  pub content : String
  pub tokens : Dict ℕ
  pub words : ℕ

pub record Bm25Index : Type 0 where
  pub documents : List (ℤ × Document)
  pub document_frequency : Dict ℕ
  pub total_length : ℕ

abbrev pub no_documents : Bm25Index
no_documents = record { documents = []; document_frequency = []; total_length = 0 }

-- `counter[term]`, which is 0 for a term that is not there
abbrev pub count : String → Dict ℕ → ℕ
count term counter = elim (Dict.get term counter) [ none ↦ 0 | some n ↦ n ]

-- `Counter(tokens)`, behind what is counted
unfoldable pub count_tokens : List String → Dict ℕ → Dict ℕ
count_tokens [] counter = counter
count_tokens (term ∷ terms) counter =
    count_tokens terms (Dict.put term (suc (count term counter)) counter)

unfoldable pub sum_values : Dict ℕ → ℕ
sum_values [] = 0
sum_values ((term, n) ∷ counter) = n + sum_values counter

abbrev pub document_of : Language → String → Document
document_of lang content =
    let tokens = count_tokens (lang.tokenize content) [] in
    record { content = content; tokens = tokens; words = sum_values tokens }

unfoldable pub find_document : ℤ → List (ℤ × Document) → Option Document
find_document id [] = none
find_document id ((i, doc) ∷ docs) = if eq_ℤ i id then some doc else find_document id docs

unfoldable pub without_document : ℤ → List (ℤ × Document) → List (ℤ × Document)
without_document id [] = []
without_document id ((i, doc) ∷ docs) =
    let rest = without_document id docs in if eq_ℤ i id then docs else (i, doc) ∷ rest

abbrev pub has_document : ℤ → Bm25Index → Bool
has_document id index = elim (find_document id index.documents) [ none ↦ false | some _ ↦ true ]

-- `for term in tokens: document_frequency[term] += 1`
unfoldable pub raise_all : List String → Dict ℕ → Dict ℕ
raise_all [] df = df
raise_all (term ∷ terms) df = raise_all terms (Dict.put term (suc (count term df)) df)

-- `document_frequency[term] -= 1`, and the entry goes when it is 0
abbrev pub lower_one : String → Dict ℕ → Dict ℕ
lower_one term df =
    let n = count term df - 1 in if n == 0 then Dict.remove term df else Dict.put term n df

unfoldable pub lower_all : List String → Dict ℕ → Dict ℕ
lower_all [] df = df
lower_all (term ∷ terms) df = lower_all terms (lower_one term df)

-- `remove`; the total is never less than the length of a document
unfoldable pub remove : ℤ → Bm25Index → Bm25Index
remove id index = elim (find_document id index.documents) [
  | none ↦ index
  | some doc ↦ record {
    documents = without_document id index.documents;
    document_frequency = lower_all (keys doc.tokens) index.document_frequency;
    total_length = index.total_length - doc.words;
  }
]

-- `add`: the document that was there is removed, so that the new one goes to the end
unfoldable pub add : Language → ℤ → String → Bm25Index → Bm25Index
add lang id content index =
    let doc = document_of lang content in
    let before = remove id index in
    record {
      documents = before.documents ++ (id, doc) ∷ [];
      document_frequency = raise_all (keys doc.tokens) before.document_frequency;
      total_length = before.total_length + doc.words;
    }
