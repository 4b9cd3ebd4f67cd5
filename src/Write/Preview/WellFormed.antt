-- ===== src/Write/Preview/WellFormed.antt =====
-- Which requests a preview accepts: `build_write_preview_report` against a description of the
-- requests that make one standard ORM call.
use mcp_odoo.Prelude.{
  ℕ, ◌+◌, ◌≤◌, String, ◌≡◌, ◌≢◌, ◌↔◌, ◌⊎◌, inl, inr, refl, Bool-cases, Bool, true, false, not, ◌&&◌,
  ◌||◌, Option, none, some, List, [], ◌∷◌, ◌++◌, arith, str_eq, eq_iff,
}
use mcp_odoo.Prelude.Int.{ℤ}
use mcp_odoo.Json.{dict, Items, nil, cons, Fields, end, field, count_items}
use mcp_odoo.Write.Host.{Host}
use mcp_odoo.Write.Preview.{
  Issue, IssueCode, Request, when, has_error, is_write_operation, is_empty, no_fields, size_issues,
  entry_issues, batch_issues, preview_issues, normalized_operation, fields_or_empty, ids_or_empty,
  is_bad_entry, build_write_preview_report,
}

-- every entry of a batch is a dict with at least one key
abbrev pub AreRecords : Items → Type 0
AreRecords nil = Unit
AreRecords (cons (dict (field k v fs)) vs) = AreRecords vs
AreRecords (cons _ vs) = ⊥

-- the values of a create: one record, or a batch of 1 to 100
abbrev pub IsCreate : Fields → Option Items → Type 0
IsCreate values none = values ≢ end
IsCreate values (some vs) =
    (values ≡ end) × (1 ≤ count_items vs) × (count_items vs ≤ 100) × AreRecords vs

abbrev pub IsAcceptable : Request → Type 0
IsAcceptable r =
    let op = normalized_operation r in
    let values = fields_or_empty r.values in
    let ids = ids_or_empty r.record_ids in
    ((op ≡ "create") × IsCreate values r.values_list)
    ⊎ (((op ≡ "write") × (r.values_list ≡ none) × (ids ≢ []) × (values ≢ end))
        ⊎ ((op ≡ "unlink") × (r.values_list ≡ none) × (ids ≢ [])))

pub has_error-append : (xs ys : List Issue) → has_error (xs ++ ys) ≡ (has_error xs || has_error ys)
has_error-append [] ys = refl
has_error-append (x ∷ xs) ys = ground (arith, has_error-append xs ys)

has_error-when : (b : Bool) (c : IssueCode) → has_error (when b c) ≡ b
has_error-when true c = refl
has_error-when false c = refl

has_bad : Items → Bool
has_bad nil = false
has_bad (cons v vs) = is_bad_entry v || has_bad vs

has_error-entry_issues : (i : ℕ) (vs : Items) → has_error (entry_issues i vs) ≡ has_bad vs
unfolding entry_issues has_bad
has_error-entry_issues i nil = refl
has_error-entry_issues i (cons v vs) =
    rw (has_error-append, has_error-when, has_error-entry_issues (i + 1) vs)

has_bad_iff : (vs : Items) → (has_bad vs ≡ false) ↔ AreRecords vs
unfolding has_bad
has_bad_iff nil = (λ _. tt, λ _. refl)
has_bad_iff (cons (dict (field k v fs)) vs) = has_bad_iff vs
has_bad_iff (cons _ vs) = (λ h. cc, λ h. absurd h)

size_issues_iff :
    (vs : Items)
    → (has_error (size_issues vs) ≡ false) ↔ ((1 ≤ count_items vs) × (count_items vs ≤ 100))
unfolding size_issues
size_issues_iff vs = (λ h. ground arith, λ h. ground arith)

batch-IsCreate :
    (values : Fields) (entries : Option Items)
    → (has_error (batch_issues "create" values entries) ≡ false) ↔ IsCreate values entries
unfolding batch_issues
batch-IsCreate end none = (λ h. cc, λ h. absurd (h refl))
batch-IsCreate (field k v fs) none = (λ h. ground arith, λ h. refl)
batch-IsCreate end (some vs) =
    simp (has_error-append, has_error-entry_issues)
      (
        λ h. ground (arith, size_issues_iff vs, has_bad_iff vs),
        λ h. ground (arith, size_issues_iff vs, has_bad_iff vs),
      )
batch-IsCreate (field k v fs) (some vs) = (λ h. ground arith, λ h. ground arith)

batch-other :
    (op : String) (values : Fields) (entries : Option Items)
    → str_eq op "create" ≡ false
    → (has_error (batch_issues op values entries) ≡ false) ↔ (entries ≡ none)
unfolding batch_issues
batch-other op values none other = (λ h. refl, λ h. ground arith)
batch-other op values (some vs) other = (λ h. ground arith, λ h. ground arith)

no_fields_iff : (fs : Fields) → (no_fields fs ≡ true) ↔ (fs ≡ end)
no_fields_iff end = (λ h. refl, λ h. refl)
no_fields_iff (field k v fs) = (λ h. ground arith, λ h. ground arith)

is_empty_iff : (ids : List ℤ) → (is_empty ids ≡ true) ↔ (ids ≡ [])
is_empty_iff [] = (λ h. refl, λ h. refl)
is_empty_iff (i ∷ is) = (λ h. ground arith, λ h. ground arith)

has_error-preview_issues :
    (r : Request)
    → has_error (preview_issues r) ≡ (
        not (is_write_operation (normalized_operation r))
        || (has_error
              (batch_issues (normalized_operation r) (fields_or_empty r.values) r.values_list)
            || (((str_eq (normalized_operation r) "write"
                    || str_eq (normalized_operation r) "unlink")
                  && is_empty (ids_or_empty r.record_ids))
                || (str_eq (normalized_operation r) "write"
                    && no_fields (fields_or_empty r.values)))))
unfolding preview_issues
has_error-preview_issues r = simp (has_error-append, has_error-when)

-- the decision, over what it depends on
module _ (op : String) (values : Fields) (entries : Option Items) (ids : List ℤ) where
  abbrev Accepts : Type 0
  Accepts =
      ((op ≡ "create") × IsCreate values entries)
      ⊎ (((op ≡ "write") × (entries ≡ none) × (ids ≢ []) × (values ≢ end))
          ⊎ ((op ≡ "unlink") × (entries ≡ none) × (ids ≢ [])))

  abbrev refuses : Bool
  refuses =
      not (is_write_operation op)
      || (has_error (batch_issues op values entries)
          || (((str_eq op "write" || str_eq op "unlink") && is_empty ids)
              || (str_eq op "write" && no_fields values)))

  refuses-Accepts : refuses ≡ false → Accepts
  refuses-Accepts h = elim (Bool-cases (str_eq op "create")) [
    | inl t ↦ inl (
      (eq_iff op "create").0 t,
      (batch-IsCreate values entries).0 (ground (arith, eq_iff op "create")),
    )
    | inr f ↦ inr (elim (Bool-cases (str_eq op "write")) [
      | inl t ↦ inl (
        (eq_iff op "write").0 t,
        (batch-other op values entries f).0 (ground arith),
        λ e. ground (arith, is_empty_iff ids),
        λ e. ground (arith, no_fields_iff values),
      )
      | inr g ↦ inr (
        ground (arith, eq_iff op "unlink"),
        (batch-other op values entries f).0 (ground arith),
        λ e. ground (arith, is_empty_iff ids),
      )
    ])
  ]

  Accepts-refuses : Accepts → refuses ≡ false
  Accepts-refuses (inl (e, c)) = rw e (ground (arith, batch-IsCreate values entries))
  Accepts-refuses (inr (inl (e, n, ids', values'))) =
      rw (e, n)
        (ground
          (arith, batch-other "write" values none refl, is_empty_iff ids, no_fields_iff values))
  Accepts-refuses (inr (inr (e, n, ids'))) =
      rw (e, n) (ground (arith, batch-other "unlink" values none refl, is_empty_iff ids))

-- A preview succeeds exactly for the requests that make one standard call: a create of one non-empty
-- record, or of a batch of 1 to 100 non-empty records and no single values; a write of some records
-- with some values; an unlink of some records; the last two with no batch.
pub preview-IsAcceptable :
    (host : Host) (r : Request)
    → ((build_write_preview_report host r).success ≡ true) ↔ IsAcceptable r
unfolding build_write_preview_report
preview-IsAcceptable host r = rw has_error-preview_issues (
  λ h. refuses-Accepts op values r.values_list ids (ground arith),
  λ h. ground (arith, Accepts-refuses op values r.values_list ids h),
)
  where
    op : String
    op = normalized_operation r

    values : Fields
    values = fields_or_empty r.values

    ids : List ℤ
    ids = ids_or_empty r.record_ids
