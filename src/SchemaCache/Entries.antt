-- ===== src/SchemaCache/Entries.antt =====
-- What is stored is found until it expires, nothing is found later, and the cache stays bounded.
use mcp_odoo.Prelude.{
  ℕ, ◌+◌, ◌≤◌, ◌<◌, ◌≡◌, ◌∙◌, refl, sym, eq_iff, inl, inr, String, ◌⊎◌, none, some, List, All, [],
  ◌∷◌, arith, ltb, leb, str_eq, eq_refl, if◌then◌else◌, length, Bool-cases, Option-cases,
}
use mathlib.Core.Path.{subst}
use mcp_odoo.Prelude.Dict
use mcp_odoo.Prelude.Dict.{Dict, get-put, get-remove}
use mcp_odoo.SchemaCache.{Cache, get_item, drop_oldest, set_item}

module _ {ℓ} {V : Type ℓ} where
  length-drop_oldest_le : (n : ℕ) (entries : Dict (ℕ × V)) → length (drop_oldest n entries) ≤ n
  unfolding drop_oldest
  length-drop_oldest_le n [] = omega arith
  length-drop_oldest_le n (e ∷ entries) = ground (arith, length-drop_oldest_le n entries)

  length-put_pos : (k : String) (x : ℕ × V) (d : Dict (ℕ × V)) → 0 < length (Dict.put k x d)
  length-put_pos k x [] = omega arith
  length-put_pos k x ((j, w) ∷ d) = ground arith

  -- the newest entry is the last that is dropped
  get-drop_oldest :
      (n : ℕ) (k : String) (x : ℕ × V) (d : Dict (ℕ × V))
      → 0 < n
      → Dict.get k d ≡ none
      → Dict.get k (drop_oldest n (Dict.put k x d)) ≡ some x
  unfolding drop_oldest
  get-drop_oldest n k x [] l h = ground (arith, eq_refl k)
  get-drop_oldest n k x ((j, w) ∷ d) l h = elim (Bool-cases (str_eq j k)) [
    | inl same ↦ cc (rw same at h)
    | inr other ↦ rw other (
        ground
          (arith, get-drop_oldest n k x d l (rw other at h), get-put k k x d, eq_refl k, other))
  ]

  get_item_found :
      (c : Cache V) (key : String) (now expires_at : ℕ) (value : V)
      → Dict.get key c.entries ≡ some (expires_at, value)
      → (get_item c key now).1 ≡ (if ltb now expires_at then some value else none)
  unfolding get_item
  get_item_found c key now expires_at value found = elim (Bool-cases (leb expires_at now)) [
    | inl late ↦ rw (get_item, found, late) (ground arith)
    | inr early ↦ rw (get_item, found, early) (ground arith)
  ]

  -- the cache after some reads, each of a key at a time
  abbrev pub after_reads : Cache V → List (String × ℕ) → Cache V
  after_reads c [] = c
  after_reads c ((key, now) ∷ reads) = after_reads (get_item c key now).0 reads

  module _ (key : String) (expires_at later : ℕ) (value : V) where
    -- the entry is there, or it has expired and been removed
    abbrev IsKept : Cache V → Type ℓ
    IsKept c =
        (Dict.get key c.entries ≡ some (expires_at, value))
        ⊎ ((expires_at ≤ later) × (Dict.get key c.entries ≡ none))

    -- a read of the entry itself
    get_item-IsKept_same :
        (c : Cache V) (now : ℕ)
        → now ≤ later
        → Dict.get key c.entries ≡ some (expires_at, value)
        → IsKept (get_item c key now).0
    unfolding get_item
    get_item-IsKept_same c now l found = elim (Bool-cases (leb expires_at now)) [
      | inl late ↦ inr (
        ground (arith, late),
        rw (get_item, found, late, get-remove key key c.entries, eq_refl key) refl,
      )
      | inr early ↦ inl (
          rw
            (
              get_item,
              found,
              early,
              get-put key key (expires_at, value) (Dict.remove key c.entries),
              eq_refl key,
            )
            refl)
    ]

    get_item-IsKept :
        (c : Cache V) (k : String) (now : ℕ) → now ≤ later → IsKept c → IsKept (get_item c k now).0
    unfolding get_item
    get_item-IsKept c k now l kept = elim (Option-cases (Dict.get k c.entries)) [
      | inl missing ↦ rw (get_item, missing) kept
      | inr ((e, v), found) ↦ elim (Bool-cases (str_eq k key)) [
        | inl same ↦ elim kept [
          | inl there ↦
              subst (λ j. IsKept (get_item c j now).0) (sym ((eq_iff k key).0 same))
                (get_item-IsKept_same c now l there)
          | inr (late, gone) ↦ cc (found, gone, (eq_iff k key).0 same)
        ]
        | inr other ↦ elim (Bool-cases (leb e now)) [
          | inl late ↦ rw (get_item, found, late, get-remove k key c.entries, other) kept
          | inr early ↦
              rw
                (
                  get_item,
                  found,
                  early,
                  get-put k key (e, v) (Dict.remove k c.entries),
                  get-remove k key c.entries,
                  other,
                )
                kept
        ]
      ]
    ]

    found_after_reads :
        (c : Cache V) (reads : List (String × ℕ))
        → All (λ read. read.1 ≤ later) reads
        → IsKept c
        → (get_item (after_reads c reads) key later).1
          ≡ (if ltb later expires_at then some value else none)
    unfolding get_item
    found_after_reads c [] in_order kept = elim kept [
      | inl there ↦ get_item_found c key later expires_at value there
      | inr (late, gone) ↦ rw (get_item, gone) (ground arith)
    ]
    found_after_reads c ((k, now) ∷ reads) in_order kept =
        found_after_reads (get_item c k now).0 reads in_order.1
          (get_item-IsKept c k now in_order.0 kept)

  module _ (c : Cache V) (key : String) (value : V) (now : ℕ) where
    -- A cache that has just been written holds at most `max_entries` entries.
    pub length-set_item_le : length (set_item c key value now).entries ≤ c.max_entries
    unfolding set_item
    length-set_item_le = length-drop_oldest_le c.max_entries _

    found_after :
        0 < c.max_entries
        → Dict.get key (set_item c key value now).entries ≡ some (now + c.ttl_seconds, value)
    unfolding set_item
    found_after positive =
        get-drop_oldest c.max_entries key (now + c.ttl_seconds, value) (Dict.remove key c.entries)
          positive (get-remove key key c.entries ∙ rw (eq_refl key))

    -- What is stored under a key is found under it for `ttl_seconds` seconds, and not afterwards,
    -- whatever is read in between, this key included, if nothing is written.
    pub get_item-set_item :
        (reads : List (String × ℕ)) (later : ℕ)
        → 0 < c.max_entries
        → All (λ read. read.1 ≤ later) reads
        → (get_item (after_reads (set_item c key value now) reads) key later).1
          ≡ (if ltb later (now + c.ttl_seconds) then some value else none)
    get_item-set_item reads later positive in_order =
        found_after_reads key (now + c.ttl_seconds) later value (set_item c key value now) reads
          in_order (inl (found_after positive))
