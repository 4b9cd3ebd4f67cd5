-- ===== src/SchemaCache.antt =====
-- `BoundedTTLCache` of src/odoo_mcp/schema_cache.py. The entries stand in the order of their last use,
-- oldest first, as in the dict that the code keeps; the clock is an argument.
pub mod Entries
mod Tests
use mcp_odoo.Prelude.{
  ℕ, ◌+◌, String, Bool, true, false, Option, none, some, [], ◌∷◌, ltb, leb, if◌then◌else◌, length,
}
use mcp_odoo.Prelude.Dict
use mcp_odoo.Prelude.Dict.{Dict}

module _ {ℓ} (V : Type ℓ) where
  -- an entry is its expiry and its value
  pub record Cache : Type ℓ where
    pub max_entries : ℕ
    pub ttl_seconds : ℕ
    pub entries : Dict (ℕ × V)

module _ {ℓ} {V : Type ℓ} where
  -- `__getitem__` with `_purge_locked`; `none` is a KeyError
  unfoldable pub get_item : Cache V → String → ℕ → Cache V × Option V
  get_item c key now = elim (Dict.get key c.entries) [
    | none ↦ (c, none)
    | some (expires_at, value) ↦
        let others = Dict.remove key c.entries in
        if leb expires_at now
        then (record c { entries = others }, none)
        else (record c { entries = Dict.put key (expires_at, value) others }, some value)
  ]

  -- `while len(self._entries) > self.max_entries: del self._entries[oldest]`
  unfoldable pub drop_oldest : ℕ → Dict (ℕ × V) → Dict (ℕ × V)
  drop_oldest max_entries [] = []
  drop_oldest max_entries (e ∷ entries) =
      let rest = drop_oldest max_entries entries in
      if ltb max_entries (length (e ∷ entries)) then rest else e ∷ entries

  -- `__setitem__`
  unfoldable pub set_item : Cache V → String → V → ℕ → Cache V
  set_item c key value now = record c {
    entries =
        drop_oldest c.max_entries
          (Dict.put key (now + c.ttl_seconds, value) (Dict.remove key c.entries));
  }

  -- `__contains__`, which counts as a use
  unfoldable pub has_item : Cache V → String → ℕ → Cache V × Bool
  has_item c key now =
      let (c', found) = get_item c key now in (c', elim found [ none ↦ false | some _ ↦ true ])

  -- `get`
  unfoldable pub get_or : Cache V → String → V → ℕ → Cache V × V
  get_or c key default now =
      let (c', found) = get_item c key now in (c', elim found [ none ↦ default | some v ↦ v ])
