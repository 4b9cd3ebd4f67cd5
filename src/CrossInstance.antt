-- ===== src/CrossInstance.antt =====
-- src/odoo_mcp/cross_instance.py: which instances a query goes to, and how their rows are merged. The
-- sums over measures and buckets, which are floats, are not modelled.
pub mod Selected
pub mod Merged
mod Tests
use mcp_odoo.Prelude.Result.{Result, ok, err, ◌>>=◌}
use mcp_odoo.Prelude.{
  String, Bool, true, false, not, ◌&&◌, Option, none, some, List, [], ◌∷◌, ◌++◌, any, str_eq,
  if◌then◌else◌,
}
use mcp_odoo.Prelude.Dict
use mcp_odoo.Prelude.Dict.{Dict, contains}
use mcp_odoo.Prelude.Text.{strip}
use mcp_odoo.Json.{
  Value, null, text, list, dict, Items, nil, cons, Fields, end, field, get_field, get_or_null,
  put_field, or_else, truthy,
}
use mcp_odoo.Write.Host.{Host, str}
use mcp_odoo.SideEffects.{PolicyFault, iterated}
use mcp_odoo.FieldPolicy.{sorted_set}

pub record InstanceMeta : Type 0 where
  pub tags : List String
  pub cross_instance : Bool

pub record Selection : Type 0 where
  pub selected : List String
  pub skipped_opt_out : List String
  pub unknown : List String

-- `{str(t).strip() for t in raw if str(t).strip()}`, as a list
unfoldable pub stripped_tags : Host → Items → List String
stripped_tags host nil = []
stripped_tags host (cons v vs) =
    let rest = stripped_tags host vs in
    let tag = strip (str host v) in if str_eq tag "" then rest else tag ∷ rest

-- the tags of an entry, `entry.get("tags") or []`
unfoldable pub tags_of : Host → Fields → Result PolicyFault (List String)
tags_of host entry = do
  raw ← iterated (or_else (get_field "tags" entry) (list nil))
  ok (stripped_tags host raw)

-- an instance takes part unless it opts out
abbrev pub takes_part : Value → Bool
takes_part null = true
takes_part v = truthy v

-- `parse_instances_meta`
unfoldable pub parse_instances_meta : Host → Dict Fields → Result PolicyFault (Dict InstanceMeta)
parse_instances_meta host [] = ok []
parse_instances_meta host ((name, entry) ∷ summary) = do
  tags ← tags_of host entry
  rest ← parse_instances_meta host summary
  ok (
      (
        name,
        record { tags = tags; cross_instance = takes_part (get_or_null "cross_instance" entry) },
      )
      ∷ rest)

-- the three shapes of `requested`
pub data Requested : Type 0 where
  every : Requested
  tagged named : List String → Requested

unfoldable pub rendered : Host → Items → List String
rendered host nil = []
rendered host (cons v vs) = str host v ∷ rendered host vs

abbrev names_of : Host → Value → Result PolicyFault Requested
names_of host v = do items ← iterated v; ok (named (rendered host items))

-- a text that is not "all" is the list of its characters
unfoldable pub read_request : Host → Value → Result PolicyFault Requested
read_request host null = ok every
read_request host (text s) = if str_eq s "all" then ok every else names_of host (text s)
read_request host (dict fs) = do wanted ← tags_of host fs; ok (tagged wanted)
read_request host v = names_of host v

-- the instances that take part and pass a test
unfoldable pub opted_in : (InstanceMeta → Bool) → Dict InstanceMeta → List String
opted_in p [] = []
opted_in p ((name, meta) ∷ metas) =
    let rest = opted_in p metas in if meta.cross_instance && p meta then name ∷ rest else rest

-- `metas[name].tags & wanted_tags`
abbrev pub has_tag : List String → InstanceMeta → Bool
has_tag wanted meta = any (contains wanted) meta.tags

-- the loop over explicit names
unfoldable pub select_named : Dict InstanceMeta → List String → Selection
select_named metas [] = record { selected = []; skipped_opt_out = []; unknown = [] }
select_named metas (name ∷ names) =
    let rest = select_named metas names in
    elim (Dict.get name metas) [
      | none ↦ record rest { unknown = name ∷ rest.unknown }
      | some meta ↦
          if not meta.cross_instance
          then record rest { skipped_opt_out = name ∷ rest.skipped_opt_out }
          else record rest { selected = name ∷ rest.selected }
    ]

abbrev only : List String → Selection
only names = record { selected = names; skipped_opt_out = []; unknown = [] }

unfoldable pub select : Dict InstanceMeta → Requested → Selection
select metas every = only (sorted_set (opted_in (λ _. true) metas))
select metas (tagged wanted) = only (sorted_set (opted_in (has_tag wanted) metas))
select metas (named names) = select_named metas names

-- `select_instances`
unfoldable pub select_instances : Host → Value → Dict InstanceMeta → Result PolicyFault Selection
select_instances host requested metas = do q ← read_request host requested; ok (select metas q)

-- `{**record, INSTANCE_TAG_KEY: name}`
abbrev pub tag_row : String → Fields → Fields
tag_row name row = put_field "_instance" (text name) row

unfoldable pub tag_rows : String → List Fields → List Fields
tag_rows name [] = []
tag_rows name (row ∷ rows) = tag_row name row ∷ tag_rows name rows

-- `tag_and_merge`
unfoldable pub tag_and_merge : Dict (List Fields) → List Fields
tag_and_merge [] = []
tag_and_merge ((name, rows) ∷ results) = tag_rows name rows ++ tag_and_merge results
