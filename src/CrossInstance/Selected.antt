-- ===== src/CrossInstance/Selected.antt =====
-- Which instances a query goes to.
use mcp_odoo.Prelude.Result.{ok, >>=-eq-ok, ok_inj}
use mcp_odoo.Prelude.{
  String, ◌≡◌, refl, ◌∙◌, Bool, true, false, not, ◌&&◌, Option, none, some, List, [], ◌∷◌, arith,
  eq_iff,
}
use mathlib.Core.Path.{subst}
use mcp_odoo.Prelude.Dict
use mcp_odoo.Prelude.Dict.{Dict, contains}
use mcp_odoo.Prelude.Dict.Entries.{IsKeyed}
use mcp_odoo.Json.{Value}
use mcp_odoo.Write.Host.{Host}
use mcp_odoo.FieldPolicy.Redaction.{contains-sorted_set}
use mcp_odoo.CrossInstance.{
  InstanceMeta, Selection, Requested, every, tagged, named, read_request, opted_in, has_tag,
  select_named, select, select_instances,
}

-- a test of an instance that is configured
abbrev pub holds_of : (InstanceMeta → Bool) → Option InstanceMeta → Bool
holds_of p none = false
holds_of p (some meta) = p meta

-- whether an instance takes part
abbrev pub is_opted_in : Dict InstanceMeta → String → Bool
is_opted_in metas name = holds_of (λ meta. meta.cross_instance) (Dict.get name metas)

abbrev pub is_configured : Dict InstanceMeta → String → Bool
is_configured metas name = holds_of (λ _. true) (Dict.get name metas)

-- whether a request asks for an instance
abbrev pub asks_for : Dict InstanceMeta → Requested → String → Bool
asks_for metas every name = true
asks_for metas (tagged wanted) name = holds_of (has_tag wanted) (Dict.get name metas)
asks_for metas (named names) name = contains names name

-- whether a request names an instance
abbrev pub is_named_in : Requested → String → Bool
is_named_in (named names) name = contains names name
is_named_in _ name = false

-- The instances selected are those asked for that take part; those that are named and do not take
-- part, or are not configured, are reported as such.
abbrev pub IsSelection : Dict InstanceMeta → Requested → Selection → String → Type 0
IsSelection metas q s name =
    (contains s.selected name ≡ (asks_for metas q name && is_opted_in metas name))
    × (contains s.skipped_opt_out name
        ≡ (is_named_in q name && (is_configured metas name && not (is_opted_in metas name))))
    × (contains s.unknown name ≡ (is_named_in q name && not (is_configured metas name)))

contains-opted_in :
    (p : InstanceMeta → Bool) (metas : Dict InstanceMeta) (name : String)
    → IsKeyed metas
    → contains (opted_in p metas) name
      ≡ (holds_of p (Dict.get name metas) && is_opted_in metas name)
unfolding opted_in
contains-opted_in p [] name u = refl
contains-opted_in p ((n, meta) ∷ metas) name u =
    ground (arith, u.0, contains-opted_in p metas name u.1, eq_iff n name)

select_named-IsSelection :
    (metas : Dict InstanceMeta) (names : List String) (name : String)
    → IsSelection metas (named names) (select_named metas names) name
unfolding select_named
select_named-IsSelection metas [] name = (refl, refl, refl)
select_named-IsSelection metas (n ∷ names) name =
    ground (arith, select_named-IsSelection metas names name, eq_iff n name)

select-IsSelection :
    (metas : Dict InstanceMeta) (q : Requested) (name : String)
    → IsKeyed metas
    → IsSelection metas q (select metas q) name
unfolding select
select-IsSelection metas every name u = (
  contains-sorted_set (opted_in (λ _. true) metas) name
      ∙ ground (arith, contains-opted_in (λ _. true) metas name u),
  refl,
  refl,
)
select-IsSelection metas (tagged wanted) name u = (
  contains-sorted_set (opted_in (has_tag wanted) metas) name
      ∙ contains-opted_in (has_tag wanted) metas name u,
  refl,
  refl,
)
select-IsSelection metas (named names) name u = select_named-IsSelection metas names name

-- The instances selected are exactly those that the request asks for, by its tags, by name or all of
-- them, and that have not opted out; those that it names and that opted out, or are not configured,
-- are exactly the ones reported so.
pub select_instances-IsSelection :
    (host : Host) (requested : Value) (metas : Dict InstanceMeta) (s : Selection) (name : String)
    → IsKeyed metas
    → select_instances host requested metas ≡ ok s
    → (q : Requested) × (read_request host requested ≡ ok q) × IsSelection metas q s name
unfolding select_instances
select_instances-IsSelection host requested metas s name u h =
    let (q, read, same) = >>=-eq-ok (read_request host requested) _ h in
    (
      q,
      read,
      subst (λ t. IsSelection metas q t name) (ok_inj same) (select-IsSelection metas q name u),
    )
