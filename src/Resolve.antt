-- ===== src/Resolve.antt =====
-- `_resolve_odoo` and `AppContext.get_client` of src/odoo_mcp/server_core.py: which client a tool call
-- uses. A client is known by the instance it is connected to; `none` is the default client.
use mcp_odoo.Prelude.{String, Option, none, some, str_eq, if◌then◌else◌}
use mcp_odoo.Prelude.Result.{Result, ok, err}
use mcp_odoo.Write.Execute.{Deployment}

pub record Resolved : Type 0 where
  pub instance_name : String
  pub client : Option String

-- a client that cannot be made raises, with a text
unfoldable pub connected : Deployment → Resolved → Result String Resolved
connected d r = elim (d.connect r.client) [ none ↦ ok r | some message ↦ err message ]

-- `get_client`, of a name that is not empty
unfoldable pub get_client : Deployment → String → Result String Resolved
unfolding connected
get_client d instance = connected d (record { instance_name = instance; client = some instance })

abbrev pub default_client : Deployment → Result String Resolved
default_client d = connected d (record { instance_name = d.default_instance; client = none })

-- `_resolve_odoo`
unfoldable pub resolve_odoo : Deployment → Option String → Result String Resolved
unfolding get_client
resolve_odoo d none = default_client d
resolve_odoo d (some instance) =
    if str_eq instance "" then default_client d else get_client d instance
