-- ===== src/Write/Host.antt =====
-- What the write path uses of code that is not in the repository.
use mcp_odoo.Prelude.{String, Option}
use mcp_odoo.Json.{Value, Items, Fields, text}

-- `digest` is the text that `hashlib.sha256` and `json.dumps` make of a canonical value (the first
-- 32 hex digits); `render` is Python's `str` of a value that is no text. Neither has any law.
pub record Host : Type 0 where
  pub digest : Value → String
  pub render : Value → String

-- `str(v)`
unfoldable pub str : Host → Value → String
str host (text s) = s
str host v = host.render v

-- one remote call: the named instance (`none` is the default client), model, method, arguments
pub record Call : Type 0 where
  pub instance : Option String
  pub model : String
  pub method : String
  pub args : Items
  pub kwargs : Fields

-- what a remote call gives back: its result, or an exception with its text
pub data Reply : Type 0 where
  returned : Value → Reply
  raised : String → Reply
