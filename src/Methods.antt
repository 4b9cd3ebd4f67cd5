-- ===== src/Methods.antt =====
-- `execute_method` of src/odoo_mcp/tools_write.py, with `classify_method_safety` of
-- src/odoo_mcp/diagnostics.py: which methods an agent may call directly. Methods/DomainInput is the
-- domain that it hands to the search methods.
pub mod DomainInput
pub mod Callable
pub mod Gate
mod Tests
use mcp_odoo.Prelude.Result.{Result, err, guard, ok, ◌>>=◌, ◌>>◌}
use mcp_odoo.Prelude.{
  ℕ, String, Bool, true, false, not, ◌&&◌, ◌||◌, Option, none, some, List, [], ◌∷◌, ◌++◌, ◌==◌,
  str_eq, if◌then◌else◌,
}
use mcp_odoo.Prelude.Dict.{contains}
use mcp_odoo.Prelude.Text.{after_prefix, starts_with}
use mcp_odoo.Json.{Value, null, list, Items, nil, cons, Fields, end}
use mcp_odoo.Write.Host.{Call, returned, raised}
use mcp_odoo.Write.Names.{is_model_name, is_method_name}
use mcp_odoo.Write.Execute.{Deployment, truthy_env}
use mcp_odoo.FieldPolicy.Parse.{Files}
use mcp_odoo.SideEffects.{PolicyFault, side_effect_method_allowed}
use mcp_odoo.RateLimit.{RateError, Tracker, check_rate, rate_limit_mode, rate_key}
use mcp_odoo.Resolve.{Resolved, resolve_odoo}
use mcp_odoo.Methods.DomainInput.{Decoders, normalize_domain_input}
use Prim.Native.Char.{Char, code}

pub data MethodSafety : Type 0 where
  destructive read_only side_effect unknown : MethodSafety

pub data Confidence : Type 0 where
  high medium low : Confidence

pub record Classification : Type 0 where
  pub safety : MethodSafety
  pub destructive_method : Bool
  pub confidence : Confidence

abbrev destructive_methods : List String
destructive_methods = "create" ∷ "write" ∷ "unlink" ∷ []

abbrev read_only_methods : List String
read_only_methods =
    "search" ∷ "search_count" ∷ "search_read" ∷ "read" ∷ "fields_get" ∷ "name_get" ∷ "name_search"
    ∷ "context_get" ∷ []

-- `part in s`
unfoldable pub occurs_in : String → String → Bool
occurs_in part String.[] = starts_with part String.[]
occurs_in part (String.◌∷◌ c s) = starts_with part (String.◌∷◌ c s) || occurs_in part s

-- `($|_)`: the end, also before a final line break
abbrev ends_word : String → Bool
ends_word String.[] = true
ends_word (String.◌∷◌ c String.[]) = code c == 95 || code c == 10
ends_word (String.◌∷◌ c s) = code c == 95

abbrev is_word_then : String → String → Bool
is_word_then word s = elim (after_prefix word s) [ none ↦ false | some rest ↦ ends_word rest ]

-- `_word($|_)`
unfoldable pub has_later_word : String → String → Bool
has_later_word word String.[] = false
has_later_word word (String.◌∷◌ c s) = code c == 95 && is_word_then word s || has_later_word word s

-- `(^|_)word($|_)`
unfoldable pub has_word : String → String → Bool
has_word word s = is_word_then word s || has_later_word word s

-- `SIDE_EFFECT_METHOD_PATTERNS`
unfoldable pub is_side_effect_name : String → Bool
unfolding starts_with has_word
is_side_effect_name method =
    starts_with "action_" method
    || starts_with "button_" method
    || has_word "send" method
    || has_word "post" method
    || has_word "validate" method

-- `classify_method_safety`
unfoldable pub classify_method_safety : String → Classification
classify_method_safety method =
    if contains destructive_methods method
    then record { safety = destructive; destructive_method = true; confidence = high }
    else if contains read_only_methods method
        || (starts_with "get_" method || starts_with "_get_" method)
    then record {
      safety = read_only;
      destructive_method = false;
      confidence = if contains read_only_methods method then high else medium;
    }
    else if str_eq method "message_post" || is_side_effect_name method
    then record { safety = side_effect; destructive_method = false; confidence = medium }
    else record { safety = unknown; destructive_method = false; confidence = low }

abbrev pub is_review_required : MethodSafety → Bool
is_review_required side_effect = true
is_review_required unknown = true
is_review_required _ = false

-- What the server runs in: `is_fault` tells of the exceptions that `respond` raises which are XML-RPC
-- faults; the text of a fault is its `faultString`.
pub record Server : Type 0 where
  pub deployment : Deployment
  pub exists : String → Bool
  pub decode : String → Option Value
  pub escapes : String → Bool
  pub decoders : Decoders
  pub is_fault : List Call → Call → Bool

-- what the calls of the tool change
pub record Traffic : Type 0 where
  pub tracker : Tracker
  pub calls : List Call

pub data MethodError : Type 0 where
  invalid_model invalid_method destructive_blocked decoding_raised rate_refused : MethodError
  unreviewed_blocked : Classification → MethodError
  policy_fault : PolicyFault → MethodError
  rate_fault : RateError → MethodError
  connection_failed remote_failed : String → MethodError

-- the result, or the warning that Odoo committed a call whose None it could not send
pub data MethodReply : Type 0 where
  answered : Value → MethodReply
  committed_without_result : MethodReply

abbrev pub none_marshal_marker : String
none_marshal_marker = "cannot marshal None unless allow_none is enabled"

abbrev pub files_of : Server → Files
files_of s = record {
  env = s.deployment.env;
  exists = s.exists;
  decode = s.decode;
  escapes = s.escapes;
}

-- whether an unreviewed method is let through; the flag is read last
unfoldable pub is_reviewed : Server → String → String → Result PolicyFault Bool
is_reviewed s model method = do
  allowed ← side_effect_method_allowed s.deployment.host (files_of s) model method
  ok (allowed || truthy_env s.deployment.env "ODOO_MCP_ALLOW_UNKNOWN_METHODS")

abbrev review : Classification → Result PolicyFault Bool → Result MethodError (Unit {0})
review c (err e) = err (policy_fault e)
review c (ok reviewed) = guard reviewed (unreviewed_blocked c)

-- the gates before anything is sent or counted
unfoldable pub check_method : Server → String → String → Result MethodError (Unit {0})
check_method s model method = do
  guard (is_model_name model) invalid_model
  guard (is_method_name method) invalid_method
  let c = classify_method_safety method
  guard (not (contains destructive_methods method)) destructive_blocked
  if is_review_required c.safety then review c (is_reviewed s model method) else ok tt

abbrev search_methods : List String
search_methods = "search" ∷ "search_count" ∷ "search_read" ∷ []

-- the first argument of a search is made a domain
unfoldable pub search_args : Decoders → String → Items → Option Items
search_args ds method nil = some nil
search_args ds method (cons v vs) =
    if contains search_methods method
    then (elim (normalize_domain_input ds v) [
      | none ↦ none
      | some terms ↦ some (cons (list terms) vs)
    ])
    else some (cons v vs)

-- the remote call, and what is made of its exception
unfoldable pub call_method : Server → Traffic → Call → Traffic × Result MethodError MethodReply
call_method s t call =
    let sent = record t { calls = t.calls ++ call ∷ [] } in
    elim (s.deployment.respond t.calls call) [
      | returned value ↦ (sent, ok (answered value))
      | raised message ↦
          if s.is_fault t.calls call && occurs_in none_marshal_marker message
          then (sent, ok committed_without_result)
          else (sent, err (remote_failed message))
    ]

-- what follows the count
abbrev pub after_count :
    Server → Traffic → Call → Result RateError Bool → Traffic × Result MethodError MethodReply
after_count s t call (err e) = (t, err (rate_fault e))
after_count s t call (ok refused) = if refused then (t, err rate_refused) else call_method s t call

-- the call is counted, and sent unless the rate limit refuses it
unfoldable pub count_and_call :
    Server → Traffic → Resolved → Call → ℕ → Traffic × Result MethodError MethodReply
count_and_call s t r call now =
    let mode = rate_limit_mode (s.deployment.env "ODOO_MCP_RATE_LIMIT_MODE") in
    let (tracker, refusal) =
      check_rate mode t.tracker (rate_key r.instance_name "execute_method") now in
    after_count s (record t { tracker = tracker }) call refusal

abbrev pub method_call : String → String → Items → Fields → Resolved → Call
method_call model method args kwargs r = record {
  instance = r.client;
  model = model;
  method = method;
  args = args;
  kwargs = kwargs;
}

-- what follows the gates
unfoldable pub resolve_and_call :
    Server
    → Traffic
    → String
    → String
    → Items
    → Fields
    → Option String
    → ℕ
    → Traffic × Result MethodError MethodReply
resolve_and_call s t model method args kwargs instance now =
    elim (search_args s.decoders method args) [
      | none ↦ (t, err decoding_raised)
      | some args' ↦ elim (resolve_odoo s.deployment instance) [
        | err message ↦ (t, err (connection_failed message))
        | ok r ↦ count_and_call s t r (method_call model method args' kwargs r) now
      ]
    ]

-- `execute_method`
unfoldable pub execute_method :
    Server
    → Traffic
    → String
    → String
    → Items
    → Fields
    → Option String
    → ℕ
    → Traffic × Result MethodError MethodReply
execute_method s t model method args kwargs instance now = elim (check_method s model method) [
  | err e ↦ (t, err e)
  | ok _ ↦ resolve_and_call s t model method args kwargs instance now
]
