-- ===== src/Lib.antt =====
-- A verification library for mcp-odoo, an MCP server that gives agents gated access to Odoo.
--
-- The server (src/odoo_mcp) is a set of tools over one application context. The core of it is the
-- write gate: `preview_write` canonicalises a request and hashes it to an approval token,
-- `validate_write` checks it against the metadata of the model and stores it under that token for 600
-- seconds, and `execute_approved_write` sends the one remote call that the token stands for. The read
-- tools pass what they return through the field policy, which removes the fields that the operator
-- denied; calls are counted by the rate limit, and long ones run in the task queue.
--
-- Files, and the code that each models:
-- Prelude and its children: booleans, lists, dicts and texts as Python has them.
-- Json: JSON values, Python's `==` on them, and the canonical form that is hashed
--   (`_normalize_numbers` and `canonical_json` of src/odoo_mcp/agent_tools.py). A finite float is a
--   dyadic fraction; infinities and NaN are not modelled. Json/Equality and Json/Canonical have their
--   lemmas.
-- Write: the write gate. Write/Names is `validate_model_name` and `validate_method_name` of
--   src/odoo_mcp/tool_helpers.py; Write/Preview is `build_write_preview_report` and Write/Validate is
--   `validate_write_report` of src/odoo_mcp/agent_tools.py; Write/Approvals is the store of validated
--   approvals of src/odoo_mcp/server_core.py; Write/Execute is `_execute_approved_write_gated` of
--   src/odoo_mcp/tools_write.py. Write/Host has what the code takes from its surroundings: Python's
--   `str` on values and the digest of a canonical value are fields of a record, as are the
--   environment, the connection and Odoo's answers in Write/Execute. Write/Uploads is the resolution
--   of `*_from_path` fields, over a file system and encodings that are parameters; Write/Tools has the
--   tools `preview_write` and `validate_write`, and Write/Confirmation the elicitation of a human
--   confirmation around `execute_approved_write`, all of src/odoo_mcp/tools_write.py.
-- FieldPolicy: src/odoo_mcp/field_policy.py. FieldPolicy/Parse reads the policy; the file system and
--   the JSON decoder are a record of functions.
-- RateLimit: src/odoo_mcp/rate_limit.py. The window and the budget are fields of the tracker; how the
--   environment's texts are read as numbers is not modelled.
-- TaskQueue: `AsyncTaskManager` of src/odoo_mcp/task_queue.py. TaskQueue/Steps is the manager with its
--   workers as a step relation: each block under the lock is a step, and the steps of submissions,
--   workers, polls and cancellations interleave in any order. The second loop of `_purge_locked` runs
--   on fuel, a round for each task: each round drops one, so that the rounds suffice. A submission
--   takes a new identifier, since `uuid4` gives one. The thread pool is not modelled.
-- Domain: `build_domain_report` of src/odoo_mcp/agent_tools.py. Domain/Meaning has Odoo's reading of a
--   domain, a prefix expression over conditions, which it is compared with.
-- SchemaCache: src/odoo_mcp/schema_cache.py.
-- SideEffects: the allowlist of side-effect methods of src/odoo_mcp/write_policy.py, over the same file
--   system and decoder as FieldPolicy/Parse. What Python raises where the file is not UTF-8 or
--   no object is an error.
-- Resolve: `_resolve_odoo` and `AppContext.get_client` of src/odoo_mcp/server_core.py.
-- Chatter: `chatter_post` of src/odoo_mcp/tools_write.py. Chatter/Covered reads the
--   content of a message back from the payload under its token.
-- Methods: `execute_method` of src/odoo_mcp/tools_write.py, with `classify_method_safety` of
--   src/odoo_mcp/diagnostics.py; Methods/DomainInput is `normalize_domain_input` of
--   src/odoo_mcp/tool_helpers.py, over decoders that are parameters. It composes the allowlist of
--   SideEffects and the tracker of RateLimit.
-- Knowledge: the document store of src/odoo_mcp/knowledge_index.py; Knowledge/Index is `BM25Index`. The
--   tokenizer is a parameter, and the search, whose scores are floats, is not modelled.
-- Sign: `sign_model` of src/odoo_mcp/sign_tools_data.py, with the guards of src/odoo_mcp/sign_policy.py
--   in Sign/Policy, whose lists are Sign/Lists. Sign/Permitted says which calls the guards permit.
-- FieldRanking: the selection of fields of src/odoo_mcp/field_ranking.py, for reads that name none, and
--   `resolve_read_fields` of src/odoo_mcp/server_core.py.
-- CrossInstance: the selection of instances and the merge of their rows of src/odoo_mcp/cross_instance.py.
--
-- Correspondence: a request, an approval and a payload are dicts (`Fields`); a tool's dict of results
-- is a record or a result type whose errors are constructors in place of messages. The clock is an
-- argument of each operation, in whole seconds. Python's dicts are association lists in insertion
-- order.
--
-- Not modelled: the transports, logging, prompts, the HTTP and OAuth layers, the XML-RPC client, the
-- scanners of addons, the audit log, and the tools that only shape Odoo's answers.
-- Writes are modelled one after the other.
pub mod Chatter
pub mod CrossInstance
pub mod Domain
pub mod FieldPolicy
pub mod FieldRanking
pub mod Json
pub mod Knowledge
pub mod Methods
pub mod Prelude
pub mod RateLimit
pub mod Resolve
pub mod SchemaCache
pub mod SideEffects
pub mod Sign
pub mod TaskQueue
pub mod Write
