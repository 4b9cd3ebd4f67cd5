-- ===== src/Write/Names.antt =====
-- `MODEL_NAME_RE` and `METHOD_NAME_RE` of src/odoo_mcp/tool_helpers.py, as automata over the text.
use Prim.Native.Char.{Char, code}
use mcp_odoo.Prelude.{String, Bool, true, false, ◌&&◌, ◌||◌, ◌≡◌, refl, leb, ◌==◌, if◌then◌else◌}

-- [a-zA-Z_]
unfoldable pub is_name_start : Char → Bool
is_name_start ch =
    let c = code ch in leb b'a' c && leb c b'z' || leb b'A' c && leb c b'Z' || c == b'_'

-- [a-zA-Z0-9_]
unfoldable pub is_name_part : Char → Bool
unfolding is_name_start
is_name_part ch = let c = code ch in is_name_start ch || leb b'0' c && leb c b'9'

-- the rest of a dotted name: `at_start` says that a segment begins here
unfoldable pub matches_from : Bool → String → Bool
unfolding is_name_part
matches_from at_start String.[] = if at_start then false else true
matches_from true (String.◌∷◌ c s) = is_name_start c && matches_from false s
matches_from false (String.◌∷◌ c s) =
    let dotted = code c == b'.' in (is_name_part c || dotted) && matches_from dotted s

-- `MODEL_NAME_RE.fullmatch`
unfoldable pub is_model_name : String → Bool
unfolding matches_from
is_model_name s = matches_from true s

unfoldable pub matches_part : String → Bool
unfolding is_name_part
matches_part String.[] = true
matches_part (String.◌∷◌ c s) = is_name_part c && matches_part s

-- `METHOD_NAME_RE.fullmatch`
unfoldable pub is_method_name : String → Bool
unfolding matches_part
is_method_name String.[] = false
is_method_name (String.◌∷◌ c s) = is_name_start c && matches_part s

names_sample :
    (is_model_name "res.partner" ≡ true)
    × (is_model_name "res..partner" ≡ false)
    × (is_model_name "1st" ≡ false)
    × (is_method_name "search_read" ≡ true)
unfolding is_model_name is_method_name
names_sample = (refl, refl, refl, refl)
