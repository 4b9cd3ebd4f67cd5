-- ===== src/SchemaCache/Tests.antt =====
-- A cache of two entries, and the theorems of the cache at concrete inputs.
use mcp_odoo.Prelude.{ℕ, ◌≤◌, List, String, ◌≡◌, refl, none, some, [], ◌∷◌, arith, length}
use mcp_odoo.Prelude.Dict
use mcp_odoo.SchemaCache.{Cache, get_item, drop_oldest, set_item}
use mcp_odoo.SchemaCache.Entries.{length-set_item_le, after_reads, get_item-set_item}

program : Unit {0}
unfolding get_item drop_oldest set_item
program = tt

abbrev empty_cache : Cache String
empty_cache = record { max_entries = 2; ttl_seconds = 600; entries = [] }

abbrev full : Cache String
full = set_item (set_item empty_cache "default:res.partner" "p" 100) "default:sale.order" "s" 110

-- the model read last is kept, the other makes way
evicted :
    Dict.keys
      (set_item (get_item full "default:res.partner" 120).0 "default:crm.lead" "l" 130).entries
    ≡ "default:res.partner" ∷ "default:crm.lead" ∷ []
unfolding program
evicted = refl

length-set_item_le_example : length (set_item full "default:crm.lead" "l" 130).entries ≤ 2
unfolding program
length-set_item_le_example = length-set_item_le full "default:crm.lead" "l" 130

abbrev reads : List (String × ℕ)
reads = ("default:crm.lead", 600) ∷ ("default:sale.order", 720) ∷ []

get_item-set_item_example :
    (get_item
      (after_reads (set_item full "default:crm.lead" "l" 130) reads)
      "default:crm.lead"
      729).1
    ≡ some "l"
unfolding program
get_item-set_item_example =
    get_item-set_item full "default:crm.lead" "l" 130 reads 729 (omega arith)
      (omega arith, (omega arith, tt))

expired : (get_item (set_item full "default:crm.lead" "l" 130) "default:crm.lead" 730).1 ≡ none
unfolding program
expired = refl
