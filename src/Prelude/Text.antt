-- ===== src/Prelude/Text.antt =====
-- Python's `str.strip` and `str.lower` on texts as sequences of code points.
-- `lower` covers the letters of ASCII and Latin-1 and the Kelvin sign, which Python also lowers to
-- an ASCII letter; other code points stay as they are.
use mathlib.Core.Path.{◌≡◌, refl}
use Prim.Native.Char.{Char, code}
use Prim.Native.String.{String}
use Prim.Native.Nat.{ℕ}
use mathlib.Core.Bool.{Bool, true, false, ◌&&◌, ◌||◌}
use mathlib.Core.List.{List, [], ◌∷◌}
use mathlib.Core.Option.{Option, none, some}
use text.Mathlib.Text.{◌==◌ as str_eq}
use mcp_odoo.Prelude.Tests.{leb, ◌==◌, if◌then◌else◌}

-- the code points that `str.isspace` accepts
unfoldable pub is_space : Char → Bool
is_space ch =
    let c = code ch in
    leb 9 c && leb c 13
    || leb 28 c && leb c 32
    || c == 133
    || c == 160
    || c == 5760
    || leb 8192 c && leb c 8202
    || c == 8232
    || c == 8233
    || c == 8239
    || c == 8287
    || c == 12288

unfoldable pub lstrip : String → String
lstrip String.[] = String.[]
lstrip (String.◌∷◌ c s) = if is_space c then lstrip s else String.◌∷◌ c s

add_left : Char → String → String
add_left c String.[] = if is_space c then String.[] else String.◌∷◌ c String.[]
add_left c (String.◌∷◌ d s) = String.◌∷◌ c (String.◌∷◌ d s)

unfoldable pub rstrip : String → String
unfolding add_left
rstrip String.[] = String.[]
rstrip (String.◌∷◌ c s) = add_left c (rstrip s)

unfoldable pub strip : String → String
unfolding is_space lstrip rstrip
strip s = rstrip (lstrip s)

-- the character of the second text at the place where the first has `c`
lower_char : String → String → Char → Char
lower_char (String.◌∷◌ u us) (String.◌∷◌ l ls) c =
    let rest = lower_char us ls c in if code u == code c then l else rest
lower_char _ _ c = c

abbrev upper_letters : String
upper_letters = "ABCDEFGHIJKLMNOPQRSTUVWXYZÀÁÂÃÄÅÆÇÈÉÊËÌÍÎÏÐÑÒÓÔÕÖØÙÚÛÜÝÞK"

abbrev lower_letters : String
lower_letters = "abcdefghijklmnopqrstuvwxyzàáâãäåæçèéêëìíîïðñòóôõöøùúûüýþk"

unfoldable pub lower : String → String
unfolding lower_char
lower String.[] = String.[]
lower (String.◌∷◌ c s) = String.◌∷◌ (lower_char upper_letters lower_letters c) (lower s)

abbrev first_part : Char → List String → List String
first_part c [] = String.◌∷◌ c String.[] ∷ []
first_part c (part ∷ parts) = String.◌∷◌ c part ∷ parts

-- `s.split(sep)`, of a separator of one character
unfoldable pub split_on : ℕ → String → List String
split_on sep String.[] = "" ∷ []
split_on sep (String.◌∷◌ c s) =
    let parts = split_on sep s in if code c == sep then "" ∷ parts else first_part c parts

-- `s[:-len(suffix)]`, if s ends with the suffix
unfoldable pub before_suffix : String → String → Option String
before_suffix suffix String.[] = if str_eq suffix "" then some "" else none
before_suffix suffix (String.◌∷◌ c s) =
    let rest = before_suffix suffix s in
    if str_eq (String.◌∷◌ c s) suffix
    then some ""
    else (elim rest [ none ↦ none | some base ↦ some (String.◌∷◌ c base) ])

-- `s[len(prefix):]`, if s starts with the prefix
unfoldable pub after_prefix : String → String → Option String
after_prefix String.[] s = some s
after_prefix (String.◌∷◌ p ps) String.[] = none
after_prefix (String.◌∷◌ p ps) (String.◌∷◌ c s) =
    let rest = after_prefix ps s in if code p == code c then rest else none

unfoldable pub starts_with : String → String → Bool
starts_with prefix s = elim (after_prefix prefix s) [ none ↦ false | some _ ↦ true ]

strip_sample : strip " \tname \n" ≡ "name"
unfolding strip
strip_sample = refl

lower_sample : lower "UnLinK É" ≡ "unlink é"
unfolding lower
lower_sample = refl

-- `s.endswith(suffix)`
unfoldable pub ends_with : String → String → Bool
unfolding before_suffix
ends_with suffix s = elim (before_suffix suffix s) [ none ↦ false | some _ ↦ true ]

-- `part in s`
unfoldable pub has_part : String → String → Bool
has_part part String.[] = str_eq part ""
has_part part (String.◌∷◌ c s) = starts_with part (String.◌∷◌ c s) || has_part part s
