-- ===== src/SideEffects/Allowed.antt =====
-- Exactly the reviewed names are allowed.
use mcp_odoo.Prelude.{
  String, ◌≡◌, ◌∙◌, ◌||◌, refl, false, Bool, Option, none, some, List, [], ◌∷◌, ◌++◌, any, arith,
  eq_iff, inl, inr, Bool-cases, Option-cases, ap, str_eq,
}
use mcp_odoo.Prelude.Dict.{contains}
use mcp_odoo.Prelude.Result.{ok, >>=-eq-ok}
use mcp_odoo.Prelude.Text.{strip, split_on}
use mcp_odoo.Json.{
  Value, null, bool, int, float, text, list, dict, Items, nil, cons, Fields, get_field, or_else,
}
use mcp_odoo.Write.Host.{Host}
use mcp_odoo.Write.Approvals.{text_at}
use mcp_odoo.FieldPolicy.Parse.{Files, policy_file_path}
use mcp_odoo.FieldPolicy.Rules.{contains-append}
use mcp_odoo.SideEffects.{
  stripped_names, entry_name, entry_names, iterated, load_decoded, load_side_effect_policy,
  merge_names, env_methods, allowed_side_effect_methods, side_effect_method_allowed,
}
use package.text.Mathlib.TextLemmas.{nil-append, cons-append}
use Prim.Native.Char.{Char}
use Prim.Native.String.compare
use Prim.Native.String.{◌++◌ as append_text}

pub contains-merge_names :
    (merged names : List String) (k : String)
    → contains (merge_names merged names) k ≡ (contains merged k || contains names k)
unfolding merge_names
contains-merge_names merged [] k = ground arith
contains-merge_names merged (name ∷ names) k = elim (Bool-cases (contains merged name)) [
  | inl known ↦ rw (known, contains-merge_names merged names k) (ground (arith, eq_iff name k))
  | inr new ↦
      rw (new, contains-merge_names (merged ++ name ∷ []) names k, contains-append)
        (ground (arith, eq_iff name k))
]

-- an entry of the file names a method: the stripped text, or that of the key "method"
abbrev names_method : Host → String → Value → Bool
names_method host name (text s) = str_eq (strip s) name
names_method host name (dict fs) = str_eq (strip (text_at host "method" fs)) name
names_method host name _ = false

abbrev any_names : Host → String → Items → Bool
any_names host name nil = false
any_names host name (cons v vs) = names_method host name v || any_names host name vs

-- the value of a variable, or the empty text
abbrev variable : Files → String → String
variable files name = elim (files.env name) [ none ↦ "" | some s ↦ s ]

-- The entries of the policy file: none where there is no file or it cannot be read, else those of its
-- list of methods, in whatever form it is given.
pub data HasEntries (files : Files) : Items → Type 0 where
  no_file : policy_file_path files ≡ none → HasEntries files nil
  unreadable :
      (path : String)
      → policy_file_path files ≡ some path
      → files.escapes path ≡ false
      → files.decode path ≡ none
      → HasEntries files nil
  readable :
      (path : String) (fs : Fields) (vs : Items)
      → policy_file_path files ≡ some path
      → files.escapes path ≡ false
      → files.decode path ≡ some (dict fs)
      → iterated (or_else (get_field "allowed_side_effect_methods" fs) (list nil)) ≡ ok vs
      → HasEntries files vs

-- a part of the variable between commas, or an entry, names the method with its model
abbrev pub is_listed : Host → Files → Items → String → String → Bool
is_listed host files vs model method =
    let name = append_text model (append_text "." method) in
    any (λ part. str_eq (strip part) name)
      (split_on b',' (variable files "ODOO_MCP_ALLOWED_SIDE_EFFECT_METHODS"))
    || any_names host name vs

cons_present : (c : Char) (s : String) → str_eq "" (String.◌∷◌ c s) ≡ false
cons_present c s = rw (compare.nil-cons c s) refl

append_present : (u t : String) → str_eq "" u ≡ false → str_eq "" (append_text u t) ≡ false
append_present String.[] t h = cc h
append_present (String.◌∷◌ c s) t h = rw (cons-append c s t) (cons_present c _)

full_name_present :
    (model method : String) → str_eq "" (append_text model (append_text "." method)) ≡ false
full_name_present String.[] method =
    rw (nil-append (append_text "." method)) (append_present "." method refl)
full_name_present (String.◌∷◌ c s) method =
    append_present (String.◌∷◌ c s) (append_text "." method) (cons_present c s)

contains-stripped_names :
    (items : List String) (name : String)
    → str_eq "" name ≡ false
    → contains (stripped_names items) name ≡ any (λ part. str_eq (strip part) name) items
unfolding stripped_names
contains-stripped_names [] name h = refl
contains-stripped_names (item ∷ items) name h =
    ground (arith, contains-stripped_names items name h, eq_iff (strip item) "", h)

entry_name-names_method :
    (host : Host) (v : Value) (name : String)
    → str_eq "" name ≡ false
    → str_eq (entry_name host v) name ≡ names_method host name v
unfolding entry_name
entry_name-names_method host (text s) name h = refl
entry_name-names_method host (dict fs) name h = refl
entry_name-names_method host null name h = h
entry_name-names_method host (bool b) name h = h
entry_name-names_method host (int a) name h = h
entry_name-names_method host (float a e) name h = h
entry_name-names_method host (list vs) name h = h

contains-entry_names :
    (host : Host) (vs : Items) (name : String)
    → str_eq "" name ≡ false
    → contains (entry_names host vs) name ≡ any_names host name vs
unfolding entry_names
contains-entry_names host nil name h = refl
contains-entry_names host (cons v vs) name h = ground (
  arith,
  contains-entry_names host vs name h,
  entry_name-names_method host v name h,
  eq_iff (entry_name host v) "",
  h,
)

load_HasEntries :
    (host : Host) (files : Files) (vs : Items)
    → HasEntries files vs
    → load_side_effect_policy host files ≡ ok (entry_names host vs)
unfolding load_side_effect_policy entry_names
load_HasEntries host files vs (no_file missing) = rw (load_side_effect_policy, missing) refl
load_HasEntries host files vs (unreadable path there quiet broken) =
    rw (load_side_effect_policy, there, quiet, broken) refl
load_HasEntries host files vs (readable path fs vs' there quiet read found) =
    rw (load_side_effect_policy, there, quiet, read, found) refl

load_decoded-HasEntries :
    (host : Host) (files : Files) (path : String) (names : List String) (o : Option Value)
    → policy_file_path files ≡ some path
    → files.escapes path ≡ false
    → files.decode path ≡ o
    → load_decoded host o ≡ ok names
    → (vs : Items) × HasEntries files vs
load_decoded-HasEntries host files path names none there quiet read h =
    (nil, unreadable path there quiet read)
load_decoded-HasEntries host files path names (some (dict fs)) there quiet read h =
    let (vs, found, _) =
      >>=-eq-ok (iterated (or_else (get_field "allowed_side_effect_methods" fs) (list nil))) _ h in
    (vs, readable path fs vs there quiet read found)
load_decoded-HasEntries host files path names (some null) there quiet read h = cc h
load_decoded-HasEntries host files path names (some (bool b)) there quiet read h = cc h
load_decoded-HasEntries host files path names (some (int a)) there quiet read h = cc h
load_decoded-HasEntries host files path names (some (float a e)) there quiet read h = cc h
load_decoded-HasEntries host files path names (some (text s)) there quiet read h = cc h
load_decoded-HasEntries host files path names (some (list vs)) there quiet read h = cc h

-- a policy that loads has entries
HasEntries-load :
    (host : Host) (files : Files) (names : List String)
    → load_side_effect_policy host files ≡ ok names
    → (vs : Items) × HasEntries files vs
unfolding load_side_effect_policy
HasEntries-load host files names h = elim (Option-cases (policy_file_path files)) [
  | inl missing ↦ (nil, no_file missing)
  | inr (path, there) ↦ elim (Bool-cases (files.escapes path)) [
    | inl raised ↦ cc (rw (load_side_effect_policy, there, raised) at h)
    | inr quiet ↦
        load_decoded-HasEntries host files path names (files.decode path) there quiet refl
          (rw (load_side_effect_policy, there, quiet) at h)
  ]
]

-- an answer means that the policy loaded
pub HasEntries-allowed :
    (host : Host) (files : Files) (model method : String) (allowed : Bool)
    → side_effect_method_allowed host files model method ≡ ok allowed
    → (vs : Items) × HasEntries files vs
unfolding side_effect_method_allowed allowed_side_effect_methods
HasEntries-allowed host files model method allowed h =
    let (methods, merged, _) = >>=-eq-ok (allowed_side_effect_methods host files) _ h in
    let (names, loaded, _) = >>=-eq-ok (load_side_effect_policy host files) _ merged in
    HasEntries-load host files names loaded

-- Where the policy file has some entries, or is missing or unreadable and has none, a method of a
-- model may be called for its side effects exactly if its full name is one of the parts of the
-- variable, stripped, or the stripped name of one of the entries.
pub side_effect_method_allowed-is_listed :
    (host : Host) (files : Files) (model method : String) (vs : Items)
    → HasEntries files vs
    → side_effect_method_allowed host files model method ≡ ok (is_listed host files vs model method)
unfolding side_effect_method_allowed allowed_side_effect_methods
side_effect_method_allowed-is_listed host files model method vs entries =
    let name = append_text model (append_text "." method) in
    let present = full_name_present model method in
    rw (load_HasEntries host files vs entries) (
      ap ok (
        contains-merge_names [] (env_methods files ++ entry_names host vs) name
        ∙ contains-append (env_methods files) (entry_names host vs) name
        ∙ rw
            (
              contains-stripped_names
                  (split_on b',' (variable files "ODOO_MCP_ALLOWED_SIDE_EFFECT_METHODS")) name
                  present,
              contains-entry_names host vs name present,
            )
            refl))
