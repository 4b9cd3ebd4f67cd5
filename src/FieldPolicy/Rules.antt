-- ===== src/FieldPolicy/Rules.antt =====
-- What the rules of a field policy permit, and the test that the code makes of it.
use mcp_odoo.Prelude.{
  String, ◌≡◌, ◌↔◌, ◌⊎◌, inr, refl, Bool, true, false, not, ◌&&◌, ◌||◌, Option, none, some, List,
  [], ◌∷◌, ◌++◌, keep, arith, eq_iff,
}
use mcp_odoo.Prelude.Dict
use mcp_odoo.Prelude.Dict.{Dict, contains, keys}
use mcp_odoo.FieldPolicy.{
  Mode, deny, allow, ModelFieldRule, FieldPolicy, Effective, models_of, merge_mode, merge_rule,
  merge_both, effective, is_kept, split_names, split_by,
}

-- the names that one rule lets through; no rule lets all through
abbrev pub Lets : Mode → List String → String → Type 0
Lets deny fields name = contains fields name ≡ false
Lets allow fields name = contains fields name ≡ true

abbrev pub IsAllowedBy : Option ModelFieldRule → String → Type 0
IsAllowedBy none name = Unit
IsAllowedBy (some rule) name = Lets rule.mode rule.fields name

-- a field may be read: it is "id", or the rules of its model and of every model let it through
abbrev pub IsPermitted : FieldPolicy → String → String → String → Type 0
IsPermitted policy instance model name =
    let models = models_of policy instance in
    (name ≡ "id")
    ⊎ (IsAllowedBy (Dict.get "*" models) name × IsAllowedBy (Dict.get model models) name)

pub contains-append :
    (xs ys : List String) (k : String) → contains (xs ++ ys) k ≡ (contains xs k || contains ys k)
contains-append [] ys k = refl
contains-append (x ∷ xs) ys k = ground (arith, contains-append xs ys k)

contains-keep :
    (fs xs : List String) (k : String)
    → contains (keep (contains fs) xs) k ≡ (contains xs k && contains fs k)
contains-keep fs [] k = refl
contains-keep fs (x ∷ xs) k = ground (arith, contains-keep fs xs k, eq_iff x k)

-- the whole test, with a pass where no rule applies
abbrev pub keeps : Option Effective → String → Bool
keeps none name = true
keeps (some e) name = is_kept e name

abbrev start : Effective
start = record { allow = none; deny = [] }

keeps_one :
    (m : Mode) (fs : List String) (name : String)
    → (is_kept (merge_mode m fs start) name ≡ true) ↔ ((name ≡ "id") ⊎ Lets m fs name)
unfolding is_kept
keeps_one deny fs name =
    (λ h. ground (arith, eq_iff name "id"), λ h. ground (arith, eq_iff name "id"))
keeps_one allow fs name =
    (λ h. ground (arith, eq_iff name "id"), λ h. ground (arith, eq_iff name "id"))

keeps_two :
    (m n : Mode) (fs gs : List String) (name : String)
    → (is_kept (merge_mode n gs (merge_mode m fs start)) name ≡ true)
      ↔ ((name ≡ "id") ⊎ (Lets m fs name × Lets n gs name))
unfolding is_kept
keeps_two deny deny fs gs name = (
  λ h. ground (arith, eq_iff name "id", contains-append fs gs name),
  λ h. ground (arith, eq_iff name "id", contains-append fs gs name),
)
keeps_two allow allow fs gs name = (
  λ h. ground (arith, eq_iff name "id", contains-keep gs fs name),
  λ h. ground (arith, eq_iff name "id", contains-keep gs fs name),
)
keeps_two _ _ fs gs name =
    (λ h. ground (arith, eq_iff name "id"), λ h. ground (arith, eq_iff name "id"))

keeps_merged :
    (star specific : Option ModelFieldRule) (name : String)
    → (keeps (merge_both star specific) name ≡ true)
      ↔ ((name ≡ "id") ⊎ (IsAllowedBy star name × IsAllowedBy specific name))
unfolding merge_both merge_rule
keeps_merged none none name = (λ h. inr (tt, tt), λ h. refl)
keeps_merged none (some b) name = (
  λ h. ground (arith, keeps_one b.mode b.fields name),
  λ h. ground (arith, keeps_one b.mode b.fields name),
)
keeps_merged (some a) none name = (
  λ h. ground (arith, keeps_one a.mode a.fields name),
  λ h. ground (arith, keeps_one a.mode a.fields name),
)
keeps_merged (some a) (some b) name = keeps_two a.mode b.mode a.fields b.fields name

contains-keep_p :
    (p : String → Bool) (xs : List String) (k : String)
    → contains (keep p xs) k ≡ (contains xs k && p k)
contains-keep_p p [] k = refl
contains-keep_p p (x ∷ xs) k = ground (arith, contains-keep_p p xs k, eq_iff x k)

split_names_lem :
    (e : Effective) (names : List String)
    → split_names e names ≡ (keep (is_kept e) names, keep (λ n. not (is_kept e n)) names)
unfolding split_names
split_names_lem e [] = refl
split_names_lem e (n ∷ ns) = ground (arith, split_names_lem e ns)

module _ (policy : FieldPolicy) (instance model : String) where
  abbrev pub permits : String → Bool
  permits name = keeps (effective policy instance model) name

  pub permits_iff : (name : String) → (permits name ≡ true) ↔ IsPermitted policy instance model name
  unfolding effective
  permits_iff name = keeps_merged _ _ name

-- the split, over what applies
pub contains-split_by :
    (e : Option Effective) (names : List String) (name : String)
    → (contains (split_by e names).0 name ≡ (contains names name && keeps e name))
      × (contains (split_by e names).1 name ≡ (contains names name && not (keeps e name)))
contains-split_by none names name = unfold split_by in (ground arith, ground arith)
contains-split_by (some e) names name =
    unfold split_by in
    rw split_names_lem
      (contains-keep_p (is_kept e) names name, contains-keep_p (λ n. not (is_kept e n)) names name)

pub and_iff :
    {P : Type 0} (b c p : Bool) → b ≡ (c && p) → ((p ≡ true) ↔ P) → (b ≡ true) ↔ ((c ≡ true) × P)
and_iff b true true e i = (λ h. (refl, i.0 refl), λ h. e)
and_iff b true false e i = (λ h. cc, λ h. cc (i.1 h.1))
and_iff b false p e i = (λ h. cc, λ h. cc (h.0))

pub and_not_iff :
    {P : Type 0} (b c p : Bool)
    → b ≡ (c && not p)
    → ((p ≡ true) ↔ P)
    → (b ≡ true) ↔ ((c ≡ true) × (¬ P))
and_not_iff b true true e i = (λ h. cc, λ h. absurd (h.1 (i.0 refl)))
and_not_iff b true false e i = (λ h. (refl, λ q. cc (i.1 q)), λ h. e)
and_not_iff b false p e i = (λ h. cc, λ h. cc (h.0))
