-- ===== src/FieldPolicy/Parse/Shape.antt =====
-- A policy that loads is the one that the file describes; a malformed one does not load.
use mcp_odoo.Prelude.Result.{>>=-eq-ok, Result, err, ok}
use mathlib.Core.Path.{subst}
use mcp_odoo.Prelude.{
  String, ◌≡◌, ◌⊎◌, inl, inr, refl, sym, ◌∙◌, true, Option, none, some, List, [], arith, str_eq,
  eq_iff, Bool-cases, Option-cases, some_inj, ap,
}
use mcp_odoo.Prelude.Dict
use mcp_odoo.Prelude.Dict.{Dict, get-put}
use mcp_odoo.Json.{Value, list, dict, Items, Fields, end, field, get_field, value_fields}
use mcp_odoo.FieldPolicy.{Mode, deny, allow, ModelFieldRule, FieldPolicy, models_of}
use mcp_odoo.FieldPolicy.Parse.{
  PolicyError, not_names, texts_of, stripped, names_rule, choose_rule, parse_rule, parse_models,
  parse_instances, parse_field_policy,
}

-- a dict has no key twice
abbrev pub HasUniqueKeys : Fields → Type 0
HasUniqueKeys end = Unit
HasUniqueKeys (field k v fs) = (get_field k fs ≡ none) × HasUniqueKeys fs

-- the entry of a model is an object with exactly one of "deny" and "allow", a list of texts, and
-- the rule has those names, stripped, without the empty ones
abbrev pub Describes : Value → ModelFieldRule → Type 0
Describes spec rule =
    (fs : Fields) × (vs : Items) × (names : List String) × (spec ≡ dict fs)
    × (texts_of vs ≡ some names)
    × (rule.fields ≡ stripped names)
    × (((rule.mode ≡ deny) × (get_field "deny" fs ≡ some (list vs)) × (get_field "allow" fs ≡ none))
        ⊎ ((rule.mode ≡ allow)
            × (get_field "allow" fs ≡ some (list vs))
            × (get_field "deny" fs ≡ none)))

names_rule-ok :
    (e : PolicyError) (mode : Mode) (v : Value) (rule : ModelFieldRule)
    → names_rule e mode v ≡ ok rule
    → (vs : Items) × (names : List String) × (v ≡ list vs)
      × (texts_of vs ≡ some names)
      × (rule.fields ≡ stripped names)
      × (rule.mode ≡ mode)
unfolding names_rule
names_rule-ok e mode (list vs) rule h = go (texts_of vs) refl h
  where
    go :
        (found : Option (List String))
        → texts_of vs ≡ found
        → (elim found as (λ x. Result PolicyError ModelFieldRule) [
          | none ↦ err e
          | some names ↦ ok (record { mode = mode; fields = stripped names })
        ])
          ≡ ok rule
        → (ws : Items) × (names : List String) × (list vs ≡ list ws)
          × (texts_of ws ≡ some names)
          × (rule.fields ≡ stripped names)
          × (rule.mode ≡ mode)
    go none t p = cc
    go (some names) t p = (vs, names, refl, t, ground arith, ground arith)
names_rule-ok e mode _ rule h = cc

parse_rule-Describes :
    (instance model : String) (spec : Value) (rule : ModelFieldRule)
    → parse_rule instance model spec ≡ ok rule
    → Describes spec rule
unfolding parse_rule
parse_rule-Describes instance model (dict fs) rule h =
    go (get_field "deny" fs) (get_field "allow" fs) refl refl h
  where
    go :
        (d a : Option Value)
        → get_field "deny" fs ≡ d
        → get_field "allow" fs ≡ a
        → choose_rule instance model d a ≡ ok rule
        → Describes (dict fs) rule
    go (some v) none p q r =
        let (vs, names, lst, texts, fields, mode) =
          names_rule-ok (not_names instance model) deny v rule (unfold choose_rule in r) in
        (fs, vs, names, refl, texts, fields, inl (mode, cc, q))
    go none (some v) p q r =
        let (vs, names, lst, texts, fields, mode) =
          names_rule-ok (not_names instance model) allow v rule (unfold choose_rule in r) in
        (fs, vs, names, refl, texts, fields, inr (mode, cc, p))
    go none none p q r = unfold choose_rule in cc
    go (some _) (some _) p q r = unfold choose_rule in cc
parse_rule-Describes instance model _ rule h = cc

-- what the inner loop leaves under each model
RuleFor : Fields → Dict ModelFieldRule → Dict ModelFieldRule → String → Type 0
RuleFor fs before after model =
    (get_field model fs ≡ none → Dict.get model after ≡ Dict.get model before)
    × ((spec : Value)
        → get_field model fs ≡ some spec
        → (rule : ModelFieldRule) × Describes spec rule × (Dict.get model after ≡ some rule))

parse_models-RuleFor :
    (instance : String) (fs : Fields) (before after : Dict ModelFieldRule)
    → HasUniqueKeys fs
    → parse_models instance fs before ≡ ok after
    → (model : String) → RuleFor fs before after model
unfolding parse_models RuleFor
parse_models-RuleFor instance end before after u h model = (λ _. cc, λ spec found. cc)
parse_models-RuleFor instance (field j s fs) before after u h model =
    let (rule, parsed, rest) = >>=-eq-ok (parse_rule instance j s) _ h in
    let ih = parse_models-RuleFor instance fs (Dict.put j rule before) after u.1 rest model in
    let absent : str_eq j model ≡ true → get_field model fs ≡ none =
      λ t. subst (λ k. get_field k fs ≡ none) ((eq_iff j model).0 t) u.0 in
    elim (Bool-cases (str_eq j model)) [
      | inl here ↦ rw here (
        λ e. cc,
        λ spec found. (
          rule,
          subst (λ v. Describes v rule) (some_inj found)
              (parse_rule-Describes instance j s rule parsed),
          ih.0 (absent here) ∙ (rw (get-put, here)),
        ),
      )
      | inr there ↦ rw there (λ e. ih.0 e ∙ (rw (get-put, there)), ih.1)
    ]

-- What the entry of an instance gives: an object, whose models all have their rules.
InstanceFor : Fields → FieldPolicy → FieldPolicy → String → Type 0
InstanceFor fs before after instance =
    (get_field instance fs ≡ none → Dict.get instance after ≡ Dict.get instance before)
    × ((models : Value)
        → get_field instance fs ≡ some models
        → (ms : Fields) × (rules : Dict ModelFieldRule) × (models ≡ dict ms)
          × (Dict.get instance after ≡ some rules)
          × (HasUniqueKeys ms → (model : String) → RuleFor ms [] rules model))

parse_instances-InstanceFor :
    (fs : Fields) (before after : FieldPolicy)
    → HasUniqueKeys fs
    → parse_instances fs before ≡ ok after
    → (instance : String) → InstanceFor fs before after instance
unfolding parse_instances InstanceFor
parse_instances-InstanceFor end before after u h instance = (λ _. cc, λ models found. cc)
parse_instances-InstanceFor (field j (dict ms) fs) before after u h instance =
    let (rules, parsed, rest) = >>=-eq-ok (parse_models j ms []) _ h in
    let ih = parse_instances-InstanceFor fs (Dict.put j rules before) after u.1 rest instance in
    let absent : str_eq j instance ≡ true → get_field instance fs ≡ none =
      λ t. subst (λ k. get_field k fs ≡ none) ((eq_iff j instance).0 t) u.0 in
    elim (Bool-cases (str_eq j instance)) [
      | inl here ↦ rw here (
        λ e. cc,
        λ models found. (
          ms,
          rules,
          sym (some_inj found),
          ih.0 (absent here) ∙ (rw (get-put, here)),
          λ unique. parse_models-RuleFor j ms [] rules unique parsed,
        ),
      )
      | inr there ↦ rw there (λ e. ih.0 e ∙ (rw (get-put, there)), ih.1)
    ]
parse_instances-InstanceFor (field j _ fs) before after u h instance = cc

split_instance :
    (policy : FieldPolicy) (instance : String) (models : Value)
    → ((ms : Fields) × (rules : Dict ModelFieldRule) × (models ≡ dict ms)
        × (Dict.get instance policy ≡ some rules)
        × (HasUniqueKeys ms → (model : String) → RuleFor ms [] rules model))
    → (ms : Fields) × (models ≡ dict ms)
      × (HasUniqueKeys ms → (model : String) → RuleFor ms [] (models_of policy instance) model)
unfolding models_of
split_instance policy instance models (ms, rules, same, found, all) =
    (ms, same, rw (found, models_of) all)

parse_field_policy-entries :
    (config acl : Fields) (policy : FieldPolicy)
    → parse_field_policy config ≡ ok policy
    → get_field "field_acl" config ≡ some (dict acl)
    → HasUniqueKeys acl
    → (instance : String)
    → (get_field instance acl ≡ none → models_of policy instance ≡ [])
      × ((models : Value)
          → get_field instance acl ≡ some models
          → (ms : Fields) × (models ≡ dict ms)
            × (HasUniqueKeys ms
                → (model : String)
                → (get_field model ms ≡ none → Dict.get model (models_of policy instance) ≡ none)
                  × ((spec : Value)
                      → get_field model ms ≡ some spec
                      → (rule : ModelFieldRule) × Describes spec rule
                        × (Dict.get model (models_of policy instance) ≡ some rule))))
unfolding parse_field_policy InstanceFor RuleFor models_of
parse_field_policy-entries config acl policy parsed given unique instance =
    let all : InstanceFor acl [] policy instance =
      parse_instances-InstanceFor acl [] policy unique (rw (given, parse_field_policy) at parsed)
        instance in
    (
      λ absent. rw (all.0 absent, models_of),
      λ models found.
          let (ms, same, rest) = split_instance policy instance models (all.1 models found) in
          (ms, same, rest),
    )

-- each instance's object has no model twice
abbrev pub HaveUniqueKeys : Fields → Type 0
HaveUniqueKeys end = Unit
HaveUniqueKeys (field instance models acl) =
    HasUniqueKeys (value_fields models) × HaveUniqueKeys acl

-- the entry of the file for a model of an instance
abbrev pub rule_spec : Fields → String → String → Option Value
rule_spec acl instance model = elim (get_field instance acl) [
  | none ↦ none
  | some models ↦ get_field model (value_fields models)
]

-- there is a rule exactly where there is an entry, and then the entry describes it
abbrev pub IsDescribed : Option Value → Option ModelFieldRule → Type 0
IsDescribed none none = Unit
IsDescribed (some spec) (some rule) = Describes spec rule
IsDescribed none (some rule) = ⊥
IsDescribed (some spec) none = ⊥

unique_models :
    (acl : Fields) (instance : String) (ms : Fields)
    → HaveUniqueKeys acl
    → get_field instance acl ≡ some (dict ms)
    → HasUniqueKeys ms
unique_models end instance ms u h = cc
unique_models (field j v acl) instance ms u h = elim (Bool-cases (str_eq j instance)) [
  | inl here ↦ subst (λ w. HasUniqueKeys (value_fields w)) (some_inj (rw here at h)) u.0
  | inr there ↦ unique_models acl instance ms u.1 (rw there at h)
]

described :
    (ms : Fields) (found : Option Value) (model : String) (rule : Option ModelFieldRule)
    → get_field model ms ≡ found
    → (get_field model ms ≡ none → rule ≡ none)
      × ((spec : Value)
          → get_field model ms ≡ some spec
          → (r : ModelFieldRule) × Describes spec r × (rule ≡ some r))
    → IsDescribed found rule
described ms none model rule e h = rw (h.0 e) tt
described ms (some spec) model rule e h = let (r, d, same) = h.1 spec e in rw same d

-- A policy that loads is what its file says, if the file has no key twice: a model of an instance has
-- a rule exactly if the file has an entry for it; the entry is an object with exactly one of "deny"
-- and "allow", a list of texts; and the rule is of that kind and has those names, stripped, without
-- the empty ones.
pub parse_field_policy-Describes :
    (config acl : Fields) (policy : FieldPolicy)
    → parse_field_policy config ≡ ok policy
    → get_field "field_acl" config ≡ some (dict acl)
    → HasUniqueKeys acl
    → HaveUniqueKeys acl
    → (instance model : String)
    → IsDescribed (rule_spec acl instance model) (Dict.get model (models_of policy instance))
parse_field_policy-Describes config acl policy parsed given unique uniques instance model =
    let all = parse_field_policy-entries config acl policy parsed given unique instance in
    elim (Option-cases (get_field instance acl)) [
      | inl absent ↦ rw (absent, rule_spec, all.0 absent) tt
      | inr (models, found) ↦
          let (ms, same, entries) = all.1 models found in
          rw (found, rule_spec, same)
            (described ms (get_field model ms) model (Dict.get model (models_of policy instance))
              refl (entries (unique_models acl instance ms uniques (found ∙ ap some same)) model))
    ]
