-- ===== src/Methods/DomainInput/Terms.antt =====
-- What `normalize_domain_input` returns for a list, and which domains it leaves alone.
use mcp_odoo.Prelude.{
  some, String, Bool, ◌≡◌, refl, ap, not, true, false, arith, Bool-cases, inl, inr,
}
use mcp_odoo.Json.{Value, text, list, Items, nil, cons, null, bool, int, float, dict}
use mcp_odoo.Methods.DomainInput.{
  Decoders, is_operator, is_domain_term, unwrap, wrap, valid_conditions, normalize_list,
  normalize_decoded, normalize_domain_input,
}

-- every item is an operator or a condition
abbrev pub HasTerms : Items → Type 0
HasTerms nil = Unit
HasTerms (cons v vs) = (is_domain_term v ≡ true) × HasTerms vs

-- a condition names a field, and no operator
abbrev pub is_named : Value → Bool
is_named (list (cons (text field) rest)) = not (is_operator field)
is_named _ = true

abbrev pub IsNamed : Items → Type 0
IsNamed nil = Unit
IsNamed (cons v vs) = (is_named v ≡ true) × IsNamed vs

HasTerms-valid_conditions : (vs : Items) → HasTerms (valid_conditions vs)
unfolding valid_conditions
HasTerms-valid_conditions nil = tt
HasTerms-valid_conditions (cons v vs) = elim (Bool-cases (is_domain_term v)) [
  | inl kept ↦ rw (valid_conditions, kept) (kept, HasTerms-valid_conditions vs)
  | inr left ↦ rw (valid_conditions, left) (HasTerms-valid_conditions vs)
]

-- Of a list, `normalize_domain_input` keeps operators and conditions, nothing else.
pub normalize_domain_input-HasTerms :
    (ds : Decoders) (vs : Items)
    → (terms : Items) × (normalize_domain_input ds (list vs) ≡ some terms) × HasTerms terms
unfolding normalize_domain_input normalize_decoded normalize_list
normalize_domain_input-HasTerms ds vs = (normalize_list vs, refl, HasTerms-valid_conditions _)

valid_conditions_all : (vs : Items) → HasTerms vs → valid_conditions vs ≡ vs
unfolding valid_conditions
valid_conditions_all nil h = refl
valid_conditions_all (cons v vs) h =
    rw (valid_conditions, h.0) (ap (cons v) (valid_conditions_all vs h.1))

wrap_operator :
    (s : String) (vs : Items) → is_operator s ≡ true → wrap (cons (text s) vs) ≡ cons (text s) vs
wrap_operator s nil h = refl
wrap_operator s (cons (text t) nil) h = refl
wrap_operator s (cons (text t) (cons v nil)) h = rw h refl
wrap_operator s (cons (text t) (cons v (cons w ws))) h = refl
wrap_operator s (cons null vs) h = refl
wrap_operator s (cons (bool b) vs) h = refl
wrap_operator s (cons (int a) vs) h = refl
wrap_operator s (cons (float m e) vs) h = refl
wrap_operator s (cons (list us) vs) h = refl
wrap_operator s (cons (dict fs) vs) h = refl

-- the two repairs of a list leave a well-formed domain alone
wrap-unwrap : (vs : Items) → HasTerms vs → IsNamed vs → wrap (unwrap vs) ≡ vs
wrap-unwrap nil h n = refl
wrap-unwrap (cons (text s) vs) h n = wrap_operator s vs h.0
wrap-unwrap (cons (list (cons (text field) (cons (text o) (cons v nil)))) nil) h n =
    let plain : is_operator field ≡ false = ground (arith, n.0) in rw plain refl
wrap-unwrap (cons (list (cons u us)) (cons v vs)) h n = refl
wrap-unwrap (cons v vs) h n = ground arith

-- A well-formed domain, a list of operators and conditions on named fields, is returned as it is.
pub normalize_domain_input_known :
    (ds : Decoders) (vs : Items)
    → HasTerms vs
    → IsNamed vs
    → normalize_domain_input ds (list vs) ≡ some vs
unfolding normalize_domain_input normalize_decoded normalize_list
normalize_domain_input_known ds vs h n =
    ap some (rw (wrap-unwrap vs h n) (valid_conditions_all vs h))
