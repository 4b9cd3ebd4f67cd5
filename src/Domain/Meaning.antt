-- ===== src/Domain/Meaning.antt =====
-- What a domain means: Odoo reads it as a prefix expression, and joins what stands side by side by
-- "and". The domain that is built means what was asked for.
use mathlib.Core.Path.{subst}
use mcp_odoo.Prelude.{
  ℕ, zero, suc, String, ◌≡◌, refl, ap, ◌∙◌, Bool, true, false, not, ◌&&◌, ◌||◌, Option, none, some,
  List, [], ◌∷◌, ◌++◌, arith, str_eq, if◌then◌else◌, length, any, all, Bool-cases, inl, inr,
}
use mcp_odoo.Prelude.Text.{strip, lower}
use mcp_odoo.Json.{Fields}
use mcp_odoo.Write.Host.{Host}
use mcp_odoo.Write.Preview.{is_empty}
use mcp_odoo.Domain.{
  Condition, Term, or_sign, leaf, leaves, or_signs, domain_of, build_domain_report,
}

-- "|" joins the two expressions behind it; `none` if there are not two
abbrev pub join_or : Option (List Bool) → Option (List Bool)
join_or (some (a ∷ b ∷ rest)) = some ((a || b) ∷ rest)
join_or _ = none

-- the values of the expressions that stand side by side
abbrev pub values : (Condition → Bool) → List Term → Option (List Bool)
values holds [] = some []
values holds (or_sign ∷ terms) = join_or (values holds terms)
values holds (leaf c ∷ terms) = elim (values holds terms) [
  | none ↦ none
  | some vs ↦ some (holds c ∷ vs)
]

abbrev pub all_of : Option (List Bool) → Option Bool
all_of none = none
all_of (some vs) = some (all (λ v. v) vs)

-- does a record match the domain, where `holds` says which conditions it meets?
abbrev pub matches : (Condition → Bool) → List Term → Option Bool
matches holds terms = all_of (values holds terms)

truths : (Condition → Bool) → List Condition → List Bool
truths holds [] = []
truths holds (c ∷ cs) = holds c ∷ truths holds cs

and_true : (b : Bool) → (b && true) ≡ b
and_true true = refl
and_true false = refl

or_assoc : (a b c : Bool) → ((a || b) || c) ≡ (a || (b || c))
or_assoc true b c = refl
or_assoc false b c = refl

module _ (holds : Condition → Bool) where
  values-leaves : (cs : List Condition) → values holds (leaves cs) ≡ some (truths holds cs)
  unfolding truths
  values-leaves [] = refl
  values-leaves (c ∷ cs) = rw (values-leaves cs) refl

  all-truths : (cs : List Condition) → all (λ v. v) (truths holds cs) ≡ all holds cs
  unfolding truths
  all-truths [] = refl
  all-truths (c ∷ cs) = rw (all-truths cs) refl

  any-truths : (cs : List Condition) → any (λ v. v) (truths holds cs) ≡ any holds cs
  unfolding truths
  any-truths [] = refl
  any-truths (c ∷ cs) = rw (any-truths cs) refl

  length-truths : (cs : List Condition) → length (truths holds cs) ≡ length cs
  unfolding truths
  length-truths [] = refl
  length-truths (c ∷ cs) = ap suc (length-truths cs)

  -- as many signs as there are expressions behind the first join them all
  joins : ℕ → Option (List Bool) → Option (List Bool)
  joins zero vs = vs
  joins (suc n) vs = join_or (joins n vs)

  values-or_signs :
      (n : ℕ) (terms : List Term)
      → values holds (or_signs n ++ terms) ≡ joins n (values holds terms)
  unfolding joins
  values-or_signs zero terms = refl
  values-or_signs (suc n) terms = ap join_or (values-or_signs n terms)

  joins_inside : (n : ℕ) (vs : Option (List Bool)) → joins (suc n) vs ≡ joins n (join_or vs)
  unfolding joins
  joins_inside zero vs = refl
  joins_inside (suc n) vs = ap join_or (joins_inside n vs)

  joins_all :
      (a : Bool) (vs : List Bool)
      → joins (length vs) (some (a ∷ vs)) ≡ some ((a || any (λ v. v) vs) ∷ [])
  unfolding joins
  joins_all a [] = ground arith
  joins_all a (b ∷ vs) =
      joins_inside (length vs) (some (a ∷ b ∷ vs))
      ∙ joins_all (a || b) vs
      ∙ ap (λ c. some (c ∷ [])) (or_assoc a b _)

  matches-or :
      (c : Condition) (cs : List Condition)
      → values holds (or_signs (length cs) ++ leaves (c ∷ cs))
        ≡ some ((holds c || any holds cs) ∷ [])
  unfolding truths
  matches-or c cs =
      values-or_signs (length cs) (leaves (c ∷ cs))
      ∙ ap (joins (length cs)) (values-leaves (c ∷ cs))
      ∙ subst
          (λ n.
            joins n (some (holds c ∷ truths holds cs))
            ≡ some ((holds c || any (λ v. v) (truths holds cs)) ∷ []))
          (length-truths cs) (joins_all (holds c) (truths holds cs))
      ∙ ap (λ b. some ((holds c || b) ∷ [])) (any-truths cs)

  pub matches-domain_of :
      (operator : String) (cs : List Condition)
      → matches holds (domain_of operator cs)
        ≡ some (if str_eq operator "or" && not (is_empty cs) then any holds cs else all holds cs)
  unfolding domain_of
  matches-domain_of operator [] = ground arith
  matches-domain_of operator (c ∷ cs) = elim (Bool-cases (str_eq operator "or")) [
    | inl yes_or ↦ rw yes_or (ap all_of (matches-or c cs) ∙ ap some (and_true _))
    | inr no_or ↦ rw no_or (ap all_of (values-leaves (c ∷ cs)) ∙ ap some (all-truths (c ∷ cs)))
  ]

-- Whatever the conditions, the domain that is built is one that Odoo can read, and a record matches
-- it exactly if it meets any of the conditions kept, for the operator "or" and at least one
-- condition, and all of them otherwise.
pub matches-build_domain_report :
    (holds : Condition → Bool) (host : Host) (conditions : List Fields) (operator : String)
    (metadata : Option Fields)
    → let report = build_domain_report host conditions operator metadata in
      matches holds report.domain
      ≡ some (
          if str_eq (lower (strip operator)) "or" && not (is_empty report.conditions)
          then any holds report.conditions
          else all holds report.conditions)
unfolding build_domain_report
matches-build_domain_report holds host conditions operator metadata =
    matches-domain_of holds (lower (strip operator)) _
