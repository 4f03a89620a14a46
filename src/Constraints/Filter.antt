-- ===== src/Constraints/Filter.antt =====
-- `filter_eligible_candidates` of constraints/evaluator.py, over a list of requests.
use rev_pilot_ai.Base.{
  String, Option, none, some, List, [], ◌∷◌, ◌++◌, ◌≡◌, inl, inr, refl, arith, ap, ◌∙◌, sym, map,
  keep_if, Bool-cases, str_eq, if◌then◌else◌, Bool,
}
use mathlib.Core.List.{append_assoc, append-nil}
use rev_pilot_ai.Base.Dict.{lookup, lookup-insert}
use rev_pilot_ai.Constraints.{
  ConstraintEvaluatorRequest, evaluate_hard_constraints, Split, sort_request, sort_requests,
  filter_eligible_candidates,
}

abbrev pub passes : ConstraintEvaluatorRequest → Bool
passes r = (evaluate_hard_constraints r).is_eligible

sort-eligible :
    (rs : List ConstraintEvaluatorRequest) (acc : Split)
    → (sort_requests rs acc).eligible
      ≡ acc.eligible ++ map (λ r. r.intervention) (keep_if passes rs)
sort-eligible [] acc = sym (append-nil acc.eligible)
sort-eligible (r ∷ rs) acc = elim (Bool-cases (passes r)) [
  | inl kept ↦ ground (
    arith,
    kept,
    sort-eligible rs (sort_request r acc),
    append_assoc acc.eligible (r.intervention ∷ []) (map (λ q. q.intervention) (keep_if passes rs)),
  )
  | inr out ↦ ground (arith, out, sort-eligible rs (sort_request r acc))
]

-- The eligible candidates that `filter_eligible_candidates` returns are those of the requests that
-- pass every constraint, in the order of the requests.
pub filter_eligible_candidates-eligible :
    (rs : List ConstraintEvaluatorRequest)
    → (filter_eligible_candidates rs).eligible ≡ map (λ r. r.intervention) (keep_if passes rs)
unfolding filter_eligible_candidates
filter_eligible_candidates-eligible rs = sort-eligible rs _

-- The reasons that the requests leave for a candidate: those of the last one that fails.
abbrev pub reasons_for :
    String → List ConstraintEvaluatorRequest → Option (List String) → Option (List String)
reasons_for c [] acc = acc
reasons_for c (r ∷ rs) acc = reasons_for c rs (
    if passes r
    then acc
    else if str_eq r.intervention.candidate_id c
    then some (evaluate_hard_constraints r).violated_constraints
    else acc)

reason-step :
    (c : String) (r : ConstraintEvaluatorRequest) (acc : Split)
    → lookup c (sort_request r acc).ineligible_reasons ≡ (
        if passes r
        then lookup c acc.ineligible_reasons
        else if str_eq r.intervention.candidate_id c
        then some (evaluate_hard_constraints r).violated_constraints
        else lookup c acc.ineligible_reasons)
reason-step c r acc = elim (Bool-cases (passes r)) [
  | inl kept ↦ ground (arith, kept)
  | inr out ↦ ground (
    arith,
    out,
    lookup-insert r.intervention.candidate_id c (evaluate_hard_constraints r).violated_constraints
        acc.ineligible_reasons,
  )
]

sort-reasons :
    (c : String) (rs : List ConstraintEvaluatorRequest) (acc : Split)
    → lookup c (sort_requests rs acc).ineligible_reasons
      ≡ reasons_for c rs (lookup c acc.ineligible_reasons)
sort-reasons c [] acc = refl
sort-reasons c (r ∷ rs) acc =
    sort-reasons c rs (sort_request r acc) ∙ ap (reasons_for c rs) (reason-step c r acc)

-- For a candidate's identifier, `filter_eligible_candidates` returns the constraints that the last
-- failing request with that identifier violates, and nothing where no request with it fails.
pub filter_eligible_candidates-reasons :
    (c : String) (rs : List ConstraintEvaluatorRequest)
    → lookup c (filter_eligible_candidates rs).ineligible_reasons ≡ reasons_for c rs none
unfolding filter_eligible_candidates lookup
filter_eligible_candidates-reasons c rs = sort-reasons c rs _
