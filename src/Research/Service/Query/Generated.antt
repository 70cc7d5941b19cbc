-- ===== src/Research/Service/Query/Generated.antt =====
-- What an answer that `_claims_are_grounded` lets through (app/research/service.py) is made of.
use marketview.Base.Texts.{Text}
use marketview.Research.Answer.{
  GeneratedAnswer, GeneratedClaim, ResearchAnswer, ResearchCitation, ResearchOutcome, answered_with,
  insufficient_answer, make_answer, referenced, refusal,
}
use marketview.Research.Deadline.{Fault}
use marketview.Research.Retrieval.{EvidenceChunk}
use marketview.Research.Service.Query.{
  Asked, PortCall, Ports, answer_from, answer_on, citations_for, claims_are_grounded, from_check,
}
use marketview.Base.{◌≡◌, true, inl, inr, List, arith, ◌≢◌}
use marketview.Base.Result.{Result, ok, Result-cases}

module _ (a : Asked) where
  pub insufficient_answer-outcome :
      (symbol : Text) (r : ResearchAnswer)
      → insufficient_answer a.py symbol ≡ ok r
      → r.outcome ≢ ResearchOutcome.answered
  unfolding insufficient_answer make_answer
  insufficient_answer-outcome symbol r h k = ground arith

  pub refusal-outcome :
      (symbol : Text) (r : ResearchAnswer)
      → refusal a.py symbol ≡ ok r
      → r.outcome ≢ ResearchOutcome.answered
  unfolding refusal make_answer
  refusal-outcome symbol r h k = ground arith

  answered_with-claims :
      (symbol : Text) (claims : List GeneratedClaim) (citations : List ResearchCitation)
      (r : ResearchAnswer)
      → answered_with a.py symbol claims citations ≡ ok r
      → r.claims ≡ claims
  unfolding answered_with make_answer
  answered_with-claims symbol claims citations r h = ground arith

  pub from_check-ok : {A : Type 0} (x : Result Fault A) (r : A) → from_check x ≡ ok r → x ≡ ok r
  from_check-ok x r h = ground arith

  answer_from-grounded :
      (symbol : Text) (evidence : List EvidenceChunk) (generated : GeneratedAnswer)
      (r : ResearchAnswer)
      → answer_from a symbol evidence generated ≡ ok r
      → r.outcome ≡ ResearchOutcome.answered
      → (claims_are_grounded a r.claims evidence ≡ true) × (r.claims ≡ generated.claims)
  unfolding answer_from
  answer_from-grounded symbol evidence generated r h k =
      elim (Result-cases (citations_for a evidence (referenced generated.claims))) [
        | inl (cs, e) ↦ ground (
          arith,
          insufficient_answer-outcome symbol r,
          refusal-outcome symbol r,
          answered_with-claims symbol generated.claims cs r,
          from_check-ok (insufficient_answer a.py symbol) r,
          from_check-ok (refusal a.py symbol) r,
          from_check-ok (answered_with a.py symbol generated.claims cs) r,
        )
        | inr (x, e) ↦ ground (
          arith,
          insufficient_answer-outcome symbol r,
          refusal-outcome symbol r,
          from_check-ok (insufficient_answer a.py symbol) r,
          from_check-ok (refusal a.py symbol) r,
        )
      ]

  pub answer_on-grounded :
      (ports : Ports) (symbol question : Text) (evidence : List EvidenceChunk)
      (calls : List PortCall) (r : ResearchAnswer)
      → (answer_on a ports symbol question evidence calls).0 ≡ ok r
      → r.outcome ≡ ResearchOutcome.answered
      → (g : GeneratedAnswer) × (ports.generate question evidence ≡ ok g)
        × (r.claims ≡ g.claims)
        × (claims_are_grounded a r.claims evidence ≡ true)
  unfolding answer_on
  answer_on-grounded ports symbol question evidence calls r h k =
      elim (Result-cases (ports.generate question evidence)) [
        | inl (g, e) ↦
            let from : answer_from a symbol evidence g ≡ ok r = ground (
              arith,
              insufficient_answer-outcome symbol r,
              from_check-ok (insufficient_answer a.py symbol) r,
            ) in
            let (grounded, same) = answer_from-grounded symbol evidence g r from k in
            (g, e, same, grounded)
        | inr (x, e) ↦ absurd (
            ground (
              arith,
              insufficient_answer-outcome symbol r,
              from_check-ok (insufficient_answer a.py symbol) r,
            ))
      ]
