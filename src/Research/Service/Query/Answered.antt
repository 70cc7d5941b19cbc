-- ===== src/Research/Service/Query/Answered.antt =====
-- What an answered `query_research` (app/research/service.py) has looked at.
use marketview.Research.Grounding.{is_empty}
use marketview.Base.Texts.{Text}
use marketview.Research.Domain.{GenerationManifest}
use marketview.Research.Answer.{
  GeneratedAnswer, GeneratedClaim, ResearchAnswer, ResearchOutcome, insufficient_answer, refusal,
}
use marketview.Research.Retrieval.{SafeHitClassification, SearchHit}
use marketview.Research.Vectors.{EmbeddingVector}
use marketview.Research.Service.Query.Grounded.{ClaimRests, Every}
use marketview.Research.Service.Query.{
  ◌>>=◌, call, Asked, PortCall, Ports, QueryError, answer_on, asked_query, before_paid,
  claims_are_grounded, embed_call, evidence_of, query_active, query_research, safe_hits,
  safe_manifests, search_call, search_with, paid_call, list_call,
}
use marketview.Base.{
  ◌≡◌, [], ◌∷◌, true, false, none, some, inl, inr, ◌*◌, ◌++◌, List, arith, Option, not, Bool-cases,
  &&-eq-true,
}
use marketview.Research.Retrieval.Accepted.{classify_safe_hits-accepts_safe}
use marketview.Research.Service.Query.Grounded.{claims-Every, ClaimRests, Every}
use marketview.Research.Service.Query.Generated.{
  insufficient_answer-outcome, refusal-outcome, from_check-ok, answer_on-grounded,
}
use marketview.Base.Result.{Result, ok, err, Result-cases}
use marketview.Validation.{validate_symbol, validate_research_question}

module _ (a : Asked) where
  -- The calls that lead to these claims: the question is embedded, the store is searched with its
  -- vector among the active manifests, the hits are classified, and the claims are those generated
  -- from the question and the evidence of the accepted hits.
  pub record Searched (ports : Ports) (symbol question : Text) (active : List GenerationManifest)
      (claims : List GeneratedClaim) : Type 0 where
    pub vector : EmbeddingVector
    pub raw_hits : List SearchHit
    pub safe : SafeHitClassification
    pub generated : GeneratedAnswer
    pub embedded : ports.embed_query question ≡ ok vector
    pub searched :
        ports.search symbol vector active (a.max_results * a.overfetch_factor) ≡ ok raw_hits
    pub classified : safe_hits a symbol active raw_hits ≡ ok safe
    pub answered : ports.generate question (evidence_of safe.accepted_hits) ≡ ok generated
    pub same_claims : claims ≡ generated.claims

  -- The claims are grounded in the hits that were accepted.
  abbrev GroundedBy :
      (ports : Ports) (symbol question : Text) (active : List GenerationManifest)
      (claims : List GeneratedClaim)
      → Type 0
  GroundedBy ports symbol question active claims =
      (x : Searched ports symbol question active claims) × (claims_are_grounded a claims
          (evidence_of x.safe.accepted_hits)
        ≡ true)

  search_with-grounded :
      (ports : Ports) (symbol question : Text) (active : List GenerationManifest)
      (vector : EmbeddingVector) (calls : List PortCall) (r : ResearchAnswer)
      → (search_with a ports symbol question active vector calls).0 ≡ ok r
      → r.outcome ≡ ResearchOutcome.answered
      → ports.embed_query question ≡ ok vector
      → GroundedBy ports symbol question active r.claims
  unfolding search_with
  search_with-grounded ports symbol question active vector calls r h k embedded =
      elim (Result-cases (ports.search symbol vector active (a.max_results * a.overfetch_factor))) [
        | inl (raw, e) ↦ elim (Result-cases (safe_hits a symbol active raw)) [
          | inl (c, f) ↦
              let on : (answer_on a ports symbol question (evidence_of c.accepted_hits)
                    (calls ++ search_call ∷ [])).0
                  ≡ ok r =
                ground (
                  arith,
                  insufficient_answer-outcome a symbol r,
                  from_check-ok a (insufficient_answer a.py symbol) r,
                ) in
              let (g, made, same, grounded) =
                answer_on-grounded a ports symbol question (evidence_of c.accepted_hits)
                  (calls ++ search_call ∷ []) r on k in
              (
                record {
                  vector = vector;
                  raw_hits = raw;
                  safe = c;
                  generated = g;
                  embedded = embedded;
                  searched = e;
                  classified = f;
                  answered = made;
                  same_claims = same;
                },
                grounded,
              )
          | inr (x, f) ↦ absurd (
              ground (
                arith,
                insufficient_answer-outcome a symbol r,
                from_check-ok a (insufficient_answer a.py symbol) r,
              ))
        ]
        | inr (x, e) ↦ absurd (
            ground (
              arith,
              insufficient_answer-outcome a symbol r,
              from_check-ok a (insufficient_answer a.py symbol) r,
            ))
      ]

  embed-grounded :
      (ports : Ports) (symbol question : Text) (active : List GenerationManifest)
      (calls : List PortCall) (r : ResearchAnswer)
      → ((call embed_call (ports.embed_query question) >>= λ vector.
            search_with a ports symbol question active vector)
          calls).0
        ≡ ok r
      → r.outcome ≡ ResearchOutcome.answered
      → GroundedBy ports symbol question active r.claims
  embed-grounded ports symbol question active calls r h k =
      elim (Result-cases (ports.embed_query question)) [
        | inl (vector, e) ↦
            search_with-grounded ports symbol question active vector (calls ++ embed_call ∷ []) r
              (rw e at h) k e
        | inr (x, e) ↦ absurd (ground arith)
      ]

  paid-grounded :
      (before : Option (Result QueryError (Unit {0}))) (ports : Ports) (symbol question : Text)
      (active : List GenerationManifest) (calls : List PortCall) (r : ResearchAnswer)
      → ((before_paid a before >>= λ _. call embed_call (ports.embed_query question) >>= λ vector.
            search_with a ports symbol question active vector)
          calls).0
        ≡ ok r
      → r.outcome ≡ ResearchOutcome.answered
      → GroundedBy ports symbol question active r.claims
  unfolding before_paid
  paid-grounded none ports symbol question active calls r h k =
      embed-grounded ports symbol question active calls r h k
  paid-grounded (some (ok x)) ports symbol question active calls r h k =
      embed-grounded ports symbol question active (calls ++ paid_call ∷ []) r h k
  paid-grounded (some (err e)) ports symbol question active calls r h k = absurd (ground arith)

  query_active-grounded :
      (ports : Ports) (symbol question : Text) (active : List GenerationManifest)
      (calls : List PortCall) (r : ResearchAnswer)
      → (query_active a ports symbol question active calls).0 ≡ ok r
      → r.outcome ≡ ResearchOutcome.answered
      → GroundedBy ports symbol question active r.claims
  unfolding query_active
  query_active-grounded ports symbol question [] calls r h k = absurd (ground arith)
  query_active-grounded ports symbol question (m ∷ ms) calls r h k =
      paid-grounded ports.before_paid_call ports symbol question (m ∷ ms) calls r h k

  -- A query that is answered was asked for a valid symbol and a valid question. The symbol's active
  -- manifests were listed, the question was embedded, the store was searched with its vector among
  -- the safe manifests for so many hits as the policy says, and the hits it returned were classified.
  -- The answer's claims are those generated from the question and the accepted hits. They are not
  -- empty, and the words of each claim's quotes support it. Each quote stands word for word in the
  -- text of an accepted hit with the quote's chunk, and that hit is safe: of the symbol and the
  -- corpus, of a safe manifest that was listed, with its chunk in that manifest, above the score of
  -- the policy, and not an injection.
  pub query_research-rests :
      (ports : Ports) (symbol question : Text) (r : ResearchAnswer)
      → (query_research a ports symbol question []).0 ≡ ok r
      → r.outcome ≡ ResearchOutcome.answered
      → (s q : Text) × (listed : List GenerationManifest) × (x : Searched ports s q
          (safe_manifests a.corpus s listed)
          r.claims)
        × (validate_symbol a.py symbol ≡ ok s)
        × (validate_research_question a.py question ≡ ok q)
        × (ports.list_active s ≡ ok listed)
        × (is_empty r.claims ≡ false)
        × Every
            (ClaimRests a (asked_query a s (safe_manifests a.corpus s listed)) x.safe.accepted_hits)
            r.claims
  unfolding query_research safe_hits claims_are_grounded
  query_research-rests ports symbol question r h k =
      elim (Result-cases (validate_symbol a.py symbol)) [
        | inr (e, v) ↦ absurd (ground arith)
        | inl (s, v) ↦ elim (Result-cases (validate_research_question a.py question)) [
          | inr (e, w) ↦ absurd (ground arith)
          | inl (q, w) ↦ elim (Bool-cases (a.is_personalized_trade_request q)) [
            | inl personal ↦
                absurd (ground (arith, refusal-outcome a s r, from_check-ok a (refusal a.py s) r))
            | inr free ↦ elim (Result-cases (ports.list_active s)) [
              | inr (e, l) ↦ absurd (ground arith)
              | inl (listed, l) ↦
                  let active = safe_manifests a.corpus s listed in
                  let (x, grounded) =
                    query_active-grounded ports s q active (list_call ∷ []) r
                      (rw (v, w, free, l) at h) k in
                  let (some_claims, rests) = claims_rest s q active ports x grounded in
                  (s, q, listed, x, v, w, l, some_claims, rests)
            ]
          ]
        ]
      ]
    where
      claims_rest :
          (s q : Text) (active : List GenerationManifest) (ports : Ports)
          (x : Searched ports s q active r.claims)
          → claims_are_grounded a r.claims (evidence_of x.safe.accepted_hits) ≡ true
          → (is_empty r.claims ≡ false)
            × Every (ClaimRests a (asked_query a s active) x.safe.accepted_hits) r.claims
      claims_rest s q active ports x grounded =
          let both = &&-eq-true (not (is_empty r.claims)) _ grounded in
          let some_claims : is_empty r.claims ≡ false = ground (arith, both.0) in
          (
            some_claims,
            claims-Every a (asked_query a s active) x.safe.accepted_hits r.claims
                (classify_safe_hits-accepts_safe a.contains_prompt_injection
                  (asked_query a s active) x.raw_hits x.safe x.classified).0
                both.1,
          )
