-- ===== src/Research/Service/Query/Calls.antt =====
-- In what order `query_research` of app/research/service.py makes its calls.
use marketview.Validation.{validate_research_question, validate_symbol}
use marketview.Base.Result.{Result-cases, Result, ok, err}
use marketview.Base.Texts.{Text}
use marketview.Research.Domain.{GenerationManifest}
use marketview.Research.Retrieval.{EvidenceChunk}
use marketview.Research.Vectors.{EmbeddingVector}
use marketview.Research.Service.Query.{
  safe_manifests, query_research, query_active, ◌>>=◌, call, before_paid, QueryError, Asked,
  PortCall, Ports, answer_on, embed_call, generate_call, list_call, paid_call, search_call,
  search_with, safe_hits, evidence_of, query_active, call, before_paid, QueryError,
}
use marketview.Base.{
  Bool-cases, refl, take, Option, none, some, ℕ, inl, inr, ◌≡◌, [], ◌∷◌, inl, inr, ◌++◌, List,
  arith, is_some, ◌⊎◌, if◌then◌else◌, ◌*◌, ℕ, Option, take, some, none, true,
}

-- The calls that a query can come to: a callback that raises is the last.
abbrev pub later_calls : Option (Result QueryError (Unit {0})) → List PortCall
later_calls none = embed_call ∷ search_call ∷ generate_call ∷ []
later_calls (some (ok _)) = paid_call ∷ embed_call ∷ search_call ∷ generate_call ∷ []
later_calls (some (err _)) = paid_call ∷ []

abbrev pub all_calls : Option (Result QueryError (Unit {0})) → List PortCall
all_calls before = list_call ∷ later_calls before

module _ (a : Asked) (ports : Ports) where
  answer_on-calls :
      (symbol question : Text) (evidence : List EvidenceChunk) (calls : List PortCall)
      → let calls' = (answer_on a ports symbol question evidence calls).1 in
        (calls' ≡ calls) ⊎ (calls' ≡ calls ++ generate_call ∷ [])
  unfolding answer_on
  answer_on-calls symbol question evidence calls = ground arith

  search_with-calls :
      (symbol question : Text) (active : List GenerationManifest) (vector : EmbeddingVector)
      (calls : List PortCall)
      → let calls' = (search_with a ports symbol question active vector calls).1 in
        (calls' ≡ calls)
        ⊎ ((calls' ≡ calls ++ search_call ∷ [])
            ⊎ (calls' ≡ (calls ++ search_call ∷ []) ++ generate_call ∷ []))
  unfolding search_with
  search_with-calls symbol question active vector calls =
      elim (Result-cases (ports.search symbol vector active (a.max_results * a.overfetch_factor))) [
        | inl (hits, h) ↦ elim (Result-cases (safe_hits a symbol active hits)) [
          | inl (safe, k) ↦
              let rest =
                answer_on-calls symbol question (evidence_of safe.accepted_hits)
                  (calls ++ search_call ∷ []) in
              ground arith
          | inr (e, k) ↦ ground arith
        ]
        | inr (e, h) ↦ ground arith
      ]

  -- The calls of a query are the first so many of those that an answered query makes.
  abbrev IsStart : Option (Result QueryError (Unit {0})) → List PortCall → Type 0
  IsStart before calls = (n : ℕ) × (calls ≡ take n (all_calls before))

  abbrev passed : Option (Unit {0}) → Option (Result QueryError (Unit {0}))
  passed none = none
  passed (some x) = some (ok x)

  embedded-calls :
      (before : Option (Unit {0})) (calls calls' : List PortCall)
      → (calls ≡ list_call ∷ (if is_some before then paid_call ∷ [] else []))
      → ((calls' ≡ calls ++ embed_call ∷ [])
          ⊎ ((calls' ≡ (calls ++ embed_call ∷ []) ++ search_call ∷ [])
              ⊎ (calls' ≡ ((calls ++ embed_call ∷ []) ++ search_call ∷ []) ++ generate_call ∷ [])))
      → IsStart (passed before) calls'
  embedded-calls none calls calls' c (inl e) = (2, rw (e, c) refl)
  embedded-calls none calls calls' c (inr (inl e)) = (3, rw (e, c) refl)
  embedded-calls none calls calls' c (inr (inr e)) = (4, rw (e, c) refl)
  embedded-calls (some x) calls calls' c (inl e) = (3, rw (e, c) refl)
  embedded-calls (some x) calls calls' c (inr (inl e)) = (4, rw (e, c) refl)
  embedded-calls (some x) calls calls' c (inr (inr e)) = (5, rw (e, c) refl)

  embed-calls :
      (symbol question : Text) (active : List GenerationManifest) (calls : List PortCall)
      → let calls' =
          ((call embed_call (ports.embed_query question) >>= λ vector.
          search_with a ports symbol question active vector)
            calls).1 in
        (calls' ≡ calls ++ embed_call ∷ [])
        ⊎ ((calls' ≡ (calls ++ embed_call ∷ []) ++ search_call ∷ [])
            ⊎ (calls' ≡ ((calls ++ embed_call ∷ []) ++ search_call ∷ []) ++ generate_call ∷ []))
  embed-calls symbol question active calls = elim (Result-cases (ports.embed_query question)) [
    | inl (vector, h) ↦
        let rest = search_with-calls symbol question active vector (calls ++ embed_call ∷ []) in
        rw h rest
    | inr (e, h) ↦ rw h (inl refl)
  ]

  paid-calls :
      (before : Option (Result QueryError (Unit {0}))) (symbol question : Text)
      (active : List GenerationManifest)
      → IsStart before
          ((before_paid a before >>= λ _. call embed_call (ports.embed_query question) >>= λ vector.
              search_with a ports symbol question active vector)
            (list_call ∷ [])).1
  unfolding before_paid
  paid-calls none symbol question active =
      embedded-calls none (list_call ∷ []) _ refl
        (embed-calls symbol question active (list_call ∷ []))
  paid-calls (some (ok x)) symbol question active =
      embedded-calls (some x) (list_call ∷ paid_call ∷ []) _ refl
        (embed-calls symbol question active (list_call ∷ paid_call ∷ []))
  paid-calls (some (err e)) symbol question active = (2, refl)

  query_active-calls :
      (symbol question : Text) (active : List GenerationManifest)
      → IsStart ports.before_paid_call
          (query_active a ports symbol question active (list_call ∷ [])).1
  unfolding query_active
  query_active-calls symbol question [] = (1, refl)
  query_active-calls symbol question (m ∷ ms) =
      paid-calls ports.before_paid_call symbol question (m ∷ ms)

  -- A query's calls, however it ends, are the first of this sequence, as many as it comes to: the
  -- active manifests are listed, the callback before the paid calls is made if there is one, the
  -- question is embedded, the store is searched, and an answer is generated. A callback that raises
  -- is the last call, and a personal request for a trade makes none.
  pub query_research-calls :
      (symbol question : Text)
      → ((n : ℕ) × ((query_research a ports symbol question []).1
            ≡ take n (all_calls ports.before_paid_call)))
        × ((checked : Text)
            → validate_research_question a.py question ≡ ok checked
            → a.is_personalized_trade_request checked ≡ true
            → (query_research a ports symbol question []).1 ≡ [])
  unfolding query_research
  query_research-calls symbol question = (starts, silent)
    where
      starts : IsStart ports.before_paid_call (query_research a ports symbol question []).1
      starts = elim (Result-cases (validate_symbol a.py symbol)) [
        | inr (e, h) ↦ rw h (0, refl)
        | inl (s, h) ↦ elim (Result-cases (validate_research_question a.py question)) [
          | inr (e, k) ↦ rw (h, k) (0, refl)
          | inl (q, k) ↦ elim (Bool-cases (a.is_personalized_trade_request q)) [
            | inl personal ↦ rw (h, k, personal) (0, refl)
            | inr free ↦ elim (Result-cases (ports.list_active s)) [
              | inr (e, l) ↦ rw (h, k, free, l) (1, refl)
              | inl (active, l) ↦
                  rw (h, k, free, l) (query_active-calls s q (safe_manifests a.corpus s active))
            ]
          ]
        ]
      ]

      silent :
          (checked : Text)
          → validate_research_question a.py question ≡ ok checked
          → a.is_personalized_trade_request checked ≡ true
          → (query_research a ports symbol question []).1 ≡ []
      silent checked h k = ground arith
