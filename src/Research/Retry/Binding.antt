-- ===== src/Research/Retry/Binding.antt =====
-- A second claim is read back as it was written, and stands for one ledger only.
use native.Mathlib.Decide.{ℕ_discrete}
use marketview.Research.Records.{make_checkpoint, make_claim, make_result}
use marketview.Research.Retry.Ledger.{make_attempt_two_snapshot-IsLinked}
use marketview.Research.Records.Codec.{checkpoint_value, claim_value, result_value}
use marketview.Research.Records.Decode.{checkpoint_from_json, claim_from_json, result_from_json}
use marketview.Base.Texts.{Text}
use marketview.Base.Result.{Result, ok}
use marketview.Research.Records.RoundTrip.{
  Reads, checkpoint_from_json-checkpoint_value, claim_from_json-claim_value,
  result_from_json-result_value,
}
use marketview.Research.Python.{Python}
use marketview.Research.Json.{
  JsonLibrary, as_bool, as_count, as_fields, as_text, as_texts, has_key, has_schema, item,
  keys_within, load_record,
}
use marketview.Research.Deadline.{Fault}
use marketview.Research.Retry.{
  AttemptTwoClaim, AttemptTwoSnapshot, attempt_two_from_json, attempt_two_value,
  checkpoint_digest_of, claim_digest_of, decode_attempt_two_fields, make_attempt_two_claim,
  make_attempt_two_snapshot, result_digest_of,
}
use marketview.Base.{◌≡◌, some, inl, inr, List-decides, ap, sym, ◌∙◌, ◌≢◌, ◌⊎◌}

-- What the round trip computes with: the reading of fields.
reading : Unit {0}
unfolding load_record as_fields has_schema has_key keys_within item as_text as_count as_bool
    as_texts
reading = tt

-- A second claim that its constructor accepts is read back from its own JSON text, where the JSON
-- library loads what it dumped.
pub attempt_two_from_json-attempt_two_value :
    (lib : JsonLibrary) (r : AttemptTwoClaim)
    → make_attempt_two_claim r ≡ ok r
    → Reads lib (attempt_two_value r)
    → attempt_two_from_json lib (lib.dumps (attempt_two_value r)) ≡ ok r
unfolding reading attempt_two_from_json attempt_two_value decode_attempt_two_fields
attempt_two_from_json-attempt_two_value lib r valid h = rw (h, load_record) valid

-- Two texts with one digest.
pub record Collision (py : Python) : Type 0 where
  pub one : Text
  pub other : Text
  pub differ : one ≢ other
  pub collide : py.sha256 one ≡ py.sha256 other

module _ (lib : JsonLibrary) (py : Python) where
  same_text : (a b : Text) → py.sha256 a ≡ py.sha256 b → (a ≡ b) ⊎ Collision py
  same_text a b h = elim (List-decides ℕ_discrete a b) [
    | yes e ↦ inl e
    | no n ↦ inr (record { one = a; other = b; differ = n; collide = h })
  ]

  ok-injective : {A : Type 0} (x y : A) (r : Result Fault A) → r ≡ ok x → r ≡ ok y → x ≡ y
  ok-injective x y r h k = cc

  -- Records that their constructors accept, in JSON that the library reads back.
  pub record IsStored (s : AttemptTwoSnapshot) : Type 0 where
    pub checkpoint : make_checkpoint s.checkpoint ≡ ok s.checkpoint
    pub claim : make_claim s.first_claim ≡ ok s.first_claim
    pub result : make_result s.first_result ≡ ok s.first_result
    pub reads_checkpoint : Reads lib (checkpoint_value s.checkpoint)
    pub reads_claim : Reads lib (claim_value s.first_claim)
    pub reads_result : Reads lib (result_value s.first_result)

  abbrev SameLedger : AttemptTwoSnapshot → AttemptTwoSnapshot → Type 0
  SameLedger s t =
      (s.checkpoint ≡ t.checkpoint)
      × ((s.first_claim ≡ t.first_claim) × (s.first_result ≡ t.first_result))

  same_checkpoint :
      (s t : AttemptTwoSnapshot)
      → IsStored s
      → IsStored t
      → lib.dumps (checkpoint_value s.checkpoint) ≡ lib.dumps (checkpoint_value t.checkpoint)
      → s.checkpoint ≡ t.checkpoint
  same_checkpoint s t a b e =
      ok-injective s.checkpoint t.checkpoint
        (checkpoint_from_json lib (lib.dumps (checkpoint_value s.checkpoint)))
        (checkpoint_from_json-checkpoint_value lib s.checkpoint a.checkpoint a.reads_checkpoint)
        (ap (checkpoint_from_json lib) e
          ∙ checkpoint_from_json-checkpoint_value lib t.checkpoint b.checkpoint b.reads_checkpoint)

  same_claim :
      (s t : AttemptTwoSnapshot)
      → IsStored s
      → IsStored t
      → lib.dumps (claim_value s.first_claim) ≡ lib.dumps (claim_value t.first_claim)
      → s.first_claim ≡ t.first_claim
  same_claim s t a b e =
      ok-injective s.first_claim t.first_claim
        (claim_from_json lib (lib.dumps (claim_value s.first_claim)))
        (claim_from_json-claim_value lib s.first_claim a.claim a.reads_claim)
        (ap (claim_from_json lib) e
          ∙ claim_from_json-claim_value lib t.first_claim b.claim b.reads_claim)

  same_result :
      (s t : AttemptTwoSnapshot)
      → IsStored s
      → IsStored t
      → lib.dumps (result_value s.first_result) ≡ lib.dumps (result_value t.first_result)
      → s.first_result ≡ t.first_result
  same_result s t a b e =
      ok-injective s.first_result t.first_result
        (result_from_json lib (lib.dumps (result_value s.first_result)))
        (result_from_json-result_value lib s.first_result a.result a.reads_result)
        (ap (result_from_json lib) e
          ∙ result_from_json-result_value lib t.first_result b.result b.reads_result)

  same_digests :
      (s t : AttemptTwoSnapshot)
      → IsStored s
      → IsStored t
      → checkpoint_digest_of lib py s.checkpoint ≡ checkpoint_digest_of lib py t.checkpoint
      → claim_digest_of lib py s.first_claim ≡ claim_digest_of lib py t.first_claim
      → result_digest_of lib py s.first_result ≡ result_digest_of lib py t.first_result
      → SameLedger s t ⊎ Collision py
  unfolding checkpoint_digest_of claim_digest_of result_digest_of
  same_digests s t a b h k r =
      elim (same_text (lib.dumps (checkpoint_value s.checkpoint))
        (lib.dumps (checkpoint_value t.checkpoint)) h) [
          | inr c ↦ inr c
          | inl x ↦
              elim (same_text (lib.dumps (claim_value s.first_claim))
                (lib.dumps (claim_value t.first_claim)) k) [
                  | inr c ↦ inr c
                  | inl y ↦
                      elim (same_text (lib.dumps (result_value s.first_result))
                        (lib.dumps (result_value t.first_result)) r) [
                          | inr c ↦ inr c
                          | inl z ↦ inl (
                            same_checkpoint s t a b x,
                            (same_claim s t a b y, same_result s t a b z),
                          )
                        ]
                ]
        ]

  -- Two accepted snapshots of stored records with the same second claim have the same checkpoint,
  -- first claim and first result, unless two different texts have one SHA-256 digest.
  pub attempt_two-binds :
      (s t : AttemptTwoSnapshot) (c : AttemptTwoClaim)
      → IsStored s
      → IsStored t
      → make_attempt_two_snapshot lib py s ≡ ok s
      → make_attempt_two_snapshot lib py t ≡ ok t
      → s.claim ≡ some c
      → t.claim ≡ some c
      → ((s.checkpoint ≡ t.checkpoint)
          × ((s.first_claim ≡ t.first_claim) × (s.first_result ≡ t.first_result)))
        ⊎ Collision py
  attempt_two-binds s t c a b h k e f =
      let l = make_attempt_two_snapshot-IsLinked lib py s c h e in
      let m = make_attempt_two_snapshot-IsLinked lib py t c k f in
      same_digests s t a b (sym l.links_checkpoint ∙ m.links_checkpoint)
        (sym l.links_claim ∙ m.links_claim) (sym l.links_result ∙ m.links_result)
