-- ===== src/Research/Service/Run.antt =====
-- The state that the ingestion of one filing works on: the control plane and the vector store in
-- memory, the clock's readings so far, and the variables that the handlers of `_ingest_impl` read.
use marketview.Base.Result.{Result, err, ok}
use marketview.Research.Domain.{GenerationManifest, VerificationOutcome}
use marketview.Research.Deadline.{Fault}
use marketview.Research.Records.{FailureStage, GenerationStageRecord}
use marketview.Research.Vectors.{Entry}
use marketview.Research.Plane.State.{Action, Plane}
use marketview.Base.{◌+◌, Bool, List, Option, ℕ}

-- What a step raises: a `ValueError` or a `TimeoutError`, a `RuntimeError`, or an
-- `IngestionStageError`.
pub data Failure : Type 0 where
  raised : Fault → Failure
  runtime_error : Failure
  stage_error : FailureStage → Option VerificationOutcome → Failure

pub record Run : Type 0 where
  pub plane : Plane
  pub entries : List Entry
  pub readings : ℕ
  pub current : Option GenerationManifest
  pub generation_stage : Option GenerationStageRecord
  pub published : Bool
  pub failure_stage : FailureStage

abbrev pub Step : Type 0 → Type 0
Step A = Run → Result Failure A × Run

module _ {A : Type 0} where
  unfoldable pub pure : A → Step A
  pure a r = (ok a, r)

  unfoldable pub throw : Failure → Step A
  throw e r = (err e, r)

  unfoldable pub gets : (Run → A) → Step A
  gets f r = (ok (f r), r)

  unfoldable pub lift : Result Failure A → Step A
  lift x r = (x, r)

  -- A call that reads the clock and nothing else of the state.
  unfoldable pub calling : (ℕ → Result Failure A) → Step A
  calling f r = (f r.readings, record r { readings = r.readings + 1 })

  -- The outcome of a call of the plane or the store.
  abbrev pub from_fault : Result Fault A → Result Failure A
  from_fault (ok a) = ok a
  from_fault (err e) = err (raised e)

  -- A method of the plane, at the clock's next reading.
  unfoldable pub on_plane : (ℕ → ℕ) → (ℕ → Action A) → Step A
  on_plane time f r =
      let (x, p) = f (time r.readings) r.plane in
      (from_fault x, record r { plane = p; readings = r.readings + 1 })

  -- A method of the plane that reads the clock twice.
  unfoldable pub on_plane_twice : (ℕ → ℕ) → (ℕ → ℕ → Action A) → Step A
  on_plane_twice time f r =
      let (x, p) = f (time r.readings) (time (r.readings + 1)) r.plane in
      (from_fault x, record r { plane = p; readings = r.readings + 2 })

  -- A method of the store that reads it.
  unfoldable pub on_store : (ℕ → ℕ) → (ℕ → List Entry → Result Fault A) → Step A
  on_store time f r =
      (from_fault (f (time r.readings) r.entries), record r { readings = r.readings + 1 })

-- A method of the store that writes it, unless it raises.
unfoldable pub write_store :
    (ℕ → ℕ) → (ℕ → List Entry → Result Fault (List Entry)) → Step (Unit {0})
write_store time f r = elim (f (time r.readings) r.entries) [
  | ok es ↦ (ok tt, record r { entries = es; readings = r.readings + 1 })
  | err e ↦ (err (raised e), record r { readings = r.readings + 1 })
]

unfoldable pub modify : (Run → Run) → Step (Unit {0})
modify f r = (ok tt, f r)

infixl 5 ◌>>=◌ ◌>>◌
unfoldable pub ◌>>=◌ : {A B : Type 0} → Step A → (A → Step B) → Step B
◌>>=◌ m f r = let (x, r') = m r in elim x [ ok a ↦ f a r' | err e ↦ (err e, r') ]

abbrev pub ◌>>◌ : {A B : Type 0} → Step A → Step B → Step B
m >> k = m >>= λ _. k

-- `try: m / except Exception as error: h(error)`
unfoldable pub handle : {A : Type 0} → Step A → (Failure → Step A) → Step A
handle m h r = let (x, r') = m r in elim x [ ok a ↦ (ok a, r') | err e ↦ h e r' ]

-- `try: m / finally: k`, which is told what `m` came to.
unfoldable pub finally : {A : Type 0} → Step A → (Result Failure A → Step A) → Step A
finally m k r = let (x, r') = m r in k x r'

unfoldable pub failing_at : FailureStage → Step (Unit {0})
failing_at s = modify (λ r. record r { failure_stage = s })
