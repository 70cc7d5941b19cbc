-- ===== src/Research/Plane/State.antt =====
-- The state of the control plane, and methods that read it, write it and may raise.
use marketview.Research.Records.{AccessionLease, GenerationStageRecord, SupersededCleanupRecord}
use marketview.Base.Texts.{Text}
use marketview.Research.Domain.{GenerationManifest}
use marketview.Research.Deadline.{Fault}
use marketview.Base.Result.{ok, Result, err}
use marketview.Base.{[], none, some, List, Option}

pub record Plane : Type 0 where
  pub active : List GenerationManifest
  pub leases : List AccessionLease
  pub stages : List GenerationStageRecord
  pub pending_cleanups : List SupersededCleanupRecord

abbrev pub empty_plane : Plane
empty_plane = record { active = []; leases = []; stages = []; pending_cleanups = [] }

abbrev pub Action : Type 0 → Type 0
Action A = Plane → Result Fault A × Plane

module _ {A : Type 0} where
  abbrev pub pure : A → Action A
  pure a p = (ok a, p)

  abbrev pub lift : Result Fault A → Action A
  lift r p = (r, p)

  abbrev pub gets : (Plane → A) → Action A
  gets f p = (ok (f p), p)

abbrev pub modify : (Plane → Plane) → Action (Unit {0})
modify f p = (ok tt, f p)

infixl 5 ◌>>=◌ ◌>>◌
abbrev pub ◌>>=◌ : {A B : Type 0} → Action A → (A → Action B) → Action B
◌>>=◌ m f p = let (r, p') = m p in elim r [ ok a ↦ f a p' | err e ↦ (err e, p') ]

abbrev pub ◌>>◌ : {A B : Type 0} → Action A → Action B → Action B
m >> k = m >>= λ _. k

-- `manifest.generation_id if manifest is not None else None`
abbrev pub generation_of : Option GenerationManifest → Option Text
generation_of none = none
generation_of (some m) = some m.generation_id
