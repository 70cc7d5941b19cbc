-- ===== src/Research/Facade.antt =====
-- `EnabledResearchService` and `DisabledResearchService` (app/services/research.py): the reservation
-- of a question's cost around the query. The cost control is a port over a state of its own; a
-- method's readings of the clock are given in their order. The digests that a reservation is made
-- with, of random bytes and of the day, are arguments.
use marketview.Base.{
  ◌≡◌, refl, [], ◌∷◌, zero, suc, true, false, none, some, inl, inr, Bool, List, Option, any, leb,
  ltb, min, not, ◌||◌, ℕ, if◌then◌else◌,
}
use marketview.Base.Result.{Result, ok, err, raise_if, ◌>>◌}
use marketview.Base.Texts.{Text}
use marketview.Research.Deadline.{
  Fault, RequestDeadline, value_error, after, child, raise_if_expired, timeout_error,
}
use marketview.Research.Records.{
  Reservation, ReservationState, make_reservation, authorized, committed, released,
}
use marketview.Research.Service.Query.{
  Asked, Ports, PortCall, QueryError, query_research, paid_call, port_failure, corpus_unavailable,
  interrupted, invalid,
}
use marketview.Research.Answer.{ResearchAnswer}
pub mod Reserve
pub mod Query
pub mod Unpaid

-- What a call of the cost control raises: `RuntimeError`, `TimeoutError`, a cancellation, and any
-- other exception.
pub data ControlFault : Type 0 where
  runtime timed_out cancelled other : ControlFault

-- `ResearchUnavailableError`, a deadline's or a record's fault, what the query raises, and what the
-- cost control raises.
pub data FacadeError : Type 0 where
  research_unavailable : FacadeError
  invalid_request : Fault → FacadeError
  query_failed : QueryError → FacadeError
  control_failed : ControlFault → FacadeError

-- `ResearchCostControl`
pub record CostControl (C : Type 0) : Type 0 where
  pub authorize_reservation :
      Reservation → ℕ → ℕ → RequestDeadline → C → Result ControlFault Bool × C
  pub commit_reservation : Reservation → RequestDeadline → C → Result ControlFault Bool × C
  pub release_reservation : Reservation → RequestDeadline → C → Result ControlFault Bool × C

pub record EnabledResearchService (C : Type 0) : Type 0 where
  pub core : Asked
  pub control_plane : CostControl C
  pub timeout : ℕ
  pub indeterminate_release_timeout : ℕ

-- `__init__`: `maximum` is eight seconds, in the clock's ticks.
unfoldable make_service :
    {C : Type 0} → ℕ → EnabledResearchService C → Result Fault (EnabledResearchService C)
make_service maximum s = do
  raise_if (leb s.timeout 0 || not (ltb s.timeout maximum)) value_error
  ok s

module _ {A : Type 0} where
  abbrev pub from_fault : Result Fault A → Result FacadeError A
  from_fault (ok a) = ok a
  from_fault (err e) = err (invalid_request e)

-- The three methods of the disabled service.
abbrev disabled_authorize : Result FacadeError (Option Reservation)
disabled_authorize = err research_unavailable

abbrev disabled_query : Result FacadeError ResearchAnswer
disabled_query = err research_unavailable

abbrev disabled_release : Bool
disabled_release = false

module _ {C : Type 0} (s : EnabledResearchService C) where
  -- `_deadline`
  unfoldable pub deadline_for : Option RequestDeadline → (ℕ → ℕ) → Result Fault RequestDeadline
  deadline_for none clock = after s.timeout (clock 0)
  deadline_for (some d) clock = do
    raise_if_expired d (clock 0)
    child d s.timeout (clock 1) (clock 2)
