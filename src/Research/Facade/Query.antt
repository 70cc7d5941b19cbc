-- ===== src/Research/Facade/Query.antt =====
-- `query_research` of app/services/research.py, over the query of app/research/service.py.
use marketview.Base.{[], true, false, none, some, Bool, List, Option, any, not, ℕ, if◌then◌else◌}
use marketview.Base.Result.{Result, ok, err}
use marketview.Base.Texts.{Text}
use marketview.Research.Deadline.{Fault, RequestDeadline}
use marketview.Research.Records.{Reservation, ReservationState}
use marketview.Research.Service.Query.{
  Ports, PortCall, QueryError, query_research, paid_call, port_failure, corpus_unavailable,
  interrupted,
}
use marketview.Research.Answer.{ResearchAnswer}
use marketview.Research.Facade.{
  ControlFault, FacadeError, EnabledResearchService, deadline_for, runtime, timed_out, cancelled,
  other, research_unavailable, invalid_request, query_failed,
}

-- `except (ResearchCorpusUnavailableError, ResearchUnavailableError, RuntimeError)`: a port's failure
-- is a `RuntimeError`, and a callback that is refused raises `ResearchUnavailableError`.
unfoldable pub is_reported : QueryError → Bool
is_reported corpus_unavailable = true
is_reported port_failure = true
is_reported _ = false

-- `reservation.state is ReservationState.AUTHORIZED`
abbrev pub is_authorized_state : ReservationState → Bool
is_authorized_state ReservationState.authorized = true
is_authorized_state _ = false

-- `commit_before_paid_call`, as the query sees it.
unfoldable pub commit_before_paid_call : Result ControlFault Bool → Result QueryError (Unit {0})
commit_before_paid_call (ok true) = ok tt
commit_before_paid_call (ok false) = err port_failure
commit_before_paid_call (err runtime) = err port_failure
commit_before_paid_call (err timed_out) = err (QueryError.invalid Fault.timeout_error)
commit_before_paid_call (err cancelled) = err interrupted
commit_before_paid_call (err other) = err interrupted

abbrev pub is_paid : PortCall → Bool
is_paid paid_call = true
is_paid _ = false

-- The answer of the query, or `ResearchUnavailableError`.
unfoldable pub answer_or_unavailable :
    Result QueryError ResearchAnswer → Result FacadeError ResearchAnswer
answer_or_unavailable (ok answer) = ok answer
answer_or_unavailable (err e) =
    if is_reported e then err research_unavailable else err (query_failed e)

module _ {C : Type 0} (s : EnabledResearchService C) where
  -- The query with the commit before its paid calls: its answer, its calls, and the cost control,
  -- which the commit changes when the query makes it.
  unfoldable pub query_committing :
      Ports
      → Text
      → Text
      → Reservation
      → RequestDeadline
      → C
      → Result FacadeError ResearchAnswer × List PortCall × C
  query_committing ports symbol question reservation deadline c =
      let (outcome, c') = s.control_plane.commit_reservation reservation deadline c in
      let (answer, calls) =
        query_research s.core
          (record ports { before_paid_call = some (commit_before_paid_call outcome) }) symbol
          question [] in
      (answer_or_unavailable answer, calls, if any is_paid calls then c' else c)

  -- `query_research`
  unfoldable pub query_reserved :
      Ports
      → Text
      → Text
      → Option Reservation
      → Option RequestDeadline
      → (ℕ → ℕ)
      → C
      → Result FacadeError ResearchAnswer × List PortCall × C
  query_reserved ports symbol question none deadline clock c = (err research_unavailable, [], c)
  query_reserved ports symbol question (some reservation) deadline clock c =
      if not (is_authorized_state reservation.state)
      then (err research_unavailable, [], c)
      else elim (deadline_for s deadline clock) [
        | err e ↦ (err (invalid_request e), [], c)
        | ok operation_deadline ↦
            query_committing ports symbol question reservation operation_deadline c
      ]
