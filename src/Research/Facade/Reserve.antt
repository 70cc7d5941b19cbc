-- ===== src/Research/Facade/Reserve.antt =====
-- `authorize_research_reservation` and `release_research_reservation` of app/services/research.py.
use marketview.Base.{true, false, none, some, Bool, Option, min, ℕ, if◌then◌else◌}
use marketview.Base.Result.{Result, ok, err}
use marketview.Base.Texts.{Text}
use marketview.Research.Deadline.{RequestDeadline, after}
use marketview.Research.Records.{Reservation, ReservationState, make_reservation}
use marketview.Research.Facade.{
  ControlFault, FacadeError, EnabledResearchService, deadline_for, from_fault, runtime, timed_out,
  cancelled, other, research_unavailable, invalid_request, control_failed,
}

-- `except (RuntimeError, TimeoutError)`
unfoldable pub is_indeterminate : ControlFault → Bool
is_indeterminate runtime = true
is_indeterminate timed_out = true
is_indeterminate cancelled = false
is_indeterminate other = false

module _ {C : Type 0} (s : EnabledResearchService C) where
  -- `_release_indeterminate_reservation`. A caller that is cancelled meanwhile still waits for the
  -- cleanup, whose own exception is then suppressed.
  unfoldable release_indeterminate_reservation :
      Reservation → Bool → ℕ → C → Result FacadeError (Unit {0}) × C
  release_indeterminate_reservation reservation is_cancelled now c =
      elim (after (min s.indeterminate_release_timeout s.timeout) now) [
        | err e ↦ (err (invalid_request e), c)
        | ok deadline ↦
            let (outcome, c') = s.control_plane.release_reservation reservation deadline c in
            if is_cancelled then (err (control_failed cancelled), c') else elim outcome [
              | ok _ ↦ (ok tt, c')
              | err e ↦ if is_indeterminate e then (ok tt, c') else (err (control_failed e), c')
            ]
      ]

  -- The release, then the exception.
  unfoldable release_then :
      Reservation → Bool → ℕ → C → FacadeError → Result FacadeError (Option Reservation) × C
  release_then reservation is_cancelled now c fault =
      let (outcome, c') = release_indeterminate_reservation reservation is_cancelled now c in
      elim outcome [ ok _ ↦ (err fault, c') | err e ↦ (err e, c') ]

  -- What follows the call of `authorize_reservation`.
  unfoldable settle_authorization :
      Reservation
      → Bool
      → ℕ
      → Result ControlFault Bool
      → C
      → Result FacadeError (Option Reservation) × C
  settle_authorization reservation is_cancelled now (ok is_authorized) c =
      (ok (if is_authorized then some reservation else none), c)
  settle_authorization reservation is_cancelled now (err cancelled) c =
      release_then reservation is_cancelled now c (control_failed cancelled)
  settle_authorization reservation is_cancelled now (err other) c = (err (control_failed other), c)
  settle_authorization reservation is_cancelled now (err runtime) c =
      release_then reservation is_cancelled now c research_unavailable
  settle_authorization reservation is_cancelled now (err timed_out) c =
      release_then reservation is_cancelled now c research_unavailable

  -- `authorize_research_reservation`
  unfoldable authorize_research_reservation :
      Text
      → Text
      → Text
      → ℕ
      → ℕ
      → Option RequestDeadline
      → Bool
      → (ℕ → ℕ)
      → C
      → Result FacadeError (Option Reservation) × C
  authorize_research_reservation nonce_digest budget_digest principal_digest daily_limit
        window_seconds deadline is_cancelled clock c =
      elim (from_fault (deadline_for s deadline clock)) [
        | err e ↦ (err e, c)
        | ok operation_deadline ↦
            elim (from_fault (
              make_reservation (record {
                reservation_digest = nonce_digest;
                budget_digest = budget_digest;
                principal_digest = principal_digest;
                units = 1;
                state = ReservationState.authorized;
              }))) [
                | err e ↦ (err e, c)
                | ok reservation ↦
                    let (answer, c') =
                      s.control_plane.authorize_reservation reservation daily_limit window_seconds
                        operation_deadline c in
                    settle_authorization reservation is_cancelled (clock 3) answer c'
              ]
      ]

  -- `release_research_reservation`
  unfoldable release_research_reservation :
      Reservation → Option RequestDeadline → (ℕ → ℕ) → C → Result FacadeError Bool × C
  release_research_reservation reservation deadline clock c = elim (deadline_for s deadline clock) [
    | err e ↦ (err (invalid_request e), c)
    | ok operation_deadline ↦
        let (outcome, c') = s.control_plane.release_reservation reservation operation_deadline c in
        elim outcome [
          | ok b ↦ (ok b, c')
          | err runtime ↦ (ok false, c')
          | err e ↦ (err (control_failed e), c')
        ]
  ]
