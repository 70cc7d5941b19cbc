-- ===== src/Research/Facade/Unpaid.antt =====
-- The calls of paid providers in `query_research` of app/services/research.py.
use marketview.Base.{
  ◌≡◌, refl, [], ◌∷◌, zero, suc, true, false, none, some, inl, inr, Bool, List, any, take, ℕ, ◌⊎◌,
  if◌then◌else◌, Option, sym,
}
use marketview.Base.Result.{Result, ok, err, Result-cases}
use marketview.Base.Texts.{Text}
use marketview.Research.Deadline.{RequestDeadline}
use marketview.Research.Records.{Reservation, ReservationState}
use marketview.Research.Service.Query.{Ports, PortCall, list_call, paid_call}
use marketview.Research.Service.Query.Calls.{all_calls, query_research-calls}
use marketview.Research.Facade.{ControlFault, EnabledResearchService, deadline_for}
use marketview.Research.Facade.Query.{
  commit_before_paid_call, query_committing, query_reserved, is_paid,
}

module _ {C : Type 0} (s : EnabledResearchService C) where
  -- No paid provider is called.
  abbrev pub IsUnpaid : List PortCall → Type 0
  IsUnpaid calls = (n : ℕ) × (calls ≡ take n (list_call ∷ paid_call ∷ []))

  -- The reservation was authorized, and is committed by the call that left the state behind.
  abbrev pub IsCommitted : Reservation → C → C → Type 0
  IsCommitted r c c' =
      (r.state ≡ ReservationState.authorized)
      × (d : RequestDeadline) × (s.control_plane.commit_reservation r d c ≡ (ok true, c'))

  module _ (ports : Ports) (symbol question : Text) (r : Reservation) (d : RequestDeadline)
      (c : C) where
    -- The ports of the query, after the commit's answer.
    abbrev asked : Result ControlFault Bool → Ports
    asked x = record ports { before_paid_call = some (commit_before_paid_call x) }

    -- What a commit with this answer leaves of the query's calls and of the cost control.
    settled :
        (x : Result ControlFault Bool) (c' : C) (calls : List PortCall) (n : ℕ)
        → calls ≡ take n (all_calls (some (commit_before_paid_call x)))
        → IsUnpaid calls ⊎ ((x ≡ ok true) × ((if any is_paid calls then c' else c) ≡ c'))
    unfolding commit_before_paid_call
    settled x c' calls zero e = inl (0, e)
    settled x c' calls (suc zero) e = inl (1, e)
    settled (ok true) c' calls (suc (suc n)) e = inr (refl, rw e refl)
    settled (ok false) c' calls (suc (suc n)) e = inl (suc (suc n), e)
    settled (err ControlFault.runtime) c' calls (suc (suc n)) e = inl (suc (suc n), e)
    settled (err ControlFault.timed_out) c' calls (suc (suc n)) e = inl (suc (suc n), e)
    settled (err ControlFault.cancelled) c' calls (suc (suc n)) e = inl (suc (suc n), e)
    settled (err ControlFault.other) c' calls (suc (suc n)) e = inl (suc (suc n), e)

    query_committing-charges :
        let (answer, calls, c') = query_committing s ports symbol question r d c in
        IsUnpaid calls ⊎ (s.control_plane.commit_reservation r d c ≡ (ok true, c'))
    unfolding query_committing
    query_committing-charges =
        let x = (s.control_plane.commit_reservation r d c).0 in
        let c' = (s.control_plane.commit_reservation r d c).1 in
        let ((n, e), _) = query_research-calls s.core (asked x) symbol question in
        elim (settled x c' _ n e) [
          | inl unpaid ↦ inl unpaid
          | inr (paid, kept) ↦ inr (λ i. (paid i, sym kept i))
        ]

  -- A query calls no provider that is paid, unless it comes with an authorized reservation that the
  -- cost control has then answered to have committed: of the calls it makes, however it ends, there
  -- are at most the listing and the commit, or the commit was confirmed and the cost control is in
  -- the state that the commit left.
  pub query_reserved-charges :
      (ports : Ports) (symbol question : Text) (reservation : Option Reservation)
      (deadline : Option RequestDeadline) (clock : ℕ → ℕ) (c : C)
      → let (answer, calls, c') =
          query_reserved s ports symbol question reservation deadline clock c in
        IsUnpaid calls ⊎ ((r : Reservation) × (reservation ≡ some r) × IsCommitted r c c')
  unfolding query_reserved
  query_reserved-charges ports symbol question none deadline clock c = inl (0, refl)
  query_reserved-charges ports symbol question (some r) deadline clock c =
      authorized_or r.state refl
    where
      authorized_or :
          (state : ReservationState)
          → r.state ≡ state
          → let (answer, calls, c') =
              query_reserved s ports symbol question (some r) deadline clock c in
            IsUnpaid calls ⊎ ((r' : Reservation) × (some r ≡ some r') × IsCommitted r' c c')
      authorized_or ReservationState.committed e = rw e (inl (0, refl))
      authorized_or ReservationState.released e = rw e (inl (0, refl))
      authorized_or ReservationState.authorized e =
          elim (Result-cases (deadline_for s deadline clock)) [
            | inr (x, h) ↦ rw (e, h) (inl (0, refl))
            | inl (d, h) ↦ elim (query_committing-charges ports symbol question r d c) [
              | inl unpaid ↦ rw (e, h) (inl unpaid)
              | inr paid ↦ simp (e, h) (inr (r, refl, (e, d, paid)))
            ]
          ]
