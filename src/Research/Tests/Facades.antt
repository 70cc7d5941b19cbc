-- ===== src/Research/Tests/Facades.antt =====
-- A query on a reservation, on concrete inputs.
use marketview.Base.{◌≡◌, suc, true, false, some, ℕ, ◌⊎◌}
use marketview.Base.Result.{ok}
use marketview.Base.Texts.{codes}
use marketview.Research.Records.{Reservation, ReservationState}
use marketview.Research.Facade.{CostControl, EnabledResearchService}
use marketview.Research.Facade.Query.{query_reserved}
use marketview.Research.Facade.Unpaid.{IsUnpaid, IsCommitted, query_reserved-charges}
use marketview.Research.Tests.{digest_text}
use marketview.Research.Tests.Queries.{sample_asked, sample_ports}

-- A control that counts the commits, and confirms each.
abbrev sample_control : CostControl ℕ
sample_control = record {
  authorize_reservation = λ r limit window d n. (ok true, n);
  commit_reservation = λ r d n. (ok true, suc n);
  release_reservation = λ r d n. (ok false, n);
}

abbrev sample_service : EnabledResearchService ℕ
sample_service = record {
  core = sample_asked;
  control_plane = sample_control;
  timeout = 5000;
  indeterminate_release_timeout = 250;
}

abbrev sample_reservation : Reservation
sample_reservation = record {
  reservation_digest = digest_text;
  budget_digest = digest_text;
  principal_digest = digest_text;
  units = 1;
  state = ReservationState.authorized;
}

query_reserved-charges_example :
    let (answer, calls, n) =
      query_reserved sample_service sample_ports
        (codes "AAPL")
        (codes "why")
        (some sample_reservation)
        (some (record { expires_at = 9000 }))
        (λ k. k)
        0 in
    IsUnpaid sample_service calls
    ⊎ ((r : Reservation) × (some sample_reservation ≡ some r) × IsCommitted sample_service r 0 n)
query_reserved-charges_example =
    query_reserved-charges sample_service sample_ports (codes "AAPL") (codes "why")
      (some sample_reservation) (some (record { expires_at = 9000 })) (λ k. k) 0
