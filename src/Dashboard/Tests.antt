-- ===== src/Dashboard/Tests.antt =====
-- The theorem about the history of the dashboard at a concrete number of requests.
use vxapigateway.Prelude.{◌≡◌, some, get_elem?, arith}
use vxapigateway.Dashboard.{new_dashboard_stats}
use vxapigateway.Dashboard.History.{record_requests, record_requests_lem}

record_requests_lem_example :
    let d = record_requests 100 new_dashboard_stats in
    (d.total_requests ≡ 100) × (get_elem? d.request_history 3 ≡ some 3)
record_requests_lem_example = record_requests_lem 100 3 (omega arith) (omega arith)
