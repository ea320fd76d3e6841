-- ===== src/Pool/Health.antt =====
-- PoolConnsPerRemote::ReportStatus: how the health mark falls and recovers.
use magneto.Base.{◌≤◌, ◌≡◌, Bool, true, false, List, [], ◌∷◌, arith, ==_iff, replicate}
use magneto.Pool.{PoolConns, report_status, is_healthy}

pub record IsMarked (p : PoolConns) : Type 0 where
  pub least : 1 ≤ p.health_mark
  pub most : p.health_mark ≤ 100

-- Every report keeps the mark between 1 and 100.
report_status-IsMarked :
    (status : Bool) (p : PoolConns) → IsMarked p → IsMarked (report_status status p)
unfolding report_status
report_status-IsMarked true p h = ground arith
report_status-IsMarked false p h = ground arith

pub reports : List Bool → PoolConns → PoolConns
reports [] p = p
reports (b ∷ bs) p = reports bs (report_status b p)

reports-IsMarked : (bs : List Bool) (p : PoolConns) → IsMarked p → IsMarked (reports bs p)
unfolding reports
reports-IsMarked [] p h = h
reports-IsMarked (b ∷ bs) p h =
    reports-IsMarked bs (report_status b p) (report_status-IsMarked b p h)

seven : (p : PoolConns) → IsMarked p → is_healthy (reports (replicate 7 true) p) ≡ true
unfolding reports report_status
seven p h = (==_iff _ 100).1 (omega arith)

-- A remote with a mark between 1 and 100 is unhealthy after one failure; and after any reports on it,
-- seven successes in a row make it healthy.
pub recovers :
    (p : PoolConns) (bs : List Bool)
    → IsMarked p
    → (is_healthy (report_status false p) ≡ false)
      × (is_healthy (reports (replicate 7 true) (reports bs p)) ≡ true)
unfolding report_status
recovers p bs h = (ground arith, seven (reports bs p) (reports-IsMarked bs p h))
