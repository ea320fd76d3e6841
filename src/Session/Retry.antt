-- ===== src/Session/Retry.antt =====
-- Session::FinishTalk: a failure is retried as often as the service allows, on a new descriptor.
use magneto.Base.{◌+◌, Bool, true, false, ◌≡◌, ◌⊎◌}
use magneto.Model.{Talk, is_ok, kok}
use magneto.Env.{Env, Trace}
use magneto.ConnsMgr.{ConnsMgr}
use magneto.Session.{Session}
use magneto.Session.Arming.{UnderWay}

-- What becomes of a talk that failed: it is over, as it is if no retry is left, or with an error if
-- the retry could not be set up; or it is under way again, with one retry less.
abbrev pub Failed : Env → Talk → Talk → Bool → Bool → Trace → Type 0
Failed env talk talk' done failed t' =
    ((talk.retry ≡ 0) × (talk' ≡ talk) × (done ≡ true) × (failed ≡ true))
    ⊎ ((talk'.retry + 1 ≡ talk.retry)
        × (done ≡ true)
        × (failed ≡ true)
        × (is_ok talk'.error ≡ false))
    ⊎ ((talk'.retry + 1 ≡ talk.retry)
        × (done ≡ false)
        × (failed ≡ false)
        × (talk'.error ≡ kok)
        × UnderWay env talk' t')
