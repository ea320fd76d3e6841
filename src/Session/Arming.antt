-- ===== src/Session/Arming.antt =====
-- Session::ResetTalk_ and Session::Reset: what holds of a talk that is under way, and of the count.
use magneto.Base.{Bool, true, false, ◌∷◌, some, ℤ, pos, ◌-ℤ◌, is_pos, ◌≡◌, ◌⊎◌, arith, ◌≤ℤ◌, ◌<ℤ◌}
use magneto.Model.{Talk, is_ok, kok}
use magneto.Env.{Env, Trace, add_event, registered, clock}
use magneto.ConnsMgr.{ConnsMgr}
use magneto.Session.{acquire, re_encode, direction}

-- A talk is under way: its descriptor is valid and was registered last, for the direction that its
-- status asks for, to time out no later than the talk ends, by the clock that was read just before.
abbrev pub UnderWay : Env → Talk → Trace → Type 0
UnderWay env talk t =
    (timeo : ℤ) × (rest : Trace) × (is_pos talk.fd ≡ true)
    × (t ≡ registered talk.fd add_event (direction talk) timeo ∷ clock ∷ rest)
    × (pos 0 <ℤ talk.endtime_ms -ℤ env.now_ms rest)
    × (timeo ≤ℤ talk.endtime_ms -ℤ env.now_ms rest)

-- A descriptor is 0 (none yet) or valid.
abbrev pub NotNegative : ℤ → Type 0
NotNegative fd = (fd ≡ pos 0) ⊎ (is_pos fd ≡ true)

-- A stage goes on with a valid descriptor and no error, or stops with an error.
abbrev pub Staged : Bool → Talk → Type 0
Staged goes_on talk =
    ((goes_on ≡ true) × (talk.error ≡ kok) × (is_pos talk.fd ≡ true))
    ⊎ ((goes_on ≡ false) × (is_ok talk.error ≡ false))

pub acquire-Staged :
    (env : Env) (t : Trace) (c : ConnsMgr) (talk talk' : Talk) (goes_on : Bool) (c' : ConnsMgr)
    (t' : Trace)
    → talk.error ≡ kok
    → NotNegative talk.fd
    → acquire env t c talk ≡ some (goes_on, talk', c', t')
    → Staged goes_on talk'
unfolding acquire
acquire-Staged env t c talk talk' goes_on c' t' ok valid run = ground arith

pub re_encode-Staged :
    (env : Env) (t : Trace) (c : ConnsMgr) (is_retry : Bool) (talk talk' : Talk) (goes_on : Bool)
    (c' : ConnsMgr) (t' : Trace)
    → talk.error ≡ kok
    → is_pos talk.fd ≡ true
    → re_encode env t c is_retry talk ≡ some (goes_on, talk', c', t')
    → Staged goes_on talk'
unfolding re_encode
re_encode-Staged env t c is_retry talk talk' goes_on c' t' ok valid run = ground arith
