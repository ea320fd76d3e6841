-- ===== src/Biz/Unread.antt =====
-- IOBasicTPD::Read on a set of services, src/io_basic/details/io_basic.cpp, from Talk::Assign to the
-- agent that gets the message.
use magneto.Base.{
  ℕ, suc, ◌==◌, ◌≡◌, refl, ap, sym, false, true, List, [], ◌∷◌, map, length, Option, none, some, ℤ,
  ==_iff,
}
use magneto.Model.{TalkCategory, Service, kok, broken}
use magneto.Model.Assign.{assign}
use magneto.Env.{Env, Trace, clock}
use magneto.ConnsMgr.{ConnsMgr}
use magneto.Session.{Timeouts, reset_talks, reset}
use magneto.Scheduler.{build_for_session}
use magneto.Slave.Loop.{Settings, Agent, start_session}
use magneto.Biz.{ServiceCache, invalid_fd, assign_talks}

abbrev pub without_bufs : List Service → List (Service × Option (List ℕ))
without_bufs services = map (λ s. (s, none)) services

length-assign_talks :
    (env : Env) (t : Trace) (category : TalkCategory) (timeo_ms : ℤ) (i : ℕ)
    (services : List Service) (cache : ServiceCache)
    → length (assign_talks env t category timeo_ms i (without_bufs services) cache).0
      ≡ length services
unfolding assign_talks
length-assign_talks env t category timeo_ms i [] cache = refl
length-assign_talks env t category timeo_ms i (s ∷ services) cache =
    ap suc (
      length-assign_talks env (clock ∷ t) category timeo_ms (suc i) services
        (invalid_fd s.no cache))

-- Each of these talks is over before the session looks at it.
reset_talks-over :
    (env : Env) (t : Trace) (category : TalkCategory) (timeo_ms : ℤ) (i : ℕ)
    (services : List Service) (cache : ServiceCache) (conf : Timeouts) (u : Trace) (c : ConnsMgr)
    → let talks = (assign_talks env t category timeo_ms i (without_bufs services) cache).0 in
      reset_talks env conf u c talks
      ≡ some (record { talks = talks; num_talks_done = length services; has_failure = false }, c, u)
unfolding assign_talks assign reset_talks
reset_talks-over env t category timeo_ms i [] cache conf u c = refl
reset_talks-over env t category timeo_ms i (s ∷ services) cache conf u c =
    let rest =
      reset_talks-over env (clock ∷ t) category timeo_ms (suc i) services (invalid_fd s.no cache)
        conf u c in
    rw rest refl

-- Read assigns its talks without buffers. Whatever the services and whatever the cache holds for them,
-- the agent that gets the message neither registers, reads nor closes anything: it answers at once, by
-- the error kBroken, with the talks as they came.
pub start_session-unread :
    (env : Env) (conf : Settings) (t : Trace) (category : TalkCategory) (timeo_ms : ℤ)
    (services : List Service) (cache : ServiceCache) (ctx p : ℕ) (a : Agent)
    → let talks = (assign_talks env t category timeo_ms 0 (without_bufs services) cache).0 in
      let m = build_for_session ctx p talks timeo_ms kok in
      (a' : Agent) × (start_session env conf m a ≡ some a')
      × (a'.trace ≡ a.trace)
      × (a'.conns_mgr ≡ a.conns_mgr)
      × (a'.sessions ≡ a.sessions)
      × (a'.answers ≡ build_for_session ctx p talks timeo_ms broken ∷ a.answers)
unfolding start_session reset
start_session-unread env conf t category timeo_ms services cache ctx p a =
    let talks = (assign_talks env t category timeo_ms 0 (without_bufs services) cache).0 in
    let long = length-assign_talks env t category timeo_ms 0 services cache in
    let all : (length services == length talks) ≡ true = (==_iff _ _).1 (sym long) in
    let run =
      reset_talks-over env t category timeo_ms 0 services cache conf.timeouts a.trace a.conns_mgr in
    (
      record a {
        next_object = suc a.next_object;
        answers = build_for_session ctx p talks timeo_ms broken ∷ a.answers;
      },
      simp (run, all, start_session, reset),
      refl,
      refl,
      refl,
      refl,
    )
