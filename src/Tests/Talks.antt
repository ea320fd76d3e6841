-- ===== src/Tests/Talks.antt =====
-- The talks of a session over a small network.
use magneto.Base.{List, [], ◌∷◌, Option, none, some, Bool, true, false, pos}
use magneto.Model.{Talk, kend, in_service, Error}
use magneto.Env.{Trace}
use magneto.ConnsMgr.{ConnsMgr}
use magneto.ConnsMgr
use magneto.Session.{Session, reset_talk, reset, finish_talk}
use magneto.Tests.World.{env, conf, service, healthy, talk}

-- The talk is given a descriptor that is still connecting, and waits for it.
abbrev armed_or : Option (Talk × Bool × ConnsMgr × Trace) → Talk × Bool × ConnsMgr × Trace
armed_or none = (talk, true, healthy, [])
armed_or (some out) = out

unfoldable armed : Talk × Bool × ConnsMgr × Trace
unfolding reset_talk
armed = armed_or (reset_talk env conf [] healthy false talk)

abbrev begun_or : Option (Bool × Session × ConnsMgr × Trace) → Bool × Session × ConnsMgr × Trace
begun_or none = (false, record { talks = []; num_talks_done = 0; has_failure = true }, healthy, [])
begun_or (some out) = out

-- One talk waits, and one that has no buffer is over.
abbrev two_talks : List Talk
two_talks = talk ∷ record talk { status = kend } ∷ []

unfoldable begun : Bool × Session × ConnsMgr × Trace
unfolding reset
begun = begun_or (reset env conf [] healthy two_talks)

-- The connection of a talk broke, and the talk is tried again on the other remote.
abbrev broken_talk : Talk
broken_talk = record talk { fd = pos 9; remote = some (in_service service 0); error = Error.broken }

abbrev session : Session
session = record { talks = broken_talk ∷ []; num_talks_done = 0; has_failure = false }

unfoldable finished : Bool × Session × ConnsMgr × Trace
unfolding finish_talk
finished = begun_or (finish_talk env conf [] healthy session 0 false broken_talk)
