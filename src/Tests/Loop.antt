-- ===== src/Tests/Loop.antt =====
-- A round of an agent: the only talk of a session has written all, and a new session has no talks.
use magneto.Base.{◌+◌, ◌≡◌, refl, false, List, [], ◌∷◌, some, none, pos}
use magneto.Model.{write_only, kok, broken, Talk}
use magneto.Env.{ev_out}
use magneto.Session.{finish_talk, note_result}
use magneto.Slave.{on_event}
use magneto.Scheduler.{session, MsgSession, build_for_session}
use magneto.Slave.Loop.{Settings, Agent, Round, session_ready, mailbox_ready, process}
use magneto.Model.{read_only}
use magneto.Biz.{assign_talks}
use magneto.Biz.Unread.{without_bufs, start_session-unread}
use magneto.Slave.Loop.{start_session}
use magneto.Slave.Loop.Answers.{known, asked, process-known}
use magneto.Tests.World.{service, env, near, far, healthy, conf, talk}

abbrev settings : Settings
settings = record {
  timeouts = conf;
  keep_alive = record { client_keepalive_sec = pos 60; rtimeo_ms = pos 10 };
  remotes = λ t. near ∷ far ∷ [];
}

abbrev writing : Talk
writing = record talk { category = write_only; fd = pos 5; retry = 0 }

abbrev first : MsgSession
first = build_for_session 64 32 (writing ∷ []) (pos 500) kok

abbrev second : MsgSession
second = build_for_session 65 33 [] (pos 500) kok

abbrev start : Agent
start = record {
  conns_mgr = healthy;
  num_clients_keepalive = pos 1;
  sessions =
      record {
        object = 0;
        msg = first;
        state = record { talks = writing ∷ []; num_talks_done = 0; has_failure = false };
      }
      ∷ [];
  next_object = 1;
  mailbox = [];
  trace = [];
  answers = [];
  requests = [];
}

abbrev rounds : List Round
rounds =
    record {
      ready =
          mailbox_ready
          ∷ session_ready 0 ev_out
              (record { fd = pos 5; timeleft_ms = pos 10; lasttime_ms = pos 1000; no_talk = 0 })
          ∷ [];
      late = [];
      mails = session second ∷ [];
    }
    ∷ []

abbrev after : Agent
after = elim (process env settings rounds start) [ none ↦ start | some a ↦ a ]

ran : process env settings rounds start ≡ some after
unfolding process on_event finish_talk note_result
ran = refl

-- Both are answered, the one with no talks by an error.
answered :
    after.answers
    ≡ build_for_session 65 33 [] (pos 500) broken
      ∷ build_for_session 64 32 (record writing { error = kok } ∷ []) (pos 0) kok
      ∷ []
unfolding process on_event finish_talk note_result
answered = refl

process-known_example : known 33 after ≡ known 33 start + asked 33 rounds
process-known_example = process-known env settings rounds start after 33 ran

-- A read of one service.
abbrev unread : List Talk
unread = (assign_talks env [] read_only (pos 500) 0 (without_bufs (service ∷ [])) []).0

start_session-unread_example :
    (a' : Agent) × (start_session env settings (build_for_session 64 32 unread (pos 500) kok) start
      ≡ some a')
    × (a'.trace ≡ start.trace)
    × (a'.conns_mgr ≡ start.conns_mgr)
    × (a'.sessions ≡ start.sessions)
    × (a'.answers ≡ build_for_session 64 32 unread (pos 500) broken ∷ start.answers)
start_session-unread_example =
    start_session-unread env settings [] read_only (pos 500) (service ∷ []) [] 64 32 start
