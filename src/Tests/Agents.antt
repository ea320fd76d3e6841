-- ===== src/Tests/Agents.antt =====
-- Three agents, of which each refuses a message once.
use magneto.Base.{
  ◌+ℤ◌, none, ◌≡◌, ◌≤◌, ◌+◌, refl, Bool, true, false, if◌then◌else◌, List, [], ◌∷◌, ℕ, some, ℤ, pos,
  arith, ltb,
}
use magneto.Model.{Category, rapid}
use magneto.Env.{Env, Event, ev_in, ev_err}
use magneto.Slave.Clients.{KeepAlive, MsgReadReq, MsgNewReq, ReadReq, waits, accept, check_read_req}
use magneto.Biz.{BizProcedure, reset}
use magneto.Scheduler.{Procedure, procedure}
use magneto.Agents.{agent_of}
use magneto.Agents.Affinity.{Reads, completes, reset-agent_of}
use magneto.Tests.World.{env}
use magneto.Scheduler.{config}
use magneto.Agents.{Effect, accepted, closed, sent, Outside, broadcast_with_retry, check_events}
use magneto.Agents.Sending.{TakesAfter, Bounded, num_taken, broadcast_with_retry-each}
use magneto.Agents.Accepting.{Settled, check_events-Settled}

-- An agent takes a message after a refusal.
abbrev takes : List Effect → Bool
takes (sent i m false ∷ t) = true
takes (sent i m true ∷ t) = false
takes (accepted fd ∷ t) = false
takes (closed fd ∷ t) = false
takes [] = false

abbrev outside : Outside
outside = record {
  takes = λ t i m. takes t;
  accept = λ t fd. pos 6;
  num_clients_keepalive = λ t. pos 1 ∷ pos 0 ∷ [];
  random = λ t. pos 7;
  now_sec = λ t. pos 50;
}

bounded : Bounded outside config 1
bounded = record { refusals = patience }
  where
    patience : (i : ℕ) (t : List Effect) → (k : ℕ) × (k ≤ 1) × TakesAfter outside i config k t
    patience i (sent j m false ∷ t) = (0, omega arith, refl)
    patience i (sent j m true ∷ t) = (1, omega arith, (refl, refl))
    patience i (accepted fd ∷ t) = (1, omega arith, (refl, refl))
    patience i (closed fd ∷ t) = (1, omega arith, (refl, refl))
    patience i [] = (1, omega arith, (refl, refl))

broadcast_with_retry-each_example :
    (t' : List Effect) × (broadcast_with_retry outside 2 3 0 3 config [] ≡ some t')
    × ((a : ℕ) → num_taken a t' ≡ (if ltb a 3 then 1 else 0) + num_taken a [])
broadcast_with_retry-each_example =
    broadcast_with_retry-each outside 3 config 1 [] bounded (omega arith)

-- An event for a client, and an error on the listening descriptor.
abbrev events : List (Event × ℤ × Category)
events = (ev_in, pos 3, rapid) ∷ (ev_err, pos 3, rapid) ∷ []

check_events-Settled_example :
    (t' : List Effect) × (check_events outside 2 (pos 9) events [] ≡ some t')
    × Settled outside 2 (pos 9) t'
check_events-Settled_example = check_events-Settled outside 1 (pos 9) events [] (λ fd p. refl, tt)

-- A client whose request is there at once.
abbrev ready_env : Env
ready_env = record env { read = λ t pc fd. pos 0 }

abbrev keep : KeepAlive
keep = record { client_keepalive_sec = pos 60; rtimeo_ms = pos 10 }

abbrev client : MsgReadReq
client = record {
  id_procedure = pos 7;
  fd_client = pos 6;
  listen_addr = rapid;
  fd_client_starttime_sec = pos 50;
}

abbrev waiting : ReadReq
waiting = record {
  ctx = record { fd = pos 6; timeleft_ms = pos 10; lasttime_ms = pos 1000; no_talk = 0 };
  id_procedure = pos 7;
  fd_client_starttime_sec = pos 50;
  protocol_read = rapid;
}

abbrev request : MsgNewReq
request = record {
  id_procedure = pos 7;
  fd_client = pos 6;
  fd_client_starttime_sec = pos 50;
  protocol_read = rapid;
}

abbrev idle : Procedure
idle = record {
  ctx = 64;
  id_procedure = pos 0;
  fd_client = pos 0;
  fd_client_starttime_sec = pos 0;
  protocol_read = none;
  msg_session = none;
  entry = (pos 0, pos 0);
}

abbrev biz : BizProcedure
biz = record {
  id_procedure = pos 7;
  fd_client = pos 6;
  fd_client_starttime_sec = pos 50;
  protocol_read = rapid;
  service_cache = [];
  tmp_pool_talks = [];
  write_back_called = true;
}

accepted_client :
    accept ready_env keep [] (pos 0) client
    ≡ (pos 1, waits waiting, (accept ready_env keep [] (pos 0) client).2)
unfolding accept ◌+ℤ◌
accepted_client = refl

read_request : Reads ready_env waiting request
unfolding check_read_req
read_request =
    completes [] (check_read_req ready_env [] (pos 1) ev_in waiting).2 (pos 1) (pos 1) ev_in refl

same_id : biz.id_procedure ≡ (procedure request 32 idle).id_procedure
unfolding procedure
same_id = refl

reset-agent_of_example : agent_of (reset [] biz).0.id_procedure 3 ≡ agent_of client.id_procedure 3
reset-agent_of_example =
    reset-agent_of ready_env keep [] (accept ready_env keep [] (pos 0) client).2 [] (pos 0) (pos 1)
      client waiting request 32 3 idle biz accepted_client read_request same_id
