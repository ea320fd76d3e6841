-- ===== src/Tests/Agent.antt =====
-- An agent that reads a reply, and that serves one client from its arrival to its return.
use magneto.Base.{◌+ℤ◌, ◌-ℤ◌, ◌≡◌, refl, List, [], ◌∷◌, Option, none, some, pos}
use magneto.Model.{Talk, kread, rapid}
use magneto.Env.{Env, ev_in}
use magneto.Slave.{EventCtx}
use magneto.Slave.Clients.{
  KeepAlive, MsgReadReq, small_cache, accept, wait_for, check_read_req, hand_over, handle_read_req,
  read_req_ret, handle_msg_destruct, free_fds, keep_client, client_timeleft_ms,
}
use magneto.Slave.Clients.Count.{
  Clients, Happening, accepted, readable, destructed, step, run, present, run-Exact,
}
use magneto.Tests.World.{env, healthy, talk}

abbrev reading : Talk
reading = record talk { status = kread; fd = pos 9 }

abbrev ctx : EventCtx
ctx = record { fd = pos 9; timeleft_ms = pos 20; lasttime_ms = pos 1000; no_talk = 0 }

-- A request is read whole, handed over and done, and its client waits again.
abbrev serving : Env
serving = record env { read = λ t pc fd. pos 0 }

abbrev keep_alive : KeepAlive
keep_alive = record { client_keepalive_sec = pos 60; rtimeo_ms = pos 100 }

abbrev client : MsgReadReq
client = record {
  id_procedure = pos 3;
  fd_client = pos 5;
  listen_addr = rapid;
  fd_client_starttime_sec = pos 50;
}

abbrev day : List Happening
day = accepted client ∷ readable 0 ev_in ∷ destructed 0 (pos 5) (small_cache []) ∷ []

abbrev no_clients : Clients
no_clients = record { num_clients_keepalive = pos 0; places = []; conns_mgr = healthy; trace = [] }

abbrev or_none : Option Clients → Clients
or_none none = no_clients
or_none (some s) = s

unfoldable served : Clients
unfolding run
served = or_none (run serving keep_alive day no_clients)

served-run : run serving keep_alive day no_clients ≡ some served
unfolding served run step accept wait_for check_read_req hand_over handle_read_req read_req_ret
    handle_msg_destruct free_fds keep_client client_timeleft_ms ◌+ℤ◌ ◌-ℤ◌
served-run = refl

run-Exact_example : served.num_clients_keepalive ≡ pos (present served.places)
run-Exact_example = run-Exact serving keep_alive day no_clients served refl served-run
