-- ===== src/Tests/Scheduler.antt =====
-- A scheduler that gets a request and then the end of a session.
use magneto.Base.{◌≡◌, true, List, [], ◌∷◌, ◌++◌, none, some, map, pos}
use magneto.Model.{rapid, kok}
use magneto.Scheduler.{Msg, new_req, session, Threads, Scheduler}
use magneto.Scheduler.Messages.{
  kinvalid, kconfig, kread_req, knew_req, ksession, kdestruct, session_body, new_plain, Pools,
  rounds,
}
use magneto.Scheduler.Messages.Casts.{Typed, objects_of, task_of, concat, rounds-Typed}

abbrev request : Msg
request = new_req (record {
  id_procedure = pos 5;
  fd_client = pos 12;
  fd_client_starttime_sec = pos 50;
  protocol_read = rapid;
})

abbrev talked : Msg
talked =
    session (record { biz_ctx = 64; biz_procedure = 32; talks = []; timeo_ms = pos 0; error = kok })

-- While a coroutine runs, a session ends.
abbrev threads : Threads
threads = record {
  pool_get = λ runs. 32;
  has_slot = λ runs. true;
  swap = λ runs ctx. true;
  coroutine = λ runs procedures. procedures;
  arrivals = λ runs. talked ∷ [];
}

abbrev start : Scheduler
start = record {
  mailbox = request ∷ [];
  task_queue = talked ∷ [];
  procedures = λ this. record {
    ctx = 64;
    id_procedure = pos 0;
    fd_client = pos 0;
    fd_client_starttime_sec = pos 0;
    protocol_read = none;
    msg_session = none;
    entry = (pos 0, pos 0);
  };
  current = none;
  runs = [];
}

abbrev mails : List (List Msg)
mails = (request ∷ []) ∷ [] ∷ []

-- The pools hold a used object each; one message of each kind comes.
abbrev used : Pools
used c = elim c [
  | ksession ↦ record { category = ksession; body = session_body none } ∷ []
  | _ ↦ new_plain ∷ []
]

used-Typed : Typed used
used-Typed kinvalid = (tt, tt)
used-Typed kconfig = (tt, tt)
used-Typed kread_req = (tt, tt)
used-Typed knew_req = (tt, tt)
used-Typed ksession = (tt, tt)
used-Typed kdestruct = (tt, tt)

rounds-Typed_example :
    (ran : List Msg) × (waits : List Msg) × (pools : Pools) × (rounds
        (λ p. 0)
        (map objects_of ((request ∷ []) ∷ (talked ∷ []) ∷ []))
        (objects_of (talked ∷ []))
        used
      ≡ some (map task_of ran, objects_of waits, pools))
    × (ran ++ waits ≡ (talked ∷ []) ++ concat ((request ∷ []) ∷ (talked ∷ []) ∷ []))
    × Typed pools
rounds-Typed_example =
    rounds-Typed (λ p. 0) ((request ∷ []) ∷ (talked ∷ []) ∷ []) (talked ∷ []) used used-Typed
