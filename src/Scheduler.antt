-- ===== src/Scheduler.antt =====
-- src/schedulers/scheduler.h and src/schedulers/details/scheduler.cpp: the thread that runs the
-- procedures of requests as coroutines, and SendToOneWorker of src/schedulers/schedulers.h. The
-- mailbox, the pool of procedures and the switching of contexts are given by `Threads`; a
-- procedure is told by its address.
pub mod Fifo
pub mod Messages
use magneto.Base.{
  ℕ, zero, suc, ◌==◌, ◌%◌, ◌^◌, Bool, true, false, if◌then◌else◌, List, [], ◌∷◌, ◌++◌, Option, none,
  some, ℤ, map,
}
use magneto.Model.{Talk, Category, Error}
use magneto.Socket.{to_unsigned}
use magneto.Slave.Clients.{MsgReadReq, MsgNewReq, MsgDestruct}
use magneto.Ctx.{ptr_to_ints}

-- MsgSession: the coroutine and the procedure that wait for the talks.
pub record MsgSession : Type 0 where
  pub biz_ctx : ℕ
  pub biz_procedure : ℕ
  pub talks : List Talk
  pub timeo_ms : ℤ
  pub error : Error

-- MsgSession::BuildForSession.
abbrev pub build_for_session : ℕ → ℕ → List Talk → ℤ → Error → MsgSession
build_for_session ctx p talks timeo_ms e = record {
  biz_ctx = ctx;
  biz_procedure = p;
  talks = talks;
  timeo_ms = timeo_ms;
  error = e;
}

-- Msg, by its categories.
pub data Msg : Type 0 where
  config : Msg
  read_req : MsgReadReq → Msg
  new_req : MsgNewReq → Msg
  session : MsgSession → Msg
  destruct : MsgDestruct → Msg

-- The fields of a BizProcedure that its scheduler sets; `entry` are the arguments of makecontext.
pub record Procedure : Type 0 where
  pub ctx : ℕ
  pub id_procedure : ℤ
  pub fd_client : ℤ
  pub fd_client_starttime_sec : ℤ
  pub protocol_read : Option Category
  pub msg_session : Option MsgSession
  pub entry : ℤ × ℤ

-- A task that was run: whether its context was switched to and back.
pub record Run : Type 0 where
  pub task : Msg
  pub done : Bool

-- What the scheduler does not decide: the procedure that the pool gives, the slot of the thread,
-- the switch of contexts, what a coroutine does to the procedures, the messages sent meanwhile.
pub record Threads : Type 0 where
  pub pool_get : List Run → ℕ
  pub has_slot : List Run → Bool
  pub swap : List Run → ℕ → Bool
  pub coroutine : List Run → (ℕ → Procedure) → ℕ → Procedure
  pub arrivals : List Run → List Msg

-- Scheduler, with the tasks run so far.
pub record Scheduler : Type 0 where
  pub mailbox : List Msg
  pub task_queue : List Msg
  pub procedures : ℕ → Procedure
  pub current : Option ℕ
  pub runs : List Run

-- BizProcedure::Procedure.
unfoldable pub procedure : MsgNewReq → ℕ → Procedure → Procedure
unfolding ptr_to_ints
procedure m this p = record p {
  id_procedure = m.id_procedure;
  fd_client = m.fd_client;
  fd_client_starttime_sec = m.fd_client_starttime_sec;
  protocol_read = some m.protocol_read;
  entry = ptr_to_ints this;
}

abbrev pub update : ℕ → Procedure → (ℕ → Procedure) → ℕ → Procedure
update this p procedures a = if this == a then p else procedures a

-- The first loop of Process_: all mails, in their order, behind the tasks that wait.
unfoldable pub receive : List Msg → List Msg → List Msg
receive [] tasks = tasks
receive (m ∷ mails) tasks = receive mails (tasks ++ m ∷ [])

-- SetCurrentBizProcedure and swapcontext, up to ERROR_HANDLE.
unfoldable pub switch_to : Threads → Msg → ℕ → ℕ → Scheduler → Scheduler
switch_to th m this ctx s =
    if th.has_slot s.runs
    then (if th.swap s.runs ctx
        then record s {
          current = some this;
          mailbox = s.mailbox ++ th.arrivals s.runs;
          procedures = th.coroutine s.runs s.procedures;
          runs = s.runs ++ record { task = m; done = true } ∷ [];
        }
        else record s {
          current = some this;
          runs = s.runs ++ record { task = m; done = false } ∷ [];
        })
    else record s { runs = s.runs ++ record { task = m; done = false } ∷ [] }

-- The body of the second loop of Process_, without ConsumeTask_. A message of another category is
-- reported as a bug and consumed.
unfoldable pub run_task : Threads → Msg → Scheduler → Scheduler
unfolding switch_to procedure
run_task th (session m) s =
    let this = m.biz_procedure in
    let p = record (s.procedures this) { msg_session = some m } in
    switch_to th (session m) this m.biz_ctx (record s { procedures = update this p s.procedures })
run_task th (new_req m) s =
    let this = th.pool_get s.runs in
    let p = procedure m this (s.procedures this) in
    switch_to th (new_req m) this p.ctx (record s { procedures = update this p s.procedures })
run_task th m s = record s { runs = s.runs ++ record { task = m; done = false } ∷ [] }

-- The second loop of Process_: SelectTask_, the task, ConsumeTask_.
unfoldable pub run_tasks : Threads → ℕ → List Msg → Scheduler → Scheduler
unfolding run_task
run_tasks th zero tasks s = record s { task_queue = tasks }
run_tasks th (suc n) [] s = record s { task_queue = [] }
run_tasks th (suc n) (m ∷ tasks) s = run_tasks th n tasks (run_task th m s)

abbrev pub k_max_task_processed_one_time : ℕ
k_max_task_processed_one_time = 100

-- Process_.
unfoldable pub process : Threads → Scheduler → Scheduler
unfolding receive run_tasks
process th s =
    run_tasks th k_max_task_processed_one_time (receive s.mailbox s.task_queue)
      (record s { mailbox = [] })

-- The loop of Run_: before each call of Process_ other threads have sent some messages.
unfoldable pub run : Threads → List (List Msg) → Scheduler → Scheduler
unfolding process
run th [] s = s
run th (mails ∷ rest) s = run th rest (process th (record s { mailbox = s.mailbox ++ mails }))

-- SendToOneWorker: the index of the scheduler; an `int` modulo a `size_t` is taken in 64 bits.
abbrev pub worker_of : ℤ → ℕ → Option ℕ
worker_of id_procedure zero = none
worker_of id_procedure (suc n) = some (to_unsigned 64 id_procedure % suc n)
