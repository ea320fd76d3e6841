-- ===== src/Coroutine.antt =====
-- The coroutines of one scheduler: src/schedulers/details/scheduler.cpp (Process_), the functions of
-- src/biz_procedure.h that it calls, and how src/io_basic/details/io_basic.cpp gives control up.
-- A procedure is told by its address. The scheduler's thread either is in Process_ or runs one
-- procedure; the agents and the threads that send requests go on meanwhile.
pub mod Safety
use magneto.Base.{ℕ, ◌==◌, if◌then◌else◌, List, [], ◌∷◌, ◌++◌, Option, none, some, ◌≡◌}

-- Where a procedure is: in the pool, running, running with its talks already sent to an agent, or
-- waiting in swapcontext for the message that comes back.
pub data Status : Type 0 where
  pooled running sending suspended : Status

-- A message to the scheduler: a new request, or the end of a procedure's talks.
pub data Task : Type 0 where
  new_req : Task
  session : (biz_procedure : ℕ) → Task

-- `sent` are the procedures whose talks are with an agent; `task` is the message at the front that
-- is worked on, until its coroutine gives control back, and `queue` are those behind it.
pub record System : Type 0 where
  pub status : ℕ → Status
  pub current : Option ℕ
  pub slot : Option ℕ
  pub sent : List ℕ
  pub task : Option Task
  pub queue : List Task

-- No request was sent yet.
abbrev pub initial : System
initial = record {
  status = λ p. pooled;
  current = none;
  slot = none;
  sent = [];
  task = none;
  queue = [];
}

abbrev pub update : ℕ → Status → (ℕ → Status) → ℕ → Status
update p st status q = if p == q then st else status q

-- SetCurrentBizProcedure and swapcontext to a procedure, for the task at the front.
unfoldable pub switch_to : ℕ → Task → List Task → System → System
switch_to p task queue s = record s {
  status = update p running s.status;
  current = some p;
  slot = some p;
  task = some task;
  queue = queue;
}

-- BizProcedure::GetCurrentBizProcedure.
abbrev pub get_current : System → Option ℕ
get_current s = s.slot

-- Agents::SendMsg of the talks of an operation, when the agent takes the message.
unfoldable pub send_talks : ℕ → System → System
send_talks p s = record s { status = update p sending s.status; sent = p ∷ s.sent }

-- swapcontext back to the scheduler, and ConsumeTask_.
unfoldable pub swap_out : ℕ → System → System
swap_out p s = record s { status = update p suspended s.status; current = none; task = none }

-- The end of BizProcedure::Process_: FreeBizProcedure, the return to the scheduler, ConsumeTask_.
unfoldable pub finish : ℕ → System → System
finish p s = record s { status = update p pooled s.status; current = none; task = none }

-- AgentSlave::SendBackMsg_, of the one message between `before` and `after`.
unfoldable pub send_back : List ℕ → ℕ → List ℕ → System → System
send_back before p after s = record s { sent = before ++ after; queue = s.queue ++ session p ∷ [] }

-- A request is given to the scheduler.
unfoldable pub arrive : System → System
arrive s = record s { queue = s.queue ++ new_req ∷ [] }

-- What may happen next. The scheduler does not look at a procedure before it switches to it; the pool
-- gives an object that is free. An agent sends a message back at any time after it was sent, also
-- before the procedure has given control up.
pub data Step : System → System → Type 0 where
  arrives : (s : System) → Step s (arrive s)
  starts :
      (s : System) (p : ℕ) (queue : List Task)
      → s.current ≡ none
      → s.queue ≡ new_req ∷ queue
      → s.status p ≡ pooled
      → Step s (switch_to p new_req queue s)
  resumes :
      (s : System) (p : ℕ) (queue : List Task)
      → s.current ≡ none
      → s.queue ≡ session p ∷ queue
      → Step s (switch_to p (session p) queue s)
  sends : (s : System) (p : ℕ) → s.current ≡ some p → s.status p ≡ running → Step s (send_talks p s)
  swaps : (s : System) (p : ℕ) → s.current ≡ some p → s.status p ≡ sending → Step s (swap_out p s)
  finishes : (s : System) (p : ℕ) → s.current ≡ some p → s.status p ≡ running → Step s (finish p s)
  answers :
      (s : System) (before : List ℕ) (p : ℕ) (after : List ℕ)
      → s.sent ≡ before ++ p ∷ after
      → Step s (send_back before p after s)

pub data Reach : System → Type 0 where
  begin : Reach initial
  next : {s t : System} → Reach s → Step s t → Reach t
