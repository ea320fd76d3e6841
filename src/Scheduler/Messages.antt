-- ===== src/Scheduler/Messages.antt =====
-- src/schedulers/details/scheduler.cpp, Process_, and Msg::Copy of src/msg.h: the objects that hold
-- the messages. An object has the class that it was made with, and a field `category` by which the
-- code casts it; `none` is a cast to a class that the object does not have, or a null pointer.
pub mod Casts
use magneto.Base.{
  ℕ, zero, suc, Bool, true, false, if◌then◌else◌, List, [], ◌∷◌, ◌++◌, Option, none, some, ◌>>=◌,
}
use magneto.Slave.Clients.{MsgReadReq, MsgNewReq, MsgDestruct}
use magneto.Scheduler.{MsgSession, k_max_task_processed_one_time}

-- Msg::Category.
pub data Category : Type 0 where
  kinvalid kconfig kread_req knew_req ksession kdestruct : Category

abbrev pub eqb : Category → Category → Bool
eqb kinvalid kinvalid = true
eqb kconfig kconfig = true
eqb kread_req kread_req = true
eqb knew_req knew_req = true
eqb ksession ksession = true
eqb kdestruct kdestruct = true
eqb _ _ = false

-- An object by its class, with its fields if they were set.
pub data Body : Type 0 where
  plain : Body
  config_body : Body
  read_req_body : (fields : Option MsgReadReq) → Body
  new_req_body : (fields : Option MsgNewReq) → Body
  session_body : (fields : Option MsgSession) → Body
  destruct_body : (fields : Option MsgDestruct) → Body

pub record Object : Type 0 where
  pub category : Category
  pub body : Body

-- What a `new` of a class gives.
abbrev pub new_plain : Object
new_plain = record { category = kinvalid; body = plain }

-- The switch of Process_ over the category of a message.
unfoldable pub new_object : Category → Option Object
new_object kinvalid = none
new_object kconfig = some (record { category = kconfig; body = config_body })
new_object kread_req = some (record { category = kread_req; body = read_req_body none })
new_object knew_req = some (record { category = knew_req; body = new_req_body none })
new_object ksession = some (record { category = ksession; body = session_body none })
new_object kdestruct = some (record { category = kdestruct; body = destruct_body none })

-- The assignment of Copy, both sides cast to the class of the category.
abbrev pub assign_as : Category → Body → Body → Option Body
assign_as kinvalid this msg = some this
assign_as kconfig config_body config_body = some config_body
assign_as kread_req (read_req_body _) (read_req_body m) = some (read_req_body m)
assign_as knew_req (new_req_body _) (new_req_body m) = some (new_req_body m)
assign_as ksession (session_body _) (session_body m) = some (session_body m)
assign_as kdestruct (destruct_body _) (destruct_body m) = some (destruct_body m)
assign_as _ _ _ = none

-- Msg::Copy; the assignment copies the category, too.
unfoldable pub copy : Object → Object → Option Object
copy this msg = elim (assign_as this.category this.body msg.body) [
  | none ↦ none
  | some body ↦ some (record this { body = body })
]

-- The pools, one for each category, of the objects that were freed to them.
abbrev pub Pools : Type 0
Pools = Category → List Object

abbrev pub update : Category → List Object → Pools → Pools
update c objects pools c' = if eqb c c' then objects else pools c'

-- The `i`-th of the freed objects and the others; with none there the pool makes a Msg.
unfoldable pub get : List Object → ℕ → Object × List Object
get [] i = (new_plain, [])
get (o ∷ objects) zero = (o, objects)
get (o ∷ objects) (suc i) = let (o', rest) = get objects i in (o', o ∷ rest)

-- The first loop of Process_ for one message; `pick` tells which object the pool gives.
unfoldable pub take_in : (Pools → ℕ) → Object → Pools → Option (Object × Pools)
unfolding get new_object copy
take_in pick cur_msg pools = do
  let (o, rest) = get (pools cur_msg.category) (pick pools)
  new_msg ← if eqb cur_msg.category o.category then some o else new_object cur_msg.category
  copied ← copy new_msg cur_msg
  some (copied, update cur_msg.category rest pools)

unfoldable pub take_all :
    (Pools → ℕ) → List Object → List Object → Pools → Option (List Object × Pools)
unfolding take_in
take_all pick [] tasks pools = some (tasks, pools)
take_all pick (m ∷ mails) tasks pools = elim (take_in pick m pools) [
  | none ↦ none
  | some (o, pools') ↦ take_all pick mails (tasks ++ o ∷ []) pools'
]

-- What the second loop of Process_ does with a task: of another category it is reported as a bug.
pub data Task : Type 0 where
  resumes : MsgSession → Task
  starts : MsgNewReq → Task
  bug : Task

-- The casts by the category of a task.
abbrev pub read_as : Category → Body → Option Task
read_as ksession (session_body (some m)) = some (resumes m)
read_as ksession _ = none
read_as knew_req (new_req_body (some m)) = some (starts m)
read_as knew_req _ = none
read_as _ _ = some bug

-- The second loop of Process_: `n` tasks are read, and freed to the pool of their category.
unfoldable pub work_off : ℕ → List Object → Pools → Option (List Task × List Object × Pools)
work_off zero tasks pools = some ([], tasks, pools)
work_off (suc n) [] pools = some ([], [], pools)
work_off (suc n) (o ∷ tasks) pools = elim (read_as o.category o.body) [
  | none ↦ none
  | some task ↦ elim (work_off n tasks (update o.category (o ∷ pools o.category) pools)) [
    | none ↦ none
    | some (done, tasks', pools') ↦ some (task ∷ done, tasks', pools')
  ]
]

-- Calls of Process_, each with the messages that have come before it.
unfoldable pub rounds :
    (Pools → ℕ)
    → List (List Object)
    → List Object
    → Pools
    → Option (List Task × List Object × Pools)
unfolding take_all work_off
rounds pick [] tasks pools = some ([], tasks, pools)
rounds pick (mails ∷ rest) tasks pools = do
  received ← take_all pick mails tasks pools
  worked ← work_off k_max_task_processed_one_time received.0 received.1
  others ← rounds pick rest worked.1 worked.2
  some (worked.0 ++ others.0, others.1, others.2)
