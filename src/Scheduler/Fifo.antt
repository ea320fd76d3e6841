-- ===== src/Scheduler/Fifo.antt =====
-- Scheduler::Process_: an agent's messages are one queue, the mailbox behind the tasks that wait.
use magneto.Base.{
  true, false, if◌then◌else◌, ℕ, zero, suc, ◌≡◌, refl, sym, ap, ◌∙◌, Bool-cases, inl, inr, List, [],
  ◌∷◌, ◌++◌, append_assoc, append-nil, map, take, drop,
}
use magneto.Scheduler.{
  Msg, config, read_req, new_req, session, destruct, Run, Threads, Scheduler, receive, switch_to,
  run_task, run_tasks, process, k_max_task_processed_one_time,
}

abbrev pub tasks : List Run → List Msg
tasks runs = map (λ r. r.task) runs

abbrev pub pending : Scheduler → List Msg
pending s = s.task_queue ++ s.mailbox

-- The tasks that were run and the ones that wait, in their order.
abbrev pub history : Scheduler → List Msg
history s = tasks s.runs ++ pending s

receive-append : (mails queue : List Msg) → receive mails queue ≡ queue ++ mails
unfolding receive
receive-append [] queue = sym (append-nil queue)
receive-append (m ∷ mails) queue =
    receive-append mails (queue ++ m ∷ []) ∙ append_assoc queue (m ∷ []) mails

-- The messages that come while the tasks `rs` are run, when `before` were run already: those that are
-- sent during a coroutine.
abbrev pub arrived : Threads → List Run → List Run → List Msg
arrived th before [] = []
arrived th before (r ∷ rs) =
    (if r.done then th.arrivals before else []) ++ arrived th (before ++ r ∷ []) rs

-- One task was run, and the messages of its coroutine came.
abbrev Ran : Threads → Msg → Scheduler → Scheduler → Type 0
Ran th m s s' =
    (r : Run) × (r.task ≡ m)
    × (s'.runs ≡ s.runs ++ r ∷ [])
    × (s'.mailbox ≡ s.mailbox ++ (if r.done then th.arrivals s.runs else []))

switch_to-Ran :
    (th : Threads) (m : Msg) (this ctx : ℕ) (s : Scheduler) → Ran th m s (switch_to th m this ctx s)
unfolding switch_to
switch_to-Ran th m this ctx s = elim (Bool-cases (th.has_slot s.runs)) [
  | inr none_left ↦
      rw none_left (record { task = m; done = false }, refl, refl, sym (append-nil s.mailbox))
  | inl slot ↦ elim (Bool-cases (th.swap s.runs ctx)) [
    | inl done ↦ rw (slot, done) (record { task = m; done = true }, refl, refl, refl)
    | inr failed ↦
        rw (slot, failed)
          (record { task = m; done = false }, refl, refl, sym (append-nil s.mailbox))
  ]
]

run_task-Ran : (th : Threads) (m : Msg) (s : Scheduler) → Ran th m s (run_task th m s)
unfolding run_task
run_task-Ran th (new_req m) s = switch_to-Ran th (new_req m) _ _ _
run_task-Ran th (session m) s = switch_to-Ran th (session m) _ _ _
run_task-Ran th config s =
    (record { task = config; done = false }, refl, refl, sym (append-nil s.mailbox))
run_task-Ran th (read_req m) s =
    (record { task = read_req m; done = false }, refl, refl, sym (append-nil s.mailbox))
run_task-Ran th (destruct m) s =
    (record { task = destruct m; done = false }, refl, refl, sym (append-nil s.mailbox))

-- `n` tasks of `ms` were run, the others wait, and the messages of the coroutines came.
abbrev RanSome : Threads → ℕ → List Msg → Scheduler → Scheduler → Type 0
RanSome th n ms s s' =
    (rs : List Run) × (tasks rs ≡ take n ms)
    × (s'.runs ≡ s.runs ++ rs)
    × (s'.task_queue ≡ drop n ms)
    × (s'.mailbox ≡ s.mailbox ++ arrived th s.runs rs)

run_tasks-RanSome :
    (th : Threads) (n : ℕ) (ms : List Msg) (s : Scheduler) → RanSome th n ms s (run_tasks th n ms s)
unfolding run_tasks
run_tasks-RanSome th zero ms s =
    ([], refl, sym (append-nil s.runs), refl, sym (append-nil s.mailbox))
run_tasks-RanSome th (suc n) [] s =
    ([], refl, sym (append-nil s.runs), refl, sym (append-nil s.mailbox))
run_tasks-RanSome th (suc n) (m ∷ ms) s =
    let (r, same, ran, came) = run_task-Ran th m s in
    let (rs, sames, rans, waits, comes) = run_tasks-RanSome th n ms (run_task th m s) in
    let now = if r.done then th.arrivals s.runs else [] in
    (
      r ∷ rs,
      cc (same, sames),
      rans ∙ ap (λ xs. xs ++ rs) ran ∙ append_assoc s.runs (r ∷ []) rs,
      waits,
      comes
          ∙ ap (λ xs. (run_task th m s).mailbox ++ arrived th xs rs) ran
          ∙ ap (λ xs. xs ++ arrived th (s.runs ++ r ∷ []) rs) came
          ∙ append_assoc s.mailbox now (arrived th (s.runs ++ r ∷ []) rs),
    )

-- A call of Process_ runs the first hundred of the pending tasks, or all if there are fewer, in
-- their order; the others keep theirs, before the messages that came from the coroutines meanwhile.
pub process-Fifo :
    (th : Threads) (s : Scheduler)
    → (rs : List Run) × (tasks rs ≡ take k_max_task_processed_one_time (pending s))
      × ((process th s).runs ≡ s.runs ++ rs)
      × (pending (process th s)
          ≡ drop k_max_task_processed_one_time (pending s) ++ arrived th s.runs rs)
unfolding process
process-Fifo th s =
    let out =
      λ (q : List Msg). run_tasks th k_max_task_processed_one_time q (record s { mailbox = [] }) in
    let all = ap out (receive-append s.mailbox s.task_queue) in
    let (rs, same, ran, waits, came) =
      run_tasks-RanSome th k_max_task_processed_one_time (pending s) (record s { mailbox = [] }) in
    (
      rs,
      same,
      ap (λ o. o.runs) all ∙ ran,
      ap pending all
          ∙ ap (λ q. q ++ (out (pending s)).mailbox) waits
          ∙ ap (λ q. drop k_max_task_processed_one_time (pending s) ++ q) came,
    )

-- The messages of a number of rounds, in their order, when the tasks `rs` are run in them: in each
-- those that other threads have sent before it, and those of its coroutines.
abbrev pub Came : Threads → List (List Msg) → List Run → List Run → List Msg → Type 0
Came th [] before rs news = (rs ≡ []) × (news ≡ [])
Came th (ms ∷ mss) before rs news =
    (rs1 rs2 : List Run) × (later : List Msg) × (rs ≡ rs1 ++ rs2)
    × (news ≡ ms ++ (arrived th before rs1 ++ later))
    × Came th mss (before ++ rs1) rs2 later
