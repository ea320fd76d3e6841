-- ===== src/Lifecycle/Joining.antt =====
-- The account of threads: those that were created are joined or still held.
use magneto.Base.{
  ℕ, ◌+◌, ◌==◌, ◌≡◌, ◌≢◌, refl, ◌∙◌, Bool, true, if◌then◌else◌, Bool-cases, Option-cases, inl, inr,
  List, [], ◌∷◌, none, some, arith,
}
use magneto.Lifecycle.{
  Context, read_req, created, joined, deleted_ctx, Trace, Threads, Thread, create_thread,
  join_thread, scheduler_start, scheduler_stop, Agent, agent_start, remaining, free_contexts,
  agent_slave_stop, delete_contexts, agent_master_stop, start_all, stop_all,
}

-- How often the thread `k` was created, and how often it was joined.
abbrev pub creations : ℕ → Trace → ℕ
creations k [] = 0
creations k (created j ∷ t) = (if j == k then 1 else 0) + creations k t
creations k (_ ∷ t) = creations k t

abbrev pub joins : ℕ → Trace → ℕ
joins k [] = 0
joins k (joined j ∷ t) = (if j == k then 1 else 0) + joins k t
joins k (_ ∷ t) = joins k t

-- All creations are joined, but for `n`.
abbrev pub Owed : ℕ → ℕ → Trace → Type 0
Owed k n t = creations k t ≡ joins k t + n

abbrev pub held_by : ℕ → Thread → ℕ
held_by k th = if th.tid == k then 1 else 0

-- What Start and Stop of an object promise: it holds the thread that it has created and gives it
-- up when it joins it; once stopped, it does nothing more.
pub record Startable {A : Type 0} (start : A → Trace → Bool × A × Trace)
    (stop : A → Trace → A × Trace) (held : ℕ → A → ℕ) (Stopped : A → Type 0) : Type 0 where
  pub start_owes :
      (k : ℕ) (a : A) (t : Trace) (n : ℕ)
      → held k a ≡ 0
      → (start a t).0 ≡ true
      → Owed k n t
      → Owed k (n + held k (start a t).1) (start a t).2
  pub stop_pays :
      (k : ℕ) (a : A) (t : Trace) (n : ℕ) → k ≢ 0 → Owed k (n + held k a) t → Owed k n (stop a t).1
  pub stop_stops : (a : A) (t : Trace) → Stopped (stop a t).0
  pub stays : (a : A) (t : Trace) → Stopped a → (stop a t).1 ≡ t

create_thread-Owed :
    (sys : Threads) (k : ℕ) (th : Thread) (t : Trace) (n : ℕ)
    → held_by k th ≡ 0
    → (create_thread sys th t).0 ≡ true
    → Owed k n t
    → Owed k (n + held_by k (create_thread sys th t).1) (create_thread sys th t).2
unfolding create_thread
create_thread-Owed sys k th t n fresh good h = elim (Option-cases (sys.create t)) [
  | inl failed ↦ absurd (ground arith)
  | inr (j, made) ↦ ground arith
]

join_thread-Owed :
    (k : ℕ) (th : Thread) (t : Trace) (n : ℕ)
    → k ≢ 0
    → Owed k (n + held_by k th) t
    → Owed k n (join_thread th t).1
unfolding join_thread
join_thread-Owed k th t n real h = ground arith

free_contexts-counts :
    (k : ℕ) (contexts : List Context) (t : Trace)
    → (creations k (free_contexts contexts t) ≡ creations k t)
      × (joins k (free_contexts contexts t) ≡ joins k t)
unfolding free_contexts
free_contexts-counts k [] t = (refl, refl)
free_contexts-counts k (read_req (some p) ∷ contexts) t = free_contexts-counts k contexts _
free_contexts-counts k (read_req none ∷ contexts) t = free_contexts-counts k contexts _
free_contexts-counts k (ctx ∷ contexts) t = free_contexts-counts k contexts _

delete_contexts-counts :
    (k : ℕ) (contexts : List Context) (t : Trace)
    → (creations k (delete_contexts contexts t) ≡ creations k t)
      × (joins k (delete_contexts contexts t) ≡ joins k t)
unfolding delete_contexts
delete_contexts-counts k [] t = (refl, refl)
delete_contexts-counts k (ctx ∷ contexts) t =
    delete_contexts-counts k contexts (deleted_ctx ctx ∷ t)

join_thread-tid : (th : Thread) (t : Trace) → (join_thread th t).0.tid ≡ 0
unfolding join_thread
join_thread-tid th t = ground arith

join_thread-none : (th : Thread) (t : Trace) → th.tid ≡ 0 → (join_thread th t).1 ≡ t
unfolding join_thread
join_thread-none th t h = ground arith

pub scheduler-Startable :
    (sys : Threads)
    → Startable (scheduler_start sys) (scheduler_stop sys) held_by (λ th. th.tid ≡ 0)
unfolding scheduler_start scheduler_stop
scheduler-Startable sys = record {
  start_owes = create_thread-Owed sys;
  stop_pays = join_thread-Owed;
  stop_stops = λ th t. join_thread-tid th t;
  stays = λ th t stopped. join_thread-none th t stopped;
}

abbrev pub held_by_agent : ℕ → Agent → ℕ
held_by_agent k a = held_by k a.thread

abbrev pub AgentStopped : Agent → Type 0
AgentStopped a = (a.thread.tid ≡ 0) × (a.contexts ≡ [])

remaining-Stopped :
    (sys : Threads) (a : Agent) (t : Trace) → AgentStopped a → remaining sys a t ≡ []
remaining-Stopped sys a t (no_thread, empty) = ground arith

agent_start-Owed :
    (sys : Threads) (k : ℕ) (a : Agent) (t : Trace) (n : ℕ)
    → held_by_agent k a ≡ 0
    → (agent_start sys a t).0 ≡ true
    → Owed k n t
    → Owed k (n + held_by_agent k (agent_start sys a t).1) (agent_start sys a t).2
unfolding agent_start
agent_start-Owed sys k a t n fresh good h = create_thread-Owed sys k a.thread t n fresh good h

pub agent_slave-Startable :
    (sys : Threads) → Startable (agent_start sys) (agent_slave_stop sys) held_by_agent AgentStopped
unfolding agent_slave_stop
agent_slave-Startable sys = record {
  start_owes = agent_start-Owed sys;
  stop_pays = λ k a t n real h.
      let (same, same') = free_contexts-counts k (remaining sys a t) (join_thread a.thread t).1 in
      omega (arith, join_thread-Owed k a.thread t n real h);
  stop_stops = λ a t. (join_thread-tid a.thread t, refl);
  stays = λ a t stopped.
      rw (remaining-Stopped sys a t stopped, free_contexts) (join_thread-none a.thread t stopped.0);
}

pub agent_master-Startable :
    (sys : Threads) → Startable (agent_start sys) (agent_master_stop sys) held_by_agent AgentStopped
unfolding agent_master_stop
agent_master-Startable sys = record {
  start_owes = agent_start-Owed sys;
  stop_pays = λ k a t n real h.
      let (same, same') = delete_contexts-counts k (remaining sys a t) (join_thread a.thread t).1 in
      omega (arith, join_thread-Owed k a.thread t n real h);
  stop_stops = λ a t. (join_thread-tid a.thread t, refl);
  stays = λ a t stopped.
      rw (remaining-Stopped sys a t stopped, delete_contexts)
        (join_thread-none a.thread t stopped.0);
}

abbrev pub sum_held : {A : Type 0} → (A → ℕ) → List A → ℕ
sum_held held [] = 0
sum_held held (x ∷ xs) = held x + sum_held held xs

abbrev pub All : {A : Type 0} → (A → Type 0) → List A → Type 0
All P [] = Unit
All P (x ∷ xs) = P x × All P xs

module _ {A : Type 0} {start : A → Trace → Bool × A × Trace} {stop : A → Trace → A × Trace}
    {held : ℕ → A → ℕ} {Stopped : A → Type 0} (laws : Startable start stop held Stopped) where
  pub start_all-Owed :
      (k : ℕ) (xs : List A) (t : Trace) (n : ℕ)
      → sum_held (held k) xs ≡ 0
      → (start_all start xs t).0 ≡ true
      → Owed k n t
      → Owed k (n + sum_held (held k) (start_all start xs t).1) (start_all start xs t).2
  unfolding start_all
  start_all-Owed k [] t n fresh good h = omega arith
  start_all-Owed k (x ∷ xs) t n fresh good h = elim (Bool-cases (start x t).0) [
    | inr failed ↦ absurd (ground arith)
    | inl begun ↦
        let first = laws.start_owes k x t n (omega arith) begun h in
        let rest =
          start_all-Owed k xs (start x t).2 (n + held k (start x t).1) (omega arith) (ground arith)
            first in
        rw begun (omega (arith, rest))
  ]

  pub stop_all-Owed :
      (k : ℕ) (xs : List A) (t : Trace) (n : ℕ)
      → k ≢ 0
      → Owed k (n + sum_held (held k) xs) t
      → Owed k n (stop_all stop xs t).1
  unfolding stop_all
  stop_all-Owed k [] t n real h = omega arith
  stop_all-Owed k (x ∷ xs) t n real h =
      stop_all-Owed k xs (stop x t).1 n real
        (laws.stop_pays k x t (n + sum_held (held k) xs) real (omega arith))

  pub stop_all-All : (xs : List A) (t : Trace) → All Stopped (stop_all stop xs t).0
  unfolding stop_all
  stop_all-All [] t = tt
  stop_all-All (x ∷ xs) t = (laws.stop_stops x t, stop_all-All xs (stop x t).1)

  pub stop_all-stays : (xs : List A) (t : Trace) → All Stopped xs → (stop_all stop xs t).1 ≡ t
  unfolding stop_all
  stop_all-stays [] t h = refl
  stop_all-stays (x ∷ xs) t (h, hs) = stop_all-stays xs (stop x t).1 hs ∙ laws.stays x t h
