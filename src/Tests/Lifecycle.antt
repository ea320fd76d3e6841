-- ===== src/Tests/Lifecycle.antt =====
-- One agent, one scheduler and the master are started and stopped.
use magneto.Base.{ℕ, suc, ◌≡◌, refl, true, false, [], ◌∷◌, none, some, arith, length}
use magneto.Lifecycle.{
  read_req, listen, created, joined, freed_read, freed_ctx, deleted_ctx, Trace, Threads, Thread,
  MagnetoBase, start, stop, delete,
}
use magneto.Lifecycle.Joining.{creations, joins}
use magneto.Lifecycle.Stopping.{stop-Joined}

abbrev none_yet : Thread
none_yet = record { tid = 0; ending = false }

abbrev with_tid : ℕ → Thread
with_tid k = record { tid = k; ending = false }

-- Threads are numbered by the calls before; an agent ends with an unfinished request.
abbrev sys : Threads
sys = record {
  create = λ t. some (suc (length t));
  slot = λ t. 0;
  work = λ t contexts. read_req (some 40) ∷ contexts;
}

abbrev base : ℕ → ℕ → ℕ → MagnetoBase
base i j k = record {
  agents = record {
    agent_master = some (record { thread = with_tid i; contexts = listen ∷ [] });
    agent_slaves = record { thread = with_tid j; contexts = [] } ∷ [];
  };
  schedulers = record { schedulers_req = with_tid k ∷ []; schedulers_routine = [] };
}

begun : start sys (base 0 0 0) [] ≡ some (true, base 2 1 3, created 3 ∷ created 2 ∷ created 1 ∷ [])
unfolding start
begun = refl

stop-Joined_example :
    (b : MagnetoBase) × (t : Trace) × (stop sys
        (base 2 1 3)
        (created 3 ∷ created 2 ∷ created 1 ∷ [])
      ≡ some (b, t))
    × (creations 3 t ≡ joins 3 t)
    × (delete sys (base 2 1 3) (created 3 ∷ created 2 ∷ created 1 ∷ []) ≡ some t)
    × (delete sys b t ≡ some t)
stop-Joined_example =
    stop-Joined sys 3 (base 0 0 0) (base 2 1 3) (created 3 ∷ created 2 ∷ created 1 ∷ [])
      (omega arith) refl begun

-- The agents stop before the schedulers, and a codec is given back once.
ended :
    delete sys (base 2 1 3) []
    ≡ some (
        joined 3
        ∷ freed_ctx (read_req (some 40))
        ∷ freed_read 40
        ∷ joined 1
        ∷ deleted_ctx listen
        ∷ deleted_ctx (read_req (some 40))
        ∷ joined 2
        ∷ [])
unfolding delete
ended = refl

-- pthread_create fails and leaves 7 in the slot, which Stop then joins.
abbrev failing : Threads
failing = record { create = λ t. none; slot = λ t. 7; work = λ t contexts. contexts }

joined_unborn :
    (start failing (base 0 0 0) [] ≡ some (false, base 0 7 0, []))
    × (delete failing (base 0 7 0) [] ≡ some (joined 7 ∷ deleted_ctx listen ∷ []))
unfolding start delete
joined_unborn = (refl, refl)
