-- ===== src/Facade.antt =====
-- src/magneto_base.h, to which src/magneto.h passes every call on: what a handler calls, by the
-- names of services and of sets of services. The thread's slot for the procedure that runs is
-- `current`. `none` is the dereference of a null pointer or an index out of range.
pub mod Handed
pub mod Sets
use magneto.Base.{ℕ, ◌>>=◌, List, [], ◌∷◌, Option, none, some, ℤ}
use magneto.Model.{
  Talk, TalkCategory, write_only, read_only, write_and_read, Service, Error, not_found,
}
use magneto.Env.{Env, Trace}
use magneto.Conf.{ConfServices, get_service, get_services_set}
use magneto.Biz.{BizProcedure, Exchange, Finished, io_set, io_one}
use magneto.Biz

-- What a call returns: its error, the talks, the slot.
abbrev pub Answer : Type 0
Answer = Option (Error × List Talk × Option BizProcedure × Trace)

abbrev pub in_slot : Finished → Answer
in_slot none = none
in_slot (some (error, talks, biz, t)) = some (error, talks, some biz, t)

-- `bufs[i]` for each service of a set.
unfoldable pub with_bufs :
    List Service → List (Option (List ℕ)) → Option (List (Service × Option (List ℕ)))
with_bufs [] bufs = some []
with_bufs (s ∷ set) [] = none
with_bufs (s ∷ set) (buf ∷ bufs) = do rest ← with_bufs set bufs; some ((s, buf) ∷ rest)

abbrev pub without_bufs : List Service → List (Service × Option (List ℕ))
without_bufs [] = []
without_bufs (s ∷ set) = (s, none) ∷ without_bufs set

module _ (env : Env) (ex : Exchange) (t : Trace) (conf : ConfServices)
    (current : Option BizProcedure) where
  -- The answer when a name is not found: nothing has happened.
  abbrev pub unknown_name : Answer
  unknown_name = some (not_found, [], current, t)

  -- MagnetoBase::Write, Read and Talks on a set of services; `errors` is the size of the vector that
  -- Write is given.
  unfoldable pub write_set : List ℕ → List (Option (List ℕ)) → ℤ → (errors : ℕ) → Answer
  unfolding get_services_set with_bufs io_set
  write_set services_set bufs timeo_ms errors = elim (get_services_set conf services_set) [
    | none ↦ unknown_name
    | some set ↦ do
      biz ← current
      items ← with_bufs set bufs
      in_slot (io_set env ex t write_only (some errors) items timeo_ms biz)
  ]

  unfoldable pub read_set : List ℕ → ℤ → Answer
  unfolding get_services_set io_set
  read_set services_set timeo_ms = elim (get_services_set conf services_set) [
    | none ↦ unknown_name
    | some set ↦ do
      biz ← current
      in_slot (io_set env ex t read_only none (without_bufs set) timeo_ms biz)
  ]

  unfoldable pub talks_set : List ℕ → List (Option (List ℕ)) → ℤ → Answer
  unfolding get_services_set with_bufs io_set
  talks_set services_set bufs timeo_ms = elim (get_services_set conf services_set) [
    | none ↦ unknown_name
    | some set ↦ do
      biz ← current
      items ← with_bufs set bufs
      in_slot (io_set env ex t write_and_read none items timeo_ms biz)
  ]

  -- MagnetoBase::Write, Read and SimpleTalk on one service.
  unfoldable pub write_one : List ℕ → List ℕ → ℤ → Answer
  unfolding get_service io_one
  write_one service buf timeo_ms = elim (get_service conf service) [
    | none ↦ unknown_name
    | some s ↦ do biz ← current; in_slot (io_one env ex t write_only s (some buf) timeo_ms biz)
  ]

  unfoldable pub read_one : List ℕ → ℤ → Answer
  unfolding get_service io_one
  read_one service timeo_ms = elim (get_service conf service) [
    | none ↦ unknown_name
    | some s ↦ do biz ← current; in_slot (io_one env ex t read_only s none timeo_ms biz)
  ]

  unfoldable pub simple_talk : List ℕ → List ℕ → ℤ → Answer
  unfolding get_service io_one
  simple_talk service buf timeo_ms = elim (get_service conf service) [
    | none ↦ unknown_name
    | some s ↦ do biz ← current; in_slot (io_one env ex t write_and_read s (some buf) timeo_ms biz)
  ]

  -- MagnetoBase::WriteBack and FreeTalks, which need no name.
  unfoldable pub write_back : List ℕ → ℤ → Answer
  unfolding Biz.write_back
  write_back buf timeo_ms = do
    biz ← current
    let (error, biz', t') = Biz.write_back env ex t buf timeo_ms biz
    some (error, [], some biz', t')

module _ (t : Trace) (current : Option BizProcedure) where
  unfoldable pub free_talks : Option (BizProcedure × Trace)
  unfolding Biz.free_talks
  free_talks = do
    biz ← current
    some (record biz { tmp_pool_talks = [] }, Biz.free_talks t biz.tmp_pool_talks)
