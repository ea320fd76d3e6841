-- ===== src/Model/Assign.antt =====
-- src/details/model.cpp: Talk::Assign, and what a talk is when it returns.
use magneto.Base.{
  ℕ, Bool, true, false, if◌then◌else◌, List, [], ◌∷◌, Option, none, some, ℤ, negsuc, ◌+ℤ◌,
}
use magneto.Model.{
  Talk, TalkCategory, write_only, read_only, write_and_read, kstart, kread, kwrite, kend, kok,
  bad_encode, Category, Service, RemotePtr,
}
use magneto.Env.{Env, Trace, clock, encoded, took_write, freed_write, took_read}

abbrev retries : Option Service → ℕ
retries none = 0
retries (some s) = s.retry

-- The fields set above the test of the buffer.
abbrev pub start_talk :
    ℕ → TalkCategory → Option Service → Option (List ℕ) → ℤ → ℤ → ℤ → Option RemotePtr → Talk
start_talk no_talk category service buf now timeo_ms fd remote = record {
  no_talk = no_talk;
  category = category;
  service = service;
  buf = buf;
  protocol_write = none;
  protocol_read = none;
  starttime_ms = now;
  endtime_ms = now +ℤ timeo_ms;
  status = kstart;
  error = kok;
  fail_remotes = [];
  retry = retries service;
  fd = fd;
  remote = remote;
}

-- The cases of the switch that write, from the trace in which the codec was taken and reset. A
-- codec whose `Encode` fails is given back to its pool, and stays in `protocol_write`.
abbrev pub with_writer : Env → Trace → Category → List ℕ → Bool → Talk → Talk × Trace
with_writer env t pc bytes reads talk =
    if env.encode t pc bytes
    then (
      record talk {
        protocol_write = some pc;
        protocol_read = if reads then some pc else none;
        status = kwrite;
      },
      if reads then took_read pc ∷ encoded ∷ t else encoded ∷ t,
    )
    else (
      record talk { protocol_write = some pc; fd = negsuc 0; error = bad_encode },
      freed_write pc ∷ encoded ∷ t,
    )

-- The switch over the category.
abbrev pub by_category : Env → Trace → TalkCategory → Category → List ℕ → Talk → Talk × Trace
by_category env t write_and_read pc bytes talk =
    with_writer env (took_write pc ∷ t) pc bytes true talk
by_category env t write_only pc bytes talk = with_writer env (took_write pc ∷ t) pc bytes false talk
by_category env t read_only pc bytes talk =
    (record talk { protocol_read = some pc; status = kread }, took_read pc ∷ t)

unfoldable pub assign :
    Env
    → Trace
    → ℕ
    → TalkCategory
    → Option Service
    → Category
    → Option (List ℕ)
    → ℤ
    → ℤ
    → Option RemotePtr
    → Talk × Trace
assign env t no_talk category service pc buf timeo_ms fd remote =
    let talk = start_talk no_talk category service buf (env.now_ms t) timeo_ms fd remote in
    elim buf [
      | none ↦ (record talk { status = kend }, clock ∷ t)
      | some bytes ↦ by_category env (clock ∷ t) category pc bytes talk
    ]
