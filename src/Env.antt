-- ===== src/Env.antt =====
-- What the program calls and does not implement: the clock, sockets, epoll, `rand_r`, the codec
-- objects behind their virtual functions. The answers may depend on all calls made before, which
-- the trace holds, latest first; closing a descriptor and registering it are seen there too.
use magneto.Base.{ℕ, Bool, List, ◌∷◌, ℤ}
use magneto.Model.{Remote, Category}

-- `Driver::Op` and `Driver::Event`.
pub data Op : Type 0 where
  add_event mod_event : Op

pub data Event : Type 0 where
  ev_in ev_out ev_err ev_other : Event

pub data Effect : Type 0 where
  clock : Effect
  drew : Effect
  checked : ℤ → Effect
  connected : ℤ → Effect
  closed : ℤ → Effect
  registered : ℤ → Op → Event → ℤ → Effect
  unregistered : ℤ → Effect
  encoded : Effect
  took_write : Category → Effect
  freed_write : Category → Effect
  took_read : Category → Effect
  freed_read : Category → Effect
  took_ctx : ℤ → ℕ → ℤ → Effect
  freed_ctx : ℤ → Effect
  codec_reset : Effect
  codec_io : Effect
  decoded : Effect
  sent : Effect

abbrev pub Trace : Type 0
Trace = List Effect

pub record Env : Type 0 where
  -- Time::GetCurrentMsec and Time::GetCurrentSec
  pub now_ms : Trace → ℤ
  pub now_sec : Trace → ℤ
  pub rand_r : Trace → ℕ
  -- the capacity that a vector of one capacity has when it has grown to hold so many elements
  pub grown : ℕ → ℕ → ℕ
  -- IOHelper::CheckConn and IOHelper::Connect
  pub check_conn : Trace → ℤ → Bool
  pub connect : Trace → Remote → ℤ × Bool
  -- EventsDriver::RegEvent
  pub reg_event : Trace → ℤ → Op → Event → ℤ → Bool
  -- ProtocolWrite::Encode after Reset, ProtocolWrite::Write, ProtocolRead::Read and Decode
  pub encode : Trace → Category → List ℕ → Bool
  pub write : Trace → Category → ℤ → ℤ
  pub read : Trace → Category → ℤ → ℤ
  pub decode : Trace → Category → Bool
  -- Schedulers::SendToOneWorker, on the client's descriptor
  pub send_to_worker : Trace → ℤ → Bool

-- A descriptor that was handed to `close`, counted once for each call.
abbrev pub close : ℤ → Trace → Trace
close fd t = closed fd ∷ t
