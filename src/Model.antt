-- ===== src/Model.antt =====
-- src/model.h, src/error_no.h and the categories of src/protocols/protocol.h: remotes, services
-- and talks. `Talk.remote` is a pointer in the source, and the slot it points to matters: see
-- `RemotePtr`.
pub mod Assign
use magneto.Base.{
  if◌then◌else◌, ℕ, ◌==◌, Bool, true, false, ◌&&◌, ◌||◌, ◌≡◌, List, [], ◌∷◌, Option, none, some, ℤ,
  pos, negsuc, get_elem?,
}

-- `ErrorNo`.
pub data Error : Type 0 where
  kok partial timeout io broken bad_encode bad_decode swap_ctx queue_busy not_found other : Error

abbrev pub error_no : Error → ℤ
error_no kok = pos 0
error_no partial = negsuc 0
error_no timeout = negsuc 1
error_no io = negsuc 2
error_no broken = negsuc 3
error_no bad_encode = negsuc 4
error_no bad_decode = negsuc 5
error_no swap_ctx = negsuc 6
error_no queue_busy = negsuc 7
error_no not_found = negsuc 8
error_no other = negsuc 99

abbrev pub is_ok : Error → Bool
is_ok kok = true
is_ok _ = false

-- `Protocol::Category` of a build without thrift support, the default one.
pub data Category : Type 0 where
  rapid ping redis http invalid : Category

pub record Remote : Type 0 where
  pub ip : ℕ
  pub port : ℕ
  pub weight : ℕ
  pub long_conns : ℕ
  pub ctimeo_ms : ℤ
  pub rtimeo_ms : ℤ
  pub wtimeo_ms : ℤ

-- `Remote::EqRemote`: the address alone.
abbrev pub eq_remote : Remote → Remote → Bool
eq_remote a b = a.ip == b.ip && a.port == b.port

-- `ServiceStrategy::Type`.
pub data Strategy : Type 0 where
  normal weighted unknown : Strategy

pub record Service : Type 0 where
  pub no : ℕ
  pub name : List ℕ
  pub protocol_category : Category
  pub service_strategy : Strategy
  pub remotes : List Remote
  pub weight_all : ℕ
  pub retry : ℕ

-- What a `const Remote*` points to: a slot of the vector of a service, which does not change, or
-- a slot of `ConnsMgr::tmp_remotes_`, which every weighted selection refills. That vector is told by
-- the number of its storage, which a growth beyond its capacity replaces.
pub data RemotePtr : Type 0 where
  in_service : Service → ℕ → RemotePtr
  in_tmp : (storage index : ℕ) → RemotePtr

-- `ConnsMgr::tmp_remotes_`.
pub record Vector : Type 0 where
  pub storage : ℕ
  pub capacity : ℕ
  pub items : List Remote

-- What the pointer designates while `tmp_remotes_` is `tmp`; `none` is outside of the vector, or in a
-- storage that the vector has given up.
abbrev pub deref : Vector → RemotePtr → Option Remote
deref tmp (in_service s i) = get_elem? s.remotes i
deref tmp (in_tmp storage i) = if storage == tmp.storage then get_elem? tmp.items i else none

-- `Talk::Category`.
pub data TalkCategory : Type 0 where
  write_only read_only write_and_read : TalkCategory

abbrev pub is_read_only : TalkCategory → Bool
is_read_only read_only = true
is_read_only _ = false

-- `Talk::Status`.
pub data Status : Type 0 where
  kstart kconn kread kwrite kclose kend : Status

abbrev pub is_end : Status → Bool
is_end kend = true
is_end _ = false

abbrev pub is_read : Status → Bool
is_read kread = true
is_read _ = false

abbrev pub is_write : Status → Bool
is_write kwrite = true
is_write _ = false

abbrev pub is_conn : Status → Bool
is_conn kconn = true
is_conn _ = false

-- A codec object taken from `PoolProtocols` is known by its category; a buffer by its bytes.
pub record Talk : Type 0 where
  pub no_talk : ℕ
  pub category : TalkCategory
  pub service : Option Service
  pub buf : Option (List ℕ)
  pub protocol_write : Option Category
  pub protocol_read : Option Category
  pub starttime_ms : ℤ
  pub endtime_ms : ℤ
  pub status : Status
  pub error : Error
  pub fail_remotes : List Remote
  pub retry : ℕ
  pub fd : ℤ
  pub remote : Option RemotePtr
