-- ===== src/Facade/Sets.antt =====
-- MagnetoBase::Write, Read and Talks on a set: which talks are handed to the agent.
use magneto.Base.{ℕ, true, false, ◌<◌, ◌≡◌, ◌⊎◌, List, length, replicate, Option, none, some, ℤ}
use magneto.Model.{Talk, TalkCategory, write_only, read_only, write_and_read}
use magneto.Env.{Env, Trace}
use magneto.Conf.{ConfServices}
use magneto.Biz.{ServiceCache, BizProcedure, Exchange, exchange}
use magneto.Facade.{Answer, in_slot, unknown_name, write_set, read_set, talks_set}
use magneto.Facade.Handed.{For}

-- A call on a set of services.
pub data SetCall : Type 0 where
  writes : (bufs : List (Option (List ℕ))) (errors : ℕ) → SetCall
  reads : SetCall
  talks_with : (bufs : List (Option (List ℕ))) → SetCall

abbrev pub category_of : SetCall → TalkCategory
category_of (writes bufs errors) = write_only
category_of reads = read_only
category_of (talks_with bufs) = write_and_read

-- The buffers of a call on `n` services.
abbrev pub bufs_of : ℕ → SetCall → List (Option (List ℕ))
bufs_of n (writes bufs errors) = bufs
bufs_of n reads = replicate n none
bufs_of n (talks_with bufs) = bufs

-- The `errors` that Write is given has fewer elements than there are services.
abbrev pub Short : ℕ → SetCall → Type 0
Short n (writes bufs errors) = errors < n
Short n reads = ⊥
Short n (talks_with bufs) = ⊥

abbrev pub set_call :
    Env → Exchange → Trace → ConfServices → Option BizProcedure → SetCall → List ℕ → ℤ → Answer
set_call env ex t conf current (writes bufs errors) name timeo_ms =
    write_set env ex t conf current name bufs timeo_ms errors
set_call env ex t conf current reads name timeo_ms = read_set env ex t conf current name timeo_ms
set_call env ex t conf current (talks_with bufs) name timeo_ms =
    talks_set env ex t conf current name bufs timeo_ms

-- What an operation on a set comes to: nothing if the name is unknown, undefined behaviour if there
-- are too few buffers, and otherwise one exchange of the right talks, which Write with a short `errors`
-- survives only if the agent does not take the message.
abbrev pub Sent :
    Env
    → Exchange
    → Trace
    → ConfServices
    → BizProcedure
    → SetCall
    → List ℕ
    → ℤ
    → Option (List (List ℕ))
    → Type 0
Sent env ex t conf biz op name timeo_ms none =
    set_call env ex t conf (some biz) op name timeo_ms ≡ unknown_name env ex t conf (some biz)
Sent env ex t conf biz op name timeo_ms (some names) =
    ((length (bufs_of (length names) op) < length names)
      × (set_call env ex t conf (some biz) op name timeo_ms ≡ none))
    ⊎ ((talks : List Talk) × (cache : ServiceCache) × (t1 : Trace) × For (category_of op) names
          (bufs_of (length names) op) talks
        × (((Short (length names) op → ex.send_msg t1 biz.id_procedure talks ≡ false)
              × (set_call env ex t conf (some biz) op name timeo_ms
                  ≡ in_slot (
                      exchange ex t1 biz.tmp_pool_talks talks
                        (record biz { service_cache = cache }))))
            ⊎ (Short (length names) op
                × (ex.send_msg t1 biz.id_procedure talks ≡ true)
                × (set_call env ex t conf (some biz) op name timeo_ms ≡ none))))
