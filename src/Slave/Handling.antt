-- ===== src/Slave/Handling.antt =====
-- The event handlers of the agent: what becomes of the descriptor of a talk.
use magneto.Base.{eqb_ℤ, ℕ, ◌+◌, [], true, false, if◌then◌else◌, ◌∷◌, some, ℤ, negsuc, ◌≡◌, ◌⊎◌}
use magneto.Model.{is_conn, is_read, is_write, Talk, is_ok, kok, Remote, Category}
use magneto.Env.{Env, Trace, Event, mod_event, registered, unregistered, closed}
use magneto.ConnsMgr.{ConnsMgr}
use magneto.Slave.{Handled, wants_reply, remote_of}

-- How often a descriptor was closed.
abbrev pub closings : ℤ → Trace → ℕ
closings fd [] = 0
closings fd (closed x ∷ t) = (if eqb_ℤ x fd then 1 else 0) + closings fd t
closings fd (_ ∷ t) = closings fd t

-- Nothing was closed between two traces.
abbrev pub Unclosed : Trace → Trace → Type 0
Unclosed t t' = (fd : ℤ) → closings fd t' ≡ closings fd t

-- The three outcomes of a handler that was called after `t`. Before the effects that are written out
-- it has closed nothing.
abbrev pub Outcome : Trace → Talk → Handled → Type 0
Outcome t talk (more, talk', ctx', t') =
    ((more ≡ true)
      × (talk'.error ≡ talk.error)
      × (talk'.fd ≡ talk.fd)
      × ((ev : Event) × (rest : Trace) × (t'
            ≡ registered talk.fd mod_event ev ctx'.timeleft_ms ∷ rest)
          × Unclosed t rest))
    ⊎ ((more ≡ false)
        × (talk'.error ≡ kok)
        × (talk'.fd ≡ talk.fd)
        × ((rest : Trace) × (t' ≡ unregistered talk.fd ∷ rest) × Unclosed t rest))
    ⊎ ((more ≡ false)
        × (is_ok talk'.error ≡ false)
        × (talk'.fd ≡ negsuc 0)
        × ((rest : Trace) × (t' ≡ closed talk.fd ∷ unregistered talk.fd ∷ rest) × Unclosed t rest))

-- A talk has what its status needs: the codec of the direction it is in, and a remote if it
-- connects or will wait for a reply.
abbrev pub Equipped : ConnsMgr → Talk → Type 0
Equipped c talk =
    (((r : Remote) × (remote_of c talk ≡ some r))
      ⊎ ((is_conn talk.status ≡ false) × (wants_reply talk.category ≡ false))
      ⊎ (is_read talk.status ≡ true))
    × (((pc : Category) × (talk.protocol_read ≡ some pc)) ⊎ (is_read talk.status ≡ false))
    × (((pc : Category) × (talk.protocol_write ≡ some pc)) ⊎ (is_write talk.status ≡ false))
