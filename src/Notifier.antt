-- ===== src/Notifier.antt =====
-- src/agents/mailbox_notifier.h and src/agents/details/mailbox_notifier.cpp: how a thread that puts a
-- message into an agent's mailbox wakes the agent, by a byte in a pipe of its own. A call is one step
-- here. The pipes are those of the system: `capacity` is how many bytes one holds.
pub mod Keeping
pub mod Waking
use magneto.Base.{
  ℕ, zero, suc, ◌+◌, ◌-◌, ◌==◌, ltb, Bool, true, false, if◌then◌else◌, Option, none, some, ℤ, pos,
  negsuc,
}

-- What pipe with SetNonBlock, RegEvent and pthread_setspecific answer in one call.
pub record Answers : Type 0 where
  pub opened : Option (ℕ × ℕ)
  pub watched : Bool
  pub kept : Bool

-- `slots` is what the key holds for each thread. `in_use`, `peer` (the end for reading, of an end for
-- writing) and `bytes` are the system's; `registered` are the descriptors that the agent's driver
-- watches, each with the context that BuildForMailboxNotify makes of it.
pub record Notifier : Type 0 where
  pub slots : ℕ → Option ℕ
  pub in_use : ℕ → Bool
  pub peer : ℕ → ℕ
  pub bytes : ℕ → ℕ
  pub registered : ℕ → Bool

abbrev pub update {ℓ} : {A : Type ℓ} → ℕ → A → (ℕ → A) → ℕ → A
update i a f j = if i == j then a else f j

-- The constructor.
abbrev pub created : (ℕ → Bool) → Notifier
created in_use = record {
  slots = λ t. none;
  in_use = in_use;
  peer = λ w. 0;
  bytes = λ r. 0;
  registered = λ r. false;
}

abbrev pub open_pipe : ℕ → ℕ → Notifier → Notifier
open_pipe r w s = record s {
  in_use = update r true (update w true s.in_use);
  peer = update w r s.peer;
  bytes = update r 0 s.bytes;
}

abbrev pub reg_event : Bool → ℕ → Notifier → Notifier
reg_event watched r s = record s {
  registered = if watched then update r true s.registered else s.registered;
}

abbrev pub reg_event_del : ℕ → Notifier → Notifier
reg_event_del fd s = record s { registered = update fd false s.registered }

abbrev pub set_specific : ℕ → ℕ → Notifier → Notifier
set_specific t w s = record s { slots = update t (some w) s.slots }

-- `read` of one byte.
abbrev pub take_byte : ℕ → Notifier → Notifier
take_byte r s = record s { bytes = update r (s.bytes r - 1) s.bytes }

-- The loop of ClearReadBuf, with fuel for the bytes in the pipe and the read that finds none.
unfoldable pub clear_loop : ℕ → ℕ → Notifier → Option Notifier
clear_loop zero r s = none
clear_loop (suc fuel) r s =
    let rest = clear_loop fuel r (take_byte r s) in if s.bytes r == 0 then some s else rest

unfoldable pub clear_read_buf : ℕ → Notifier → Option Notifier
clear_read_buf r s = clear_loop (suc (s.bytes r)) r s

module _ (capacity : ℕ) where
  -- The `write` at the end of Notify, which fails when the pipe is full.
  unfoldable pub send : ℕ → Notifier → ℤ × Notifier
  send w s =
      let r = s.peer w in
      if ltb (s.bytes r) capacity
      then (pos 0, record s { bytes = update r (suc (s.bytes r)) s.bytes })
      else (negsuc 2, s)

  -- Notify, in the thread `t`.
  unfoldable pub notify : ℕ → Answers → Notifier → ℤ × Notifier
  notify t answers s = elim (s.slots t) [
    | some w ↦ send w s
    | none ↦ elim answers.opened [
      | none ↦ (negsuc 0, s)
      | some (r, w) ↦
          let s1 = reg_event answers.watched r (open_pipe r w s) in
          if answers.kept then send w (set_specific t w s1) else (negsuc 1, reg_event_del w s1)
    ]
  ]
