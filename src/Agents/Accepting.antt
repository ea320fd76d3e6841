-- ===== src/Agents/Accepting.antt =====
-- AgentMaster::CheckEvents_: what becomes of the descriptor of an accepted client.
use magneto.Base.{
  ap, ◌∙◌, ◌%◌, ℕ, suc, ◌+◌, ◌<◌, ◌≡◌, refl, Bool, true, false, if◌then◌else◌, Bool-cases, inl, inr,
  List, [], ◌∷◌, some, none, ℤ, pos, negsuc, ◌+ℤ◌, ◌<ℤ◌, subst, eqb_ℤ, is_pos, arith,
}
use magneto.Model.{Category}
use magneto.Env.{Event, ev_in, ev_out, ev_err, ev_other}
use magneto.Scheduler.{Msg, config, read_req, new_req, session, destruct}
use magneto.Socket.{to_unsigned}
use magneto.Agents.{
  give_up, Effect, accepted, closed, sent, Outside, send_msg, sum_ℤ, clients_not_full, admit,
  check_listen, check_events, build_for_read_req,
}

abbrev one_if : Bool → ℕ
one_if b = if b then 1 else 0

-- How often a descriptor was accepted, and how often it was closed or an agent took it.
abbrev pub num_accepted : ℤ → List Effect → ℕ
num_accepted fd [] = 0
num_accepted fd (accepted x ∷ t) = one_if (eqb_ℤ x fd) + num_accepted fd t
num_accepted fd (closed x ∷ t) = num_accepted fd t
num_accepted fd (sent i m taken ∷ t) = num_accepted fd t

abbrev taken_fd : Msg → ℤ → ℕ
taken_fd (read_req m) fd = one_if (eqb_ℤ m.fd_client fd)
taken_fd config fd = 0
taken_fd (new_req m) fd = 0
taken_fd (session m) fd = 0
taken_fd (destruct m) fd = 0

abbrev pub num_settled : ℤ → List Effect → ℕ
num_settled fd [] = 0
num_settled fd (accepted x ∷ t) = num_settled fd t
num_settled fd (closed x ∷ t) = one_if (eqb_ℤ x fd) + num_settled fd t
num_settled fd (sent i m true ∷ t) = taken_fd m fd + num_settled fd t
num_settled fd (sent i m false ∷ t) = num_settled fd t

-- How many clients the agents have together.
abbrev pub total : List ℤ → ℤ
total [] = pos 0
total (x ∷ xs) = x +ℤ total xs

-- Clients are handed to agents that there are, and only while there are fewer than the limit.
abbrev pub Fits : Outside → ℕ → ℤ → List Effect → Type 0
Fits o n max_num [] = Unit
Fits o n max_num (accepted x ∷ t) = Fits o n max_num t
Fits o n max_num (closed x ∷ t) = Fits o n max_num t
Fits o n max_num (sent i m b ∷ t) =
    (i < n) × (total (o.num_clients_keepalive t) <ℤ max_num) × Fits o n max_num t

abbrev pub Settled : Outside → ℕ → ℤ → List Effect → Type 0
Settled o n max_num t =
    ((fd : ℤ) → is_pos fd ≡ true → num_accepted fd t ≡ num_settled fd t) × Fits o n max_num t

sum-total : (xs : List ℤ) → sum_ℤ xs ≡ total xs
sum-total [] = refl
sum-total (x ∷ xs) = ap (λ n. x +ℤ n) (sum-total xs)

clients_not_full-total :
    (xs : List ℤ) (max_num : ℤ) → clients_not_full xs max_num ≡ true → total xs <ℤ max_num
unfolding clients_not_full
clients_not_full-total xs max_num room =
    subst (λ n. n <ℤ max_num) (sum-total xs) (ground (arith, room))

settled_fd :
    (fd x : ℤ) (a s : ℕ)
    → (is_pos fd ≡ true → a ≡ s)
    → is_pos fd ≡ true
    → one_if (eqb_ℤ x fd) + a ≡ one_if (eqb_ℤ x fd) + s
settled_fd fd x a s h p = ground (arith, h p)

admit-Settled :
    (o : Outside) (n : ℕ) (max_num : ℤ) (addr : Category) (fd : ℤ) (t : List Effect)
    → Settled o (suc n) max_num t
    → (t' : List Effect) × (admit o (suc n) max_num addr fd (accepted fd ∷ t) ≡ some t')
      × Settled o (suc n) max_num t'
unfolding admit send_msg
admit-Settled o n max_num addr fd t (h, k) =
    let t1 = accepted fd ∷ t in
    elim (Bool-cases (clients_not_full (o.num_clients_keepalive t1) max_num)) [
      | inr full ↦ rw full (_, refl, (λ x p. ground (arith, h x p), k))
      | inl room ↦
          let m = read_req (build_for_read_req o t1 fd addr) in
          let i = to_unsigned 64 (o.random t1) % suc n in
          elim (Bool-cases (o.takes t1 i m)) [
            | inl taken ↦ (
              sent i m true ∷ t1,
              rw (room, taken) refl,
              (
                λ x p. settled_fd x fd (num_accepted x t) (num_settled x t) (h x) p,
                (omega arith, clients_not_full-total (o.num_clients_keepalive t1) max_num room, k),
              ),
            )
            | inr refused ↦ (
              give_up fd (sent i m false ∷ t1),
              rw (room, refused) refl,
              (
                λ x p. ground (arith, h x p),
                ground (arith, clients_not_full-total (o.num_clients_keepalive t1) max_num room),
              ),
            )
          ]
    ]

check_listen-Settled :
    (o : Outside) (n : ℕ) (max_num : ℤ) (ev : Event) (listen_fd : ℤ) (addr : Category)
    (t : List Effect)
    → Settled o (suc n) max_num t
    → (t' : List Effect) × (check_listen o (suc n) max_num ev listen_fd addr t ≡ some t')
      × Settled o (suc n) max_num t'
unfolding check_listen
check_listen-Settled o n max_num ev_out listen_fd addr t h = (t, refl, h)
check_listen-Settled o n max_num ev_err listen_fd addr t h = (t, refl, h)
check_listen-Settled o n max_num ev_other listen_fd addr t h = (t, refl, h)
check_listen-Settled o n max_num ev_in listen_fd addr t h =
    elim (Bool-cases (eqb_ℤ (o.accept t listen_fd) (negsuc 0))) [
      | inl failed ↦ rw failed (t, refl, h)
      | inr good ↦ rw good (admit-Settled o n max_num addr (o.accept t listen_fd) t h)
    ]

-- With at least one agent, after effects of which the same holds, the loop over the ready events goes
-- through, and each time a valid descriptor is accepted, it is once taken by an agent that there is
-- or closed, never both; a client is offered to an agent only while the agents together have fewer
-- clients than the limit.
pub check_events-Settled :
    (o : Outside) (n : ℕ) (max_num : ℤ) (events : List (Event × ℤ × Category)) (t : List Effect)
    → Settled o (suc n) max_num t
    → (t' : List Effect) × (check_events o (suc n) max_num events t ≡ some t')
      × Settled o (suc n) max_num t'
unfolding check_events
check_events-Settled o n max_num [] t h = (t, refl, h)
check_events-Settled o n max_num ((ev, fd, addr) ∷ rest) t h =
    let (t1, e, h1) = check_listen-Settled o n max_num ev fd addr t h in
    let (t2, f, h2) = check_events-Settled o n max_num rest t1 h1 in
    (
      t2,
      ap (λ r. elim r [ none ↦ none | some t' ↦ check_events o (suc n) max_num rest t' ]) e ∙ f,
      h2,
    )
