-- ===== src/Block/Credit.antt =====
-- The credit based shaper: how often `prvCBSReady`
-- (source/modules/CreditBasedScheduler/SchedCBS.c) lets a node send.
use free_rtos_tsn_compatibil.Prelude.{
  ℕ, ◌+◌, ◌-◌, ◌≤◌, ◌<◌, ◌^◌, max, ◌≡◌, ap, ◌∙◌, true, leb, List, [], ◌∷◌, none, some, inl, inr,
  Bool-cases, get_elem?, arith,
}
use free_rtos_tsn_compatibil.Kernel.{Kernel}
use free_rtos_tsn_compatibil.State.{
  NetworkQueue, Node, Scheduler, Cbs, cbs_ready, State, update, done, fault, >>=-eq-done,
}
use free_rtos_tsn_compatibil.Block.{
  Env, credit_ms, packet_ms, next_activation, peek_next_packet, cbs_is_ready,
}

-- Without wrap-around the next activation lies the packet's delay after the later of the last one
-- and the earliest that the credit allows.
pub next_activation_lem :
    (now max_delay delay next : ℕ)
    → next + max_delay < 2 ^ 32
    → next + delay < 2 ^ 32
    → now + delay < 2 ^ 32
    → next ≤ now
    → next_activation now max_delay delay next ≡ max next (now - max_delay) + delay
unfolding next_activation
next_activation_lem now max_delay delay next a b c d = ground arith

module _ (k : Kernel) where
  -- What `prvCBSReady` leaves in the scheduler when it returns pdTRUE for the packet at the front.
  abbrev pub Granted : Env → State k → ℕ → Node → Scheduler → Cbs → State k → Type 0
  Granted env st n nd s c st' =
      (c.next_activation ≤ env.now)
      × ((packet : ℕ) × (peek_next_packet k st nd ≡ done packet)
          × (st' ≡ record st {
            nodes = update st.nodes n (record nd {
              scheduler = some (record s {
                ready = cbs_ready (record c {
                  next_activation =
                      next_activation env.now (k.ms_to_ticks (credit_ms c))
                        (k.ms_to_ticks (packet_ms c (env.data_length packet))) c.next_activation;
                });
              });
            });
          }))

  granted :
      (env : Env) (st st' : State k) (n : ℕ) (nd : Node) (s : Scheduler) (c : Cbs)
      → cbs_is_ready k env st n nd s c ≡ done (st', true)
      → Granted env st n nd s c st'
  unfolding cbs_is_ready
  granted env st st' n nd s c h = elim (Bool-cases (leb c.next_activation env.now)) [
    | inl due ↦
        let h' = rw (due, cbs_is_ready) at h in
        let (packet, front, rest) = >>=-eq-done _ _ h' in
        (ground arith, (packet, front, ground arith))
    | inr later ↦ cc (rw (later, cbs_is_ready) at h)
  ]

  -- `uxMaxDelay` and `uxDelay` of `prvCBSReady`, in ticks.
  abbrev pub burst : Cbs → ℕ
  burst c = k.ms_to_ticks (credit_ms c)

  abbrev pub cost : Cbs → ℕ → ℕ
  cost c bytes = k.ms_to_ticks (packet_ms c bytes)

  -- The scheduler of the node at this address has these CBS attributes.
  pub record Holds (st : State k) (n : ℕ) (c : Cbs) : Type 0 where
    pub node : Node
    pub scheduler : Scheduler
    pub node_there : st.nodes n ≡ some node
    pub scheduler_there : node.scheduler ≡ some scheduler
    pub attributes : scheduler.ready ≡ cbs_ready c

  -- The calls of `prvCBSReady` on one node that returned pdTRUE, in order, from the attributes `c`
  -- to the attributes at the end: the tick of each, and the cost of the packet at the front.
  -- Between two of them the rest of the state may change in any way. No tick count wraps.
  pub data Grants (n : ℕ) : Cbs → List (ℕ × ℕ) → Cbs → Type 0 where
    stop : {c : Cbs} → Grants n c [] c
    grant :
        {c d e : Cbs} {rest : List (ℕ × ℕ)} (env : Env) (st st' : State k) (nd : Node)
        (s : Scheduler) (packet : ℕ)
        → cbs_is_ready k env st n nd s c ≡ done (st', true)
        → peek_next_packet k st nd ≡ done packet
        → Holds st' n d
        → c.next_activation + burst c < 2 ^ 32
        → c.next_activation + cost c (env.data_length packet) < 2 ^ 32
        → env.now + cost c (env.data_length packet) < 2 ^ 32
        → Grants n d rest e
        → Grants n c ((env.now, cost c (env.data_length packet)) ∷ rest) e

  -- The sum of the costs.
  abbrev pub total : List (ℕ × ℕ) → ℕ
  total [] = 0
  total ((t, cost) ∷ rest) = cost + total rest

  cbs_ready-injective : {c d : Cbs} → cbs_ready c ≡ cbs_ready d → c ≡ d
  cbs_ready-injective h = cc

  -- One grant moves the next activation, and nothing else in the attributes.
  grant_step :
      (n : ℕ) (c d : Cbs) (env : Env) (st st' : State k) (nd : Node) (s : Scheduler) (packet : ℕ)
      → cbs_is_ready k env st n nd s c ≡ done (st', true)
      → peek_next_packet k st nd ≡ done packet
      → Holds st' n d
      → (d ≡ record c {
        next_activation =
            next_activation env.now (burst c) (cost c (env.data_length packet)) c.next_activation;
      })
        × (c.next_activation ≤ env.now)
  grant_step n c d env st st' nd s packet run front held =
      let (due, g) = granted env st st' n nd s c run in
      let (packet', front', after) = g in let same : packet' ≡ packet = cc in (ground arith, due)

  -- After one grant the next activation has grown by the cost, and lies at most the burst before
  -- the grant's tick with the cost added.
  grant_bounds :
      (n : ℕ) (c d : Cbs) (env : Env) (st st' : State k) (nd : Node) (s : Scheduler) (packet : ℕ)
      → cbs_is_ready k env st n nd s c ≡ done (st', true)
      → peek_next_packet k st nd ≡ done packet
      → Holds st' n d
      → c.next_activation + burst c < 2 ^ 32
      → c.next_activation + cost c (env.data_length packet) < 2 ^ 32
      → env.now + cost c (env.data_length packet) < 2 ^ 32
      → (c.next_activation + cost c (env.data_length packet) ≤ d.next_activation)
        × (env.now + cost c (env.data_length packet) ≤ d.next_activation + burst c)
  grant_bounds n c d env st st' nd s packet run front held f1 f2 f3 =
      let (e, due) = grant_step n c d env st st' nd s packet run front held in
      let x =
        next_activation_lem env.now (burst c) (cost c (env.data_length packet)) c.next_activation f1
          f2 f3 due in
      let y = ap (λ a. a.next_activation) e in (omega arith, omega arith)

  Grants-grow :
      {n : ℕ} {c e : Cbs} {trace : List (ℕ × ℕ)}
      → Grants n c trace e
      → c.next_activation + total trace ≤ e.next_activation
  Grants-grow stop = omega arith
  Grants-grow {n} {c} {e} (grant {d = d} env st st' nd s packet run front held f1 f2 f3 rest) =
      omega
        (arith, Grants-grow rest, grant_bounds n c d env st st' nd s packet run front held f1 f2 f3)

  -- In a row of calls of prvCBSReady on one node that return pdTRUE, without wrap-around, the
  -- first at the tick t0, the costs of all packets granted before a tick at which the node is
  -- ready once more are together at most the time since t0 and the burst that uxMaxCredit allows.
  pub Grants-bounded :
      {n : ℕ} {c e : Cbs} {t0 cost0 : ℕ} {rest : List (ℕ × ℕ)} (t : ℕ)
      → Grants n c ((t0, cost0) ∷ rest) e
      → e.next_activation ≤ t
      → t0 + total ((t0, cost0) ∷ rest) ≤ t + burst c
  Grants-bounded {n} {c} t (grant {d = d} env st st' nd s packet run front held f1 f2 f3 rest) h =
      omega
        (arith, Grants-grow rest, grant_bounds n c d env st st' nd s packet run front held f1 f2 f3)

  -- The tick of the last grant, with the cost of its packet.
  abbrev pub ends : ℕ × ℕ → List (ℕ × ℕ) → ℕ
  ends (t, cost) [] = t + cost
  ends x (y ∷ rest) = ends y rest

  -- One grant leaves the next activation at most the cost after its tick.
  grant_late :
      (n : ℕ) (c d : Cbs) (env : Env) (st st' : State k) (nd : Node) (s : Scheduler) (packet : ℕ)
      → cbs_is_ready k env st n nd s c ≡ done (st', true)
      → peek_next_packet k st nd ≡ done packet
      → Holds st' n d
      → c.next_activation + burst c < 2 ^ 32
      → c.next_activation + cost c (env.data_length packet) < 2 ^ 32
      → env.now + cost c (env.data_length packet) < 2 ^ 32
      → d.next_activation ≤ env.now + cost c (env.data_length packet)
  grant_late n c d env st st' nd s packet run front held f1 f2 f3 =
      let (e, due) = grant_step n c d env st st' nd s packet run front held in
      let x =
        next_activation_lem env.now (burst c) (cost c (env.data_length packet)) c.next_activation f1
          f2 f3 due in
      let y = ap (λ a. a.next_activation) e in omega arith

  Grants-late :
      {n : ℕ} {c e : Cbs} {x : ℕ × ℕ} {rest : List (ℕ × ℕ)}
      → Grants n c (x ∷ rest) e
      → e.next_activation ≤ ends x rest
  Grants-late {n} {c} (grant {d = d} env st st' nd s packet run front held f1 f2 f3 stop) =
      grant_late n c d env st st' nd s packet run front held f1 f2 f3
  Grants-late
        (grant env st st' nd s packet run front held f1 f2 f3
          (grant env2 st2 st2' nd2 s2 packet2 run2 front2 held2 g1 g2 g3 rest)) =
      Grants-late (grant env2 st2 st2' nd2 s2 packet2 run2 front2 held2 g1 g2 g3 rest)

  -- In a row of calls of prvCBSReady on one node that return pdTRUE, without wrap-around, the
  -- first at the tick t0: the costs of all its packets are together at most the time from t0 to
  -- the last of the calls, the cost of the last packet, and the burst that uxMaxCredit allows.
  pub Grants-interval :
      {n : ℕ} {c e : Cbs} {t0 cost0 : ℕ} {rest : List (ℕ × ℕ)}
      → Grants n c ((t0, cost0) ∷ rest) e
      → t0 + total ((t0, cost0) ∷ rest) ≤ ends (t0, cost0) rest + burst c
  Grants-interval {n} {c} {e} {t0} {cost0} {rest} g =
      Grants-bounded (ends (t0, cost0) rest) g (Grants-late g)

  -- With no packet in the node's queue, prvCBSReady reads through the NULL pointer that
  -- pxPeekNextPacket returns, once the next activation is due.
  pub cbs_is_ready_empty :
      (env : Env) (st : State k) (n : ℕ) (nd : Node) (s : Scheduler) (c : Cbs) (q : NetworkQueue k)
      → st.queues nd.queue ≡ some q
      → k.contents q.queue ≡ []
      → c.next_activation ≤ env.now
      → cbs_is_ready k env st n nd s c ≡ fault
  unfolding cbs_is_ready
  cbs_is_ready_empty env st n nd s c q there empty due =
      let e : k.peek q.queue ≡ none = k.peek_head q.queue ∙ ap (λ l. get_elem? l 0) empty in
      ground arith
