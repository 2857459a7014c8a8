-- ===== src/Block/Hierarchy.antt =====
-- What `pxNetworkSchedulerCall` (source/FreeRTOS_TSN_NetworkSchedulerBlock.c) selects in a
-- hierarchy of nodes that are always ready: the generic scheduler, the FIFO and the priority
-- scheduler of source/modules/BasicSchedulers/BasicSchedulers.c.
use free_rtos_tsn_compatibil.Prelude.{
  ℕ, zero, suc, ◌+◌, ◌≤◌, ◌≡◌, ◌≢◌, refl, ap, sym, ◌∙◌, ◌⊎◌, inl, inr, true, false, ◌==◌,
  if◌then◌else◌, none, some, List, [], ◌∷◌, ◌++◌, get_elem?, All, Bool-cases, Option-cases, arith,
}
use free_rtos_tsn_compatibil.Kernel.{Kernel}
use free_rtos_tsn_compatibil.State.{
  NetworkQueue, Node, Scheduler, select_first, priority_select, always_ready, State, Run, done,
}
use free_rtos_tsn_compatibil.Priority.{is_empty}
use free_rtos_tsn_compatibil.Block.{Env, priority_loop, call_node, scheduler_call, schedule}

module _ (k : Kernel) (st : State k) where
  -- The first of these queues that has packets waiting, or 0.
  pub first_waiting : List ℕ → ℕ
  first_waiting [] = 0
  first_waiting (p ∷ ps) = elim (st.queues p) [
    | none ↦ first_waiting ps
    | some q ↦ if is_empty k q then first_waiting ps else p
  ]

  mutual
    -- `Serves d n qs`: the node at address `n` is the root of a hierarchy no deeper than `d`, of
    -- nodes that are always ready, and `qs` are the queues that it serves, in the order in which
    -- it tries them.
    pub data Serves : ℕ → ℕ → List ℕ → Type 0 where
      leaf :
          {d n : ℕ} (nd : Node) (s : Scheduler) (q : NetworkQueue k)
          → st.nodes n ≡ some nd
          → nd.scheduler ≡ some s
          → s.ready ≡ always_ready
          → nd.queue ≢ 0
          → st.queues nd.queue ≡ some q
          → Serves (suc d) n (nd.queue ∷ [])
      through_first :
          {d n : ℕ} {qs : List ℕ} (nd : Node) (s : Scheduler) (child : ℕ)
          → st.nodes n ≡ some nd
          → nd.scheduler ≡ some s
          → s.ready ≡ always_ready
          → nd.queue ≡ 0
          → s.select ≡ select_first
          → get_elem? nd.next 0 ≡ some child
          → Serves d child qs
          → Serves (suc d) n qs
      by_priority :
          {d n : ℕ} {qs : List ℕ} (nd : Node) (s : Scheduler)
          → st.nodes n ≡ some nd
          → nd.scheduler ≡ some s
          → s.ready ≡ always_ready
          → nd.queue ≡ 0
          → s.select ≡ priority_select
          → ServeAll d nd.next nd.num_children 0 qs
          → Serves (suc d) n qs

    -- The queues of the children from one position on.
    pub data ServeAll : ℕ → List ℕ → ℕ → ℕ → List ℕ → Type 0 where
      last : {d i : ℕ} {next : List ℕ} → ServeAll d next zero i []
      at_child :
          {d rounds i : ℕ} {next qs rs all : List ℕ} (n : ℕ)
          → get_elem? next i ≡ some n
          → Serves d n qs
          → ServeAll d next rounds (i + 1) rs
          → all ≡ qs ++ rs
          → ServeAll d next (suc rounds) i all

  first_waiting-append :
      (qs rs : List ℕ)
      → st.queues 0 ≡ none
      → first_waiting (qs ++ rs)
        ≡ (if first_waiting qs == 0 then first_waiting rs else first_waiting qs)
  unfolding first_waiting
  first_waiting-append [] rs h = refl
  first_waiting-append (p ∷ qs) rs h = ground (arith, first_waiting-append qs rs h)

  module _ (env : Env) (rec : State k → ℕ → Run (State k × ℕ)) (n : ℕ) (nd : Node) (s : Scheduler)
      (a : st.nodes n ≡ some nd) (b : nd.scheduler ≡ some s) (c : s.ready ≡ always_ready) where
    node_leaf :
        (q : NetworkQueue k)
        → nd.queue ≢ 0
        → st.queues nd.queue ≡ some q
        → call_node k env rec st n ≡ done (st, first_waiting (nd.queue ∷ []))
    unfolding call_node first_waiting
    node_leaf q e f = ground arith

    node_first :
        (child r : ℕ)
        → nd.queue ≡ 0
        → s.select ≡ select_first
        → get_elem? nd.next 0 ≡ some child
        → rec st child ≡ done (st, r)
        → call_node k env rec st n ≡ done (st, r)
    unfolding call_node
    node_first child r e f g h = ground arith

    node_priority :
        (r : ℕ)
        → nd.queue ≡ 0
        → s.select ≡ priority_select
        → priority_loop k rec nd.next nd.num_children 0 st ≡ done (st, r)
        → call_node k env rec st n ≡ done (st, r)
    unfolding call_node
    node_priority r e f h = ground arith

  loop_step :
      (rec : State k → ℕ → Run (State k × ℕ)) (next : List ℕ) (rounds i n r t : ℕ)
      → get_elem? next i ≡ some n
      → rec st n ≡ done (st, r)
      → priority_loop k rec next rounds (i + 1) st ≡ done (st, t)
      → priority_loop k rec next (suc rounds) i st ≡ done (st, if r == 0 then t else r)
  unfolding priority_loop
  loop_step rec next rounds i n r t e f g = ground arith

  mutual
    unfolding scheduler_call priority_loop first_waiting

    call-Serves :
        {d n : ℕ} {qs : List ℕ} (env : Env) (fuel : ℕ)
        → Serves d n qs
        → st.queues 0 ≡ none
        → d ≤ fuel
        → scheduler_call k fuel env st n ≡ done (st, first_waiting qs)
    call-Serves env zero (leaf nd s q a b c e f) h l = absurd (omega arith)
    call-Serves env zero (through_first nd s n a b c e f g r) h l = absurd (omega arith)
    call-Serves env zero (by_priority nd s a b c e f r) h l = absurd (omega arith)
    call-Serves env (suc fuel) (leaf nd s q a b c e f) h l =
        node_leaf env (scheduler_call k fuel env) _ nd s a b c q e f
    call-Serves env (suc fuel) (through_first nd s n a b c e f g r) h l =
        node_first env (scheduler_call k fuel env) _ nd s a b c n _ e f g
          (call-Serves env fuel r h (omega arith))
    call-Serves env (suc fuel) (by_priority nd s a b c e f r) h l =
        node_priority env (scheduler_call k fuel env) _ nd s a b c _ e f
          (call-ServeAll env fuel r h (omega arith))

    call-ServeAll :
        {d i rounds : ℕ} {next qs : List ℕ} (env : Env) (fuel : ℕ)
        → ServeAll d next rounds i qs
        → st.queues 0 ≡ none
        → d ≤ fuel
        → priority_loop k (scheduler_call k fuel env) next rounds i st ≡ done (st, first_waiting qs)
    call-ServeAll env fuel last h l = refl
    call-ServeAll {next = next} env fuel
          (at_child {rounds = m} {i = i} {qs = qs} {rs = rs} n a r rest e) h l =
        loop_step (scheduler_call k fuel env) next m i n (first_waiting qs) (first_waiting rs) a
          (call-Serves env fuel r h l) (call-ServeAll env fuel rest h l)
        ∙ ap (λ v. done (st, v)) (sym (ap first_waiting e ∙ first_waiting-append qs rs h))

  -- The queue at this address has no packets waiting.
  abbrev pub IsIdle : ℕ → Type 0
  IsIdle p = (q : NetworkQueue k) → st.queues p ≡ some q → is_empty k q ≡ true

  -- `p` is the first queue of the list with packets waiting.
  pub record IsFirst (qs : List ℕ) (p : ℕ) : Type 0 where
    pub before : List ℕ
    pub after : List ℕ
    pub queue : NetworkQueue k
    pub split : qs ≡ before ++ (p ∷ after)
    pub there : st.queues p ≡ some queue
    pub waiting : is_empty k queue ≡ false
    pub idle_before : All IsIdle before

  pass : {p r : ℕ} {qs : List ℕ} → IsIdle p → IsFirst qs r → IsFirst (p ∷ qs) r
  pass {p} i f = record {
    before = p ∷ f.before;
    after = f.after;
    queue = f.queue;
    split = ap (λ l. p ∷ l) f.split;
    there = f.there;
    waiting = f.waiting;
    idle_before = (i, f.idle_before);
  }

  first_waiting_idle : (p : ℕ) (qs : List ℕ) → IsIdle p → first_waiting (p ∷ qs) ≡ first_waiting qs
  unfolding first_waiting
  first_waiting_idle p qs h = elim (Option-cases (st.queues p)) [
    | inl gone ↦ ground arith
    | inr (q, there) ↦ ground (arith, h q there)
  ]

  first_waiting_busy :
      (p : ℕ) (qs : List ℕ) (q : NetworkQueue k)
      → st.queues p ≡ some q
      → is_empty k q ≡ false
      → first_waiting (p ∷ qs) ≡ p
  unfolding first_waiting
  first_waiting_busy p qs q there busy = ground arith

  further :
      {p r : ℕ} {qs : List ℕ}
      → IsIdle p
      → ((r ≡ 0) × All IsIdle qs) ⊎ IsFirst qs r
      → ((r ≡ 0) × All IsIdle (p ∷ qs)) ⊎ IsFirst (p ∷ qs) r
  further i (inl (z, all)) = inl (z, (i, all))
  further i (inr f) = inr (pass i f)

  IsIdle-cases :
      (p : ℕ) → IsIdle p ⊎ ((q : NetworkQueue k) × (st.queues p ≡ some q) × (is_empty k q ≡ false))
  IsIdle-cases p = elim (Option-cases (st.queues p)) [
    | inl gone ↦ inl (λ q e. cc)
    | inr (q, there) ↦ elim (Bool-cases (is_empty k q)) [
      | inl idle ↦ inl (λ q' e. let s : q' ≡ q = cc in rw s idle)
      | inr busy ↦ inr (q, there, busy)
    ]
  ]

  first_waiting_lem :
      (qs : List ℕ) → ((first_waiting qs ≡ 0) × All IsIdle qs) ⊎ IsFirst qs (first_waiting qs)
  first_waiting_lem [] = inl (unfold first_waiting in refl, tt)
  first_waiting_lem (p ∷ qs) = elim (IsIdle-cases p) [
    | inl idle ↦ rw (first_waiting_idle p qs idle) (further idle (first_waiting_lem qs))
    | inr (q, there, busy) ↦ rw (first_waiting_busy p qs q there busy) (
        inr (record {
          before = [];
          after = qs;
          queue = q;
          split = refl;
          there = there;
          waiting = busy;
          idle_before = tt;
        }))
  ]

  -- With a root, a hierarchy of nodes that are always ready below it, and fuel for its depth,
  -- xNetworkQueueSchedule ends without a fault and changes nothing. It returns the first of the
  -- served queues that has packets waiting, or NULL if none has.
  pub schedule_lem :
      {d : ℕ} {qs : List ℕ} (env : Env) (fuel : ℕ)
      → st.root ≢ 0
      → Serves d st.root qs
      → st.queues 0 ≡ none
      → d ≤ fuel
      → (p : ℕ) × (schedule k fuel env st ≡ done (st, p))
        × (((p ≡ 0) × All IsIdle qs) ⊎ IsFirst qs p)
  unfolding schedule
  schedule_lem {qs = qs} env fuel r h z l =
      (first_waiting qs, ground (arith, call-Serves env fuel h z l), first_waiting_lem qs)
