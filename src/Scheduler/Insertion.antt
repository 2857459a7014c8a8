-- ===== src/Scheduler/Insertion.antt =====
-- What `xNetworkQueuePush`, `xNetworkQueuePop` and `xNetworkQueueInsertPacketByFilter` of
-- source/FreeRTOS_TSN_NetworkScheduler.c do to the queues and to the controller.
use mathlib.Core.Path.{fun_ext}
use native.Mathlib.Decide.{ℕ_discrete}
use native.Mathlib.Nat.{le_trans}
use free_rtos_tsn_compatibil.Prelude.{
  ℕ, ◌+◌, ◌≤◌, ◌≡◌, ◌≢◌, refl, ap, sym, ◌∙◌, ◌⊎◌, inl, inr, true, false, Option, none, some, [],
  ◌∷◌, ◌++◌, All, All-imp, Bool-cases, Option-cases, arith,
}
use free_rtos_tsn_compatibil.Kernel.{Kernel, Item}
use free_rtos_tsn_compatibil.State.{NetworkQueue, State, Config, u32, update, done}
use free_rtos_tsn_compatibil.Priority.{update_priority, notify_controller}
use free_rtos_tsn_compatibil.Priority.Maximum.{IsBounded}
use free_rtos_tsn_compatibil.Scheduler.{push, pop, insert_packet_by_filter}
use free_rtos_tsn_compatibil.Scheduler.Choice.{IsQueue, Unmatched, Winner, choose_lem}

module _ (k : Kernel) (c : Config) (st : State k) where
  -- The state after the item was appended to the queue at this address: the other queues and the
  -- lists are as they were, and the controller was notified.
  pub record Pushed (p : ℕ) (q : NetworkQueue k) (item : Item) (st' : State k) : Type 0 where
    pub queue : NetworkQueue k
    pub stored : st'.queues p ≡ some queue
    pub appended : k.contents queue.queue ≡ k.contents q.queue ++ (item ∷ [])
    pub same_ipv : queue.ipv ≡ q.ipv
    pub others : (a : ℕ) → a ≢ p → st'.queues a ≡ st.queues a
    pub same_list : st'.queue_list ≡ st.queue_list
    pub same_nodes : st'.nodes ≡ st.nodes
    pub same_root : st'.root ≡ st.root
    pub notified : st'.notifications ≡ u32 (st.notifications + 1)
    pub not_lowered : st.controller_priority ≤ st'.controller_priority
    pub raised : c.has_dynamic_prio ≡ true → q.ipv ≤ st'.controller_priority

  sent_state : ℕ → NetworkQueue k → Item → ℕ → State k
  sent_state p q item t =
      let q' = record q { queue = (k.send_to_back q.queue item t).0 } in
      let st' = record st { queues = update st.queues p q' } in
      notify_controller k (update_priority k c st' q.ipv).0

  sent_state-Pushed :
      (p : ℕ) (q : NetworkQueue k) (item : Item) (t : ℕ)
      → (k.send_to_back q.queue item t).1 ≡ true
      → Pushed p q item (sent_state p q item t)
  unfolding sent_state update_priority notify_controller
  sent_state-Pushed p q item t sent = record {
    queue = record q { queue = (k.send_to_back q.queue item t).0 };
    stored = ground arith;
    appended = k.send_done q.queue item t sent;
    same_ipv = refl;
    others = λ a ne. ground arith;
    same_list = ground arith;
    same_nodes = ground arith;
    same_root = ground arith;
    notified = ground arith;
    not_lowered = ground arith;
    raised = λ d. ground arith;
  }

  update_self :
      (p : ℕ) (q : NetworkQueue k) → st.queues p ≡ some q → update st.queues p q ≡ st.queues
  update_self p q e = fun_ext λ a. ground arith

  -- A push to an allocated queue ends without a fault: either the kernel took the item, and it
  -- stands at the back of that queue with the controller notified, or nothing changed.
  pub push_lem :
      (p : ℕ) (q : NetworkQueue k) (item : Item) (t : ℕ)
      → st.queues p ≡ some q
      → ((st' : State k) × (push k c st p item t ≡ done (st', true)) × Pushed p q item st')
        ⊎ (push k c st p item t ≡ done (st, false))
  unfolding push sent_state
  push_lem p q item t e = elim (Bool-cases (k.send_to_back q.queue item t).1) [
    | inl sent ↦ inl (sent_state p q item t, rw (e, sent), sent_state-Pushed p q item t sent)
    | inr full ↦ inr (rw (e, full, k.send_full q.queue item t full, update_self p q e))
  ]

  -- If every listed address leads to a queue with a filter, xNetworkQueueInsertPacketByFilter ends
  -- without a fault in one of three ways: no listed queue matches the item, nothing changes and it
  -- returns pdFAIL; the item was appended to a matching queue, of the highest internal priority
  -- among those that match and the first of them in the list, and it returns pdPASS; or the kernel
  -- did not take the item into that queue, nothing changes and it returns pdFAIL.
  pub insert_packet_by_filter_lem :
      (item : Item) (t : ℕ)
      → All (IsQueue k st.queues item) st.queue_list
      → ((insert_packet_by_filter k c st item t ≡ done (st, false))
          × All (Unmatched k st.queues item) st.queue_list)
        ⊎ ((w : Winner k st.queues item st.queue_list) × (((st' : State k)
                × (insert_packet_by_filter k c st item t ≡ done (st', true))
                × Pushed w.address w.queue item st')
              ⊎ (insert_packet_by_filter k c st item t ≡ done (st, false))))
  unfolding insert_packet_by_filter
  insert_packet_by_filter_lem item t h = elim (choose_lem k st.queues item st.queue_list h) [
    | inl (run, unmatched) ↦ inl (rw run refl, unmatched)
    | inr (w, run) ↦ inr (w, rw run (push_lem w.address w.queue item t w.allocated))
  ]

  -- Every listed queue with packets waiting has at most the priority of the controller's task.
  abbrev pub IsCovered : State k → Type 0
  IsCovered s = All (IsBounded k s s.controller_priority) s.queue_list

  Pushed-IsCovered :
      (p : ℕ) (q : NetworkQueue k) (item : Item) {st' : State k}
      → c.has_dynamic_prio ≡ true
      → Pushed p q item st'
      → IsCovered st
      → IsCovered st'
  Pushed-IsCovered p q item {st'} d s h = rw s.same_list (All-imp _ _ st.queue_list bounded h)
    where
      bounded :
          (a : ℕ)
          → IsBounded k st st.controller_priority a
          → IsBounded k st' st'.controller_priority a
      bounded a b q' e w = elim (ℕ_discrete a p) [
        | yes same ↦
            let e' : st'.queues p ≡ some q' = rw (← same) e in
            let stored : q' ≡ s.queue = cc (s.stored) in rw (stored, s.same_ipv) (s.raised d)
        | no other ↦ le_trans (b q' (sym (s.others a other) ∙ e) w) s.not_lowered
      ]

  -- With dynamic priorities, if every listed queue with packets has at most the priority of the
  -- controller's task and xNetworkQueuePush on an allocated queue returns pdPASS, then it is so
  -- after the call, too.
  pub push-IsCovered :
      (p : ℕ) (q : NetworkQueue k) (item : Item) (t : ℕ) (st' : State k)
      → c.has_dynamic_prio ≡ true
      → st.queues p ≡ some q
      → push k c st p item t ≡ done (st', true)
      → IsCovered st
      → IsCovered st'
  push-IsCovered p q item t st' d e run h = elim (push_lem p q item t e) [
    | inl (st'', pushed, s) ↦
        let same : st'' ≡ st' = cc in rw (← same) (Pushed-IsCovered p q item d s h)
    | inr failed ↦ cc
  ]

module _ (k : Kernel) (st : State k) where
  -- The state after a call of xNetworkQueuePop on the queue `q` at this address, and its result:
  -- the item that stood at the front of the queue is gone from it, or the queue was empty.
  abbrev pub Popped : ℕ → NetworkQueue k → State k → Option Item → Type 0
  Popped p q st' none = (st' ≡ st) × (k.contents q.queue ≡ [])
  Popped p q st' (some item) =
      ((a : ℕ) → a ≢ p → st'.queues a ≡ st.queues a)
      × (st' ≡ record st { queues = st'.queues })
      × ((q' : NetworkQueue k) × (st'.queues p ≡ some q')
          × (q'.ipv ≡ q.ipv)
          × (k.contents q.queue ≡ item ∷ k.contents q'.queue))

  -- On an allocated queue, xNetworkQueuePop ends without a fault and takes the item at the front.
  pub pop_lem :
      (p : ℕ) (q : NetworkQueue k) (t : ℕ)
      → st.queues p ≡ some q
      → (st' : State k) × (r : Option Item) × (pop k st p t ≡ done (st', r)) × Popped p q st' r
  unfolding pop
  pop_lem p q t e = elim (Option-cases (k.receive q.queue t).1) [
    | inl empty ↦
        let (nothing, same) = k.receive_empty q.queue t empty in
        (
          st,
          none,
          rw (e, empty, same) (ap (λ h. done (record st { queues = h }, none)) (update_self' q e)),
          (refl, nothing),
        )
    | inr (item, taken) ↦ (
      record st { queues = update st.queues p (record q { queue = (k.receive q.queue t).0 }) },
      some item,
      rw (e, taken),
      (
        λ a ne. ground arith,
        refl,
        (
          record q { queue = (k.receive q.queue t).0 },
          ground arith,
          refl,
          k.receive_done q.queue t item taken,
        ),
      ),
    )
  ]
    where
      update_self' : (q : NetworkQueue k) → st.queues p ≡ some q → update st.queues p q ≡ st.queues
      update_self' q e = fun_ext λ a. ground arith
