-- ===== src/Controller/Task.antt =====
-- The task of the TSN controller, `prvTSNController` of source/FreeRTOS_TSN_Controller.c.
use free_rtos_tsn_compatibil.Prelude.{
  ℕ, zero, suc, Bool, true, false, ◌==◌, if◌then◌else◌, none, some, min,
}
use free_rtos_tsn_compatibil.Kernel.{
  Kernel, PointerQueues, Item, network_tx, network_rx, other_event,
}
use free_rtos_tsn_compatibil.State.{
  QueuePolicy, ip_task_events, Config, Run, done, fault, out_of_fuel, ◌>>=◌, deref,
}
use free_rtos_tsn_compatibil.Priority.{is_empty, compute_priority}
use free_rtos_tsn_compatibil.Scheduler.{pop}
use free_rtos_tsn_compatibil.Block.{Env, ticks_until_wakeup, schedule}
use free_rtos_tsn_compatibil.Frame.{Platform}
use free_rtos_tsn_compatibil.Ancillary.{msg_free_all}
use free_rtos_tsn_compatibil.World.{World, output, note}
use free_rtos_tsn_compatibil.Controller.{Stack, deliver_frame}

abbrev pub is_ip_task_events : QueuePolicy → Bool
is_ip_task_events ip_task_events = true
is_ip_task_events policy = false

module _ (k : Kernel) (e : PointerQueues) (c : Config) (p : Platform) (s : Stack) where
  -- A transmit event: the message is freed, and the interface of the end point gets the buffer.
  -- The function behind the interface's `pfOutput` is asked as an effect; that it may be
  -- xTSN_NetworkInterfaceOutput, which Wrapper/Output models, is not composed here.
  unfoldable pub transmit : World k e → Item → Run (World k e)
  transmit w item = deref (w.buffers item.buf) >>= λ buf.
      deref (if buf.end_point == 0 then none else some (s.interface_of buf.end_point))
      >>= λ interface.
          (if item.msgh == 0 then done w.memory else msg_free_all w.memory item.msgh) >>= λ memory.
          if interface == 0
          then fault
          else done (
              note k e (record w { memory = memory })
                (output interface item.buf item.release_after_send))

  -- What becomes of an item that was popped.
  unfoldable pub handle : World k e → Item → Bool → Run (World k e)
  unfolding transmit
  handle w item using_ip_task = elim (item.event_type) [
    | network_tx ↦ transmit w item
    | network_rx ↦ deliver_frame k e p s w item using_ip_task
    | other_event n ↦ deliver_frame k e p s w item using_ip_task
  ]

  -- The end of a round: the priority is computed anew where the queue is empty.
  unfoldable pub lower_priority : World k e → ℕ → Run (World k e)
  lower_priority w q =
      if c.has_dynamic_prio
      then (deref (w.net.queues q) >>= λ queue.
          if is_empty k queue
          then (compute_priority k c w.net >>= λ net. done (record w { net = net }))
          else done w)
      else done w

  -- A round of the inner loop; false is the `break`.
  unfoldable pub round : ℕ → Env → World k e → Run (World k e × Bool)
  unfolding handle lower_priority
  round depth env w = schedule k depth env w.net >>= λ (net, q).
      let w' = record w { net = net } in
      if q == 0
      then done (w', false)
      else (deref (net.queues q) >>= λ queue. pop k net q 0 >>= λ (net', popped).
          let w'' = record w { net = net' } in
          elim popped [
            | none ↦ done (w'', true)
            | some item ↦ handle w'' item (is_ip_task_events queue.policy) >>= λ w3.
                lower_priority w3 q >>= λ w4. done (w4, true)
          ])

  -- The inner loop, of at most so many rounds, with the depth of the tree of nodes.
  unfoldable pub drain : ℕ → ℕ → Env → World k e → Run (World k e)
  unfolding round
  drain zero depth env w = out_of_fuel
  drain (suc rounds) depth env w = round depth env w >>= λ (w', again).
      let rest = drain rounds depth env w' in if again then rest else done w'

  -- The time that the task sleeps before the inner loop, with
  -- `tsnconfigCONTROLLER_MAX_EVENT_WAIT`.
  unfoldable pub time_to_sleep : ℕ → ℕ → World k e → ℕ
  time_to_sleep max_wait now w = min (ticks_until_wakeup k now w.net) (k.ms_to_ticks max_wait)
