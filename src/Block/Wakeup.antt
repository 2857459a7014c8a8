-- ===== src/Block/Wakeup.antt =====
-- The wakeup time that schedulers suggest to the controller
-- (source/FreeRTOS_TSN_NetworkSchedulerBlock.c).
use free_rtos_tsn_compatibil.Prelude.{ℕ, ◌-◌, ◌≤◌, ◌<◌, min, ◌≡◌, arith}
use free_rtos_tsn_compatibil.Kernel.{Kernel}
use free_rtos_tsn_compatibil.State.{State}
use free_rtos_tsn_compatibil.Block.{ticks_until_wakeup, add_wakeup_event}

module _ (k : Kernel) (now : ℕ) (st : State k) (time : ℕ) where
  -- A wakeup that is added for a later tick, no further away than portMAX_DELAY, makes the ticks
  -- until the wakeup the lesser of the distance to it and of what they were: no wakeup that was
  -- pending is lost or put off.
  pub ticks_until_wakeup-add :
      now < time
      → time - now ≤ k.max_delay
      → ticks_until_wakeup k now (add_wakeup_event k now st time)
        ≡ min (time - now) (ticks_until_wakeup k now st)
  unfolding ticks_until_wakeup add_wakeup_event
  ticks_until_wakeup-add later near = ground arith

  -- A wakeup that is added for a tick that has passed takes the place of one that is pending:
  -- after it the controller sees none.
  pub ticks_until_wakeup-add_past :
      time ≤ now
      → now < st.next_wakeup
      → ticks_until_wakeup k now (add_wakeup_event k now st time) ≡ k.max_delay
  unfolding ticks_until_wakeup add_wakeup_event
  ticks_until_wakeup-add_past past pending = ground arith
