-- ===== src/Sockets/Send/Disposal.antt =====
-- How the end of FreeRTOS_TSN_sendto (source/FreeRTOS_TSN_Sockets.c) disposes of the network
-- buffer, with the headers written.
use free_rtos_tsn_compatibil.Prelude.{
  ℕ, ◌+◌, ◌-◌, ◌≤◌, ◌≡◌, refl, inl, inr, Bool, true, false, ltb, Bool-cases, List, [], ◌∷◌, ◌++◌,
  length, All,
}
use free_rtos_tsn_compatibil.Kernel.{Kernel, PointerQueues}
use free_rtos_tsn_compatibil.State.{Config, State, done, update}
use free_rtos_tsn_compatibil.Scheduler.Choice.{IsQueue, Winner}
use free_rtos_tsn_compatibil.Scheduler.Insertion.{Pushed, insert_packet_by_filter_lem}
use free_rtos_tsn_compatibil.Bytes.Copy.{copy_in_within}
use free_rtos_tsn_compatibil.Frame.{Platform}
use free_rtos_tsn_compatibil.World.{
  NetworkBuffer, World, Effect, released, note, Outcome, returned, negative, Errno, einval, eagain,
  etimedout,
}
use free_rtos_tsn_compatibil.Sockets.Send.{IpConfig, Answers, tx_item, queue_frame, send_prepared}

module _ (k : Kernel) (e : PointerQueues) (c : Config) (p : Platform) (u : IpConfig) where
  -- The buffer is in the chosen queue and was not released, or it was released once and the queues
  -- are as they were.
  pub data Disposed (net : State k) (effects : List Effect) (buffer total : ℕ) (w' : World k e)
      (r : Outcome) : Type 0 where
    queued :
        r ≡ returned total
        → w'.effects ≡ effects
        → (q : Winner k net.queues (tx_item buffer) net.queue_list)
        → Pushed k c net q.address q.queue (tx_item buffer) w'.net
        → Disposed net effects buffer total w' r
    dropped :
        (n : Errno)
        → r ≡ negative n
        → w'.effects ≡ effects ++ (released buffer ∷ [])
        → w'.net ≡ net
        → Disposed net effects buffer total w' r

  queue_frame_lem :
      (w : World k e) (a : Answers) (total : ℕ)
      → All (IsQueue k w.net.queues (tx_item a.buffer)) w.net.queue_list
      → (w' : World k e) × (r : Outcome) × (queue_frame k e c p u w a total ≡ done (w', r))
        × Disposed w.net w.effects a.buffer total w' r
  unfolding queue_frame
  queue_frame_lem w a total h = elim (Bool-cases a.timed_out) [
    | inl late ↦ (
      note k e w (released a.buffer),
      negative etimedout,
      rw (late) refl,
      dropped etimedout refl refl refl,
    )
    | inr early ↦
        elim (insert_packet_by_filter_lem k c w.net (tx_item a.buffer) a.remaining_time h) [
          | inl (run, unmatched) ↦ (
            note k e w (released a.buffer),
            negative eagain,
            rw (early, run) refl,
            dropped eagain refl refl refl,
          )
          | inr (q, inl (net', run, pushed)) ↦ (
            record w { net = net' },
            returned total,
            rw (early, run) refl,
            queued refl refl q pushed,
          )
          | inr (q, inr run) ↦ (
            note k e w (released a.buffer),
            negative eagain,
            rw (early, run) refl,
            dropped eagain refl refl refl,
          )
        ]
  ]

  pub send_prepared_lem :
      (w : World k e) (a : Answers) (payload : List ℕ) (buf : NetworkBuffer) (bytes : List ℕ)
      (prepared : Bool)
      → All (IsQueue k w.net.queues (tx_item a.buffer)) w.net.queue_list
      → 42 + length payload ≤ length bytes
      → (w' : World k e) × (r : Outcome) × (send_prepared k e c p u w a payload
            (buf, bytes, prepared)
          ≡ done (w', r))
        × Disposed w.net w.effects a.buffer (length payload) w' r
  unfolding send_prepared
  send_prepared_lem w a payload buf bytes false h room = (_, _, refl, dropped eagain refl refl refl)
  send_prepared_lem w a payload buf bytes true h room =
      elim (Bool-cases (ltb (u.network_mtu - 28) (length payload))) [
        | inl large ↦
            let w' = record w {
              buffers = update w.buffers a.buffer buf;
              memory = record (w.memory) { bytes = update w.memory.bytes buf.ethernet bytes };
            } in
            (
              note k e w' (released a.buffer),
              negative einval,
              rw (large) refl,
              dropped einval refl refl refl,
            )
        | inr small ↦
            let (bytes', copied, len) = copy_in_within 42 payload bytes room in
            let (w', r, run, disposed) =
              queue_frame_lem
                (record w {
                  buffers = update w.buffers a.buffer buf;
                  memory = record (w.memory) {
                    bytes = update (update w.memory.bytes buf.ethernet bytes) buf.ethernet bytes';
                  };
                })
                a (length payload) h in
            (w', r, rw (small, copied) run, disposed)
      ]
