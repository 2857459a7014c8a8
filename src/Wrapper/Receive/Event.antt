-- ===== src/Wrapper/Receive/Event.antt =====
-- The event of a received frame, xSendEventStructToTSNController of
-- source/portable/NetworkInterface/Common/NetworkWrapper.c: the item is inserted into a queue, and
-- what becomes of it and of the message where it is not.
use free_rtos_tsn_compatibil.Prelude.{
  ℕ, ◌≡◌, ◌≢◌, ◌⊎◌, inl, inr, refl, ==-of-≢, Bool, true, false, Option, some, List, All,
}
use free_rtos_tsn_compatibil.Kernel.{Kernel, PointerQueues, Item, network_rx}
use free_rtos_tsn_compatibil.State.{Config, State, done}
use free_rtos_tsn_compatibil.Frame.{Platform}
use free_rtos_tsn_compatibil.Timebase.Handle.{TimebaseHandle, initial, set_all}
use free_rtos_tsn_compatibil.Memory.{Msghdr}
use free_rtos_tsn_compatibil.World.{NetworkBuffer, TsnSocket, World}
use free_rtos_tsn_compatibil.Scheduler.{insert_packet_by_filter}
use free_rtos_tsn_compatibil.Scheduler.Choice.{IsQueue, Winner}
use free_rtos_tsn_compatibil.Scheduler.Insertion.{Pushed, insert_packet_by_filter_lem}
use free_rtos_tsn_compatibil.Wrapper.Receive.{
  Granted, Surroundings, handle_receive, send_event_to_controller,
}
use free_rtos_tsn_compatibil.Wrapper.Receive.Frames.{Fields, destination_of, Arrived}
use free_rtos_tsn_compatibil.Wrapper.Receive.Accepted.{
  Listens, IsGranted, rx_item, handle_receive_lem,
}

module _ (p : Platform) (s : Surroundings) (k : Kernel) (e : PointerQueues) (c : Config) where
  event_run :
      (g : Granted) (takes : Bool) (w w' : World k e) (items items' : ℕ → Option Item)
      (b timeout : ℕ) (item : Item) (net : State k) (ok : Bool)
      → g.item ≢ 0
      → handle_receive p s k e g w items b ≡ done (w', items', g.item)
      → items' g.item ≡ some item
      → w'.net ≡ w.net
      → insert_packet_by_filter k c w.net item timeout ≡ done (net, ok)
      → send_event_to_controller p s k e c g takes w items network_rx b timeout
        ≡ done (record w' { net = net }, items', ok)
  unfolding send_event_to_controller
  event_run g takes w w' items items' b timeout item net ok ni run there same inserted =
      rw (run, ==-of-≢ g.item 0 ni, there, same, inserted) refl

  -- The insertion put the item into the chosen queue, and the call returns pdPASS; or it changed
  -- nothing, and the call returns pdFAIL.
  abbrev pub Inserts : State k → Item → State k → Bool → Type 0
  Inserts net item net' ok =
      ((ok ≡ true)
        × ((x : Winner k net.queues item net.queue_list) × Pushed k c net x.address x.queue item
              net'))
      ⊎ ((ok ≡ false) × (net' ≡ net))

  pub inserted_cases :
      (net : State k) (item : Item) (t : ℕ)
      → All (IsQueue k net.queues item) net.queue_list
      → (net' : State k) × (ok : Bool) × (insert_packet_by_filter k c net item t ≡ done (net', ok))
        × Inserts net item net' ok
  inserted_cases net item t h = elim (insert_packet_by_filter_lem k c net item t h) [
    | inl (run, unmatched) ↦ (net, false, run, inr (refl, refl))
    | inr (x, inl (net', run, pushed)) ↦ (net', true, run, inl (refl, (x, pushed)))
    | inr (x, inr run) ↦ (net, false, run, inr (refl, refl))
  ]

  -- For a frame for a TSN socket as in handle_receive_lem, whose datagram stands behind just as
  -- many VLAN tags as ucGetNumberOfTags counts, and queues that are allocated and can be tested:
  -- xSendEventStructToTSNController ends without a fault. It returns pdPASS where the item was
  -- appended to the first matching queue of the highest priority, and pdFAIL where the queues are
  -- as they were. In both cases the memory of the item stays allocated, and the message too, also
  -- where no queue took it, and the descriptor is neither released nor handed to other code.
  pub send_event_lem :
      (hs : List TimebaseHandle) (g : Granted) (takes : Bool) (w : World k e)
      (items : ℕ → Option Item) (b timeout : ℕ) (buf : NetworkBuffer) (bytes : List ℕ) (n : ℕ)
      (f : Fields) (base tsn : ℕ) (socket : TsnSocket e)
      → s.timebase ≡ set_all initial hs
      → Arrived p s k e w b buf bytes n f
      → destination_of p f ≢ 0
      → Listens k e w (destination_of p f) base tsn socket
      → IsGranted g buf.ethernet
      → All (IsQueue k w.net.queues (rx_item b g.message)) w.net.queue_list
      → (w' : World k e) × (items' : ℕ → Option Item) × (ok : Bool) × (send_event_to_controller p s
            k e c g takes w items network_rx b timeout
          ≡ done (w', items', ok))
        × Inserts w.net (rx_item b g.message) w'.net ok
        × (items' g.item ≡ some (rx_item b g.message))
        × ((h : Msghdr) × (w'.memory.messages g.message ≡ some h))
        × (w'.effects ≡ w.effects)
  send_event_lem hs g takes w items b timeout buf bytes n f base tsn socket timed x np l room
        queues =
      let (w', items', run, a) =
        handle_receive_lem p s k e hs g w items b buf bytes n f base tsn socket timed x np l room in
      let (net, ok, inserted, cases) = inserted_cases w.net (rx_item b g.message) timeout queues in
      (
        record w' { net = net },
        items',
        ok,
        event_run g takes w w' items items' b timeout (rx_item b g.message) net ok room.item run
            a.item a.same_net inserted,
        cases,
        a.item,
        (a.message.hdr, a.message.header),
        a.same_effects,
      )
