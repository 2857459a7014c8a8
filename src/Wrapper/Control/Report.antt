-- ===== src/Wrapper/Control/Report.antt =====
-- What a receiver reads back of the control messages that
-- source/portable/NetworkInterface/Common/NetworkWrapper.c attaches to a packet.
use free_rtos_tsn_compatibil.Prelude.{
  ℕ, ◌^◌, ◌<◌, ◌≡◌, ◌≢◌, refl, ◌∙◌, true, ==-of-≢, some, List, [], ◌∷◌, length, All, arith,
}
use free_rtos_tsn_compatibil.Kernel.{Kernel, PointerQueues}
use free_rtos_tsn_compatibil.State.{done}
use free_rtos_tsn_compatibil.Frame.{Platform}
use free_rtos_tsn_compatibil.Timebase.{Timespec}
use free_rtos_tsn_compatibil.Timebase.Handle.{
  TimebaseHandle, Timebase, initial, enabled, timebase_get_state, set_all, enabled_calls,
}
use free_rtos_tsn_compatibil.Timestamp.{
  ScmTimestamping, zero_time, timestamp_acquire_software, store_timestamping, load_timestamping,
  IsTimespec, length-store_timestamping, load-store_timestamping,
}
use free_rtos_tsn_compatibil.Memory.{Memory, Msghdr}
use free_rtos_tsn_compatibil.Ancillary.{ControlMessage, first_header}
use free_rtos_tsn_compatibil.Ancillary.Entries.{needed, total_space_lem, read_messages}
use free_rtos_tsn_compatibil.Ancillary.Control.{control_fill-read_messages}
use free_rtos_tsn_compatibil.Ancillary.Reading.{Fits}
use free_rtos_tsn_compatibil.World.{TsnSocket, World}
use free_rtos_tsn_compatibil.Sockets.{so_timestamping}
use free_rtos_tsn_compatibil.Wrapper.Control.{
  rx_software, sol_socket, retrieve_hardware_timestamp, timestamp_entry, fill_entries, rx_entries,
  control_fill_for_rx,
}

-- The timestamp with a time.
abbrev pub stamp : Timespec → ScmTimestamping
stamp now = record { software = now; unused = zero_time; hardware = zero_time }

module _ (p : Platform) where
  abbrev pub stamp_entry : Timespec → ControlMessage
  stamp_entry now = record {
    level = sol_socket;
    kind = so_timestamping;
    payload = store_timestamping p (stamp now);
  }

  pub timestamp_entry_lem :
      (time_of : ℕ → Timespec) (hs : List TimebaseHandle)
      → timebase_get_state (set_all initial hs) ≡ enabled
      → timestamp_entry p time_of (set_all initial hs)
        ≡ done (stamp_entry (time_of (set_all initial hs).handle.fn_get_time))
  unfolding timestamp_entry timestamp_acquire_software retrieve_hardware_timestamp
  timestamp_entry_lem time_of hs on = rw ((enabled_calls hs on).2) refl

  -- The message has these entries in its control buffer, in memory that the receiver can walk.
  pub record Reports (m : Memory) (msgh address flags : ℕ) (h : Msghdr) (cs : List ControlMessage)
      : Type 0 where
    pub bytes : List ℕ
    pub header :
        m.messages msgh
        ≡ some (record h { control = address; controllen = needed cs; flags = flags })
    pub held : m.bytes address ≡ some bytes
    pub walk : read_messages p (length cs) (first_header (needed cs)) (needed cs) bytes ≡ done cs

  pub fill_entries-Reports :
      (address : ℕ) (fresh : List ℕ) (m : Memory) (msgh : ℕ) (h : Msghdr) (c : ControlMessage)
      (cs : List ControlMessage)
      → msgh ≢ 0
      → address ≢ 0
      → m.messages msgh ≡ some h
      → needed (c ∷ cs) < 2 ^ 32
      → length fresh ≡ needed (c ∷ cs)
      → All Fits (c ∷ cs)
      → (m' : Memory) × (fill_entries p address fresh m msgh (c ∷ cs) ≡ done (m', length (c ∷ cs)))
        × Reports m' msgh address h.flags h (c ∷ cs)
  unfolding fill_entries
  fill_entries-Reports address fresh m msgh h c cs nm na there small room fits =
      let size = total_space_lem (c ∷ cs) 0 (omega arith) in
      let (m', bytes, run, header, held, walk) =
        control_fill-read_messages p address fresh m msgh h (c ∷ cs) nm na there small (omega arith)
          fits in
      (m', rw (run) refl, record { bytes = bytes; header = header; held = held; walk = walk })

  pub needed_stamp : (now : Timespec) → needed (stamp_entry now ∷ []) ≡ 36
  unfolding needed
  needed_stamp now = rw (length-store_timestamping p (stamp now)) refl

  module _ (k : Kernel) (e : PointerQueues) (time_of : ℕ → Timespec) where
    rx_run :
        (t : Timebase) (address : ℕ) (fresh : List ℕ) (w : World k e) (msgh tsn : ℕ)
        (socket : TsnSocket e) (entry : ControlMessage)
        → tsn ≢ 0
        → w.sockets tsn ≡ some socket
        → rx_software socket.ts_flags ≡ true
        → timebase_get_state t ≡ enabled
        → timestamp_entry p time_of t ≡ done entry
        → control_fill_for_rx p k e time_of t address fresh w msgh tsn
          ≡ fill_entries p address fresh w.memory msgh (entry ∷ [])
    unfolding control_fill_for_rx rx_entries
    rx_run t address fresh w msgh tsn socket entry nt allocated flag on made =
        rw (==-of-≢ tsn 0 nt, allocated, flag, on, made) refl

    -- For a socket with SOF_TIMESTAMPING_RX_SOFTWARE, on a timebase that calls of
    -- xTimebaseHandleSet enabled, whose time has fields of 32 bits, and with memory for the
    -- message and the entry: prvAncillaryMsgControlFillForRx ends without a fault and returns 1.
    -- The walk over the control buffer of the message then gives one entry, of FREERTOS_SOL_SOCKET
    -- and FREERTOS_SCM_TIMESTAMPING, whose data is the time, and a zero for the hardware.
    pub control_fill_for_rx-read :
        (hs : List TimebaseHandle) (address : ℕ) (fresh : List ℕ) (w : World k e) (msgh tsn : ℕ)
        (h : Msghdr) (socket : TsnSocket e)
        → msgh ≢ 0
        → address ≢ 0
        → tsn ≢ 0
        → w.memory.messages msgh ≡ some h
        → w.sockets tsn ≡ some socket
        → rx_software socket.ts_flags ≡ true
        → timebase_get_state (set_all initial hs) ≡ enabled
        → IsTimespec (time_of (set_all initial hs).handle.fn_get_time)
        → length fresh ≡ 36
        → (m : Memory) × (entry : ControlMessage) × (control_fill_for_rx p k e time_of
              (set_all initial hs)
              address
              fresh
              w
              msgh
              tsn
            ≡ done (m, 1))
          × Reports m msgh address h.flags h (entry ∷ [])
          × (entry.level ≡ 1)
          × (entry.kind ≡ 37)
          × (load_timestamping p entry.payload
              ≡ done (stamp (time_of (set_all initial hs).handle.fn_get_time)))
    control_fill_for_rx-read hs address fresh w msgh tsn h socket nm na nt there allocated flag on
          time room =
        let now = time_of (set_all initial hs).handle.fn_get_time in
        let size = needed_stamp now in
        let (m, run, reports) =
          fill_entries-Reports address fresh w.memory msgh h (stamp_entry now) [] nm na there
            (omega arith) (omega arith) ((omega arith, omega arith), tt) in
        (
          m,
          stamp_entry now,
          rx_run (set_all initial hs) address fresh w msgh tsn socket (stamp_entry now) nt allocated
                flag on (timestamp_entry_lem time_of hs on)
              ∙ run,
          reports,
          refl,
          refl,
          load-store_timestamping p (stamp now) time (omega arith, omega arith)
              (omega arith, omega arith),
        )
