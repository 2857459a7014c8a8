-- ===== src/Wrapper/Control.antt =====
-- source/portable/NetworkInterface/Common/NetworkWrapper.c: the control messages that go with a
-- packet that was received or sent.
pub mod Report
pub mod Status
use free_rtos_tsn_compatibil.Prelude.{
  ℕ, ◌+◌, ◌/◌, ◌%◌, ◌^◌, Bool, true, false, ◌==◌, ◌&&◌, if◌then◌else◌, List, [], ◌∷◌, ◌++◌, length,
}
use free_rtos_tsn_compatibil.Kernel.{Kernel, PointerQueues}
use free_rtos_tsn_compatibil.State.{Run, done, ◌>>=◌, deref, update}
use free_rtos_tsn_compatibil.Frame.{Platform, store32}
use free_rtos_tsn_compatibil.Timebase.{Timespec}
use free_rtos_tsn_compatibil.Timebase.Handle.{
  TimebaseState, not_initialised, disabled, enabled, Timebase, timebase_get_state,
}
use free_rtos_tsn_compatibil.Timestamp.{zero_time, timestamp_acquire_software, store_timestamping}
use free_rtos_tsn_compatibil.Memory.{Memory}
use free_rtos_tsn_compatibil.Ancillary.{ControlMessage, control_fill}
use free_rtos_tsn_compatibil.World.{World}
use free_rtos_tsn_compatibil.Sockets.{so_timestamping}

-- `SOF_TIMESTAMPING_TX_SOFTWARE` and `SOF_TIMESTAMPING_RX_SOFTWARE` are the bits 1 and 3.
abbrev pub tx_software : ℕ → Bool
tx_software flags = flags / 2 % 2 == 1

abbrev pub rx_software : ℕ → Bool
rx_software flags = flags / 8 % 2 == 1

-- `flags | FREERTOS_MSG_ERRQUEUE`.
abbrev pub set_errqueue : ℕ → ℕ
set_errqueue flags = if flags / 16384 % 2 == 1 then flags else flags + 16384

abbrev pub is_enabled : TimebaseState → Bool
is_enabled not_initialised = false
is_enabled disabled = false
is_enabled enabled = true

-- `FREERTOS_SOL_SOCKET`, `FREERTOS_SOL_IP`, `FREERTOS_SOL_IPV6`, `FREERTOS_IP_RECVERR` and
-- `FREERTOS_IPV6_RECVERR`.
abbrev pub sol_socket : ℕ
sol_socket = 1

abbrev pub sol_ip : ℕ
sol_ip = 0

abbrev pub sol_ipv6 : ℕ
sol_ipv6 = 41

abbrev pub ip_recverr : ℕ
ip_recverr = 11

abbrev pub ipv6_recverr : ℕ
ipv6_recverr = 25

-- `struct sock_extended_err`.
pub record ExtendedErr : Type 0 where
  pub ee_errno : ℕ
  pub ee_origin : ℕ
  pub ee_type : ℕ
  pub ee_code : ℕ
  pub ee_pad : ℕ
  pub ee_info : ℕ
  pub ee_data : ℕ

-- `vRetrieveHardwareTimestamp`, which writes two zeros.
unfoldable pub retrieve_hardware_timestamp : Timespec
retrieve_hardware_timestamp = record { tv_sec = 0; tv_nsec = 0 }

-- The struct that the transmit side reports: ENOMSG, SO_EE_ORIGIN_TXSTATUS and SCM_TSTAMP_SND. The
-- three bytes that are not written hold what `garbage` has.
unfoldable pub tx_status : ExtendedErr → ExtendedErr
tx_status garbage = record garbage { ee_errno = 42; ee_origin = 4; ee_info = 0; ee_data = 0 }

module _ (p : Platform) where
  unfoldable pub store_extended_err : ExtendedErr → List ℕ
  store_extended_err x =
      store32 p x.ee_errno
      ++ ((x.ee_origin ∷ x.ee_type ∷ x.ee_code ∷ x.ee_pad ∷ [])
          ++ (store32 p x.ee_info ++ store32 p x.ee_data))

  -- The entry with the time, whose function is not NULL.
  unfoldable pub timestamp_entry : (ℕ → Timespec) → Timebase → Run ControlMessage
  unfolding retrieve_hardware_timestamp
  timestamp_entry time_of t = timestamp_acquire_software time_of t >>= λ now. done (record {
    level = sol_socket;
    kind = so_timestamping;
    payload =
        store_timestamping p
          (record { software = now; unused = zero_time; hardware = retrieve_hardware_timestamp });
  })

  -- The end of both functions: the entries are written, or the fields are cleared where there are
  -- none. The number of entries, or 0 where there is no memory.
  unfoldable pub fill_entries : ℕ → List ℕ → Memory → ℕ → List ControlMessage → Run (Memory × ℕ)
  fill_entries address fresh m msgh [] = deref (m.messages msgh) >>= λ h.
      done (
        record m { messages = update m.messages msgh (record h { control = 0; controllen = 0 }) },
        0,
      )
  fill_entries address fresh m msgh (c ∷ cs) =
      control_fill p address fresh m msgh (c ∷ cs) >>= λ (m', filled).
      done (if filled then (m', length (c ∷ cs)) else (m', 0))

  module _ (k : Kernel) (e : PointerQueues) (time_of : ℕ → Timespec) (t : Timebase) where
    -- The options of the socket, where it is not NULL.
    unfoldable pub rx_entries : World k e → ℕ → Run (List ControlMessage)
    rx_entries w tsn =
        if tsn == 0
        then done []
        else (deref (w.sockets tsn) >>= λ socket.
            if rx_software socket.ts_flags && is_enabled (timebase_get_state t)
            then (timestamp_entry time_of t >>= λ entry. done (entry ∷ []))
            else done [])

    -- `prvAncillaryMsgControlFillForRx`. The memory for the entries is at `address`, and holds
    -- `fresh`.
    unfoldable pub control_fill_for_rx : ℕ → List ℕ → World k e → ℕ → ℕ → Run (Memory × ℕ)
    unfolding rx_entries fill_entries
    control_fill_for_rx address fresh w msgh tsn =
        rx_entries w tsn >>= λ cs. fill_entries address fresh w.memory msgh cs

    -- The socket is read for its base socket before the test, so that NULL is a fault.
    unfoldable pub tx_entries : ExtendedErr → World k e → ℕ → Run (List ControlMessage)
    tx_entries garbage w tsn = deref (w.sockets tsn) >>= λ socket.
        if tx_software socket.ts_flags
        then (deref (w.bases socket.base) >>= λ base. timestamp_entry time_of t >>= λ entry.
            let err : ControlMessage = record {
              level = if base.is_ipv6 then sol_ipv6 else sol_ip;
              kind = if base.is_ipv6 then ipv6_recverr else ip_recverr;
              payload = store_extended_err (tx_status garbage);
            } in
            done (err ∷ entry ∷ []))
        else done []

    -- `prvAncillaryMsgControlFillForTx`.
    unfoldable pub control_fill_for_tx :
        ExtendedErr → ℕ → List ℕ → World k e → ℕ → ℕ → Run (Memory × ℕ)
    unfolding tx_entries fill_entries
    control_fill_for_tx garbage address fresh w msgh tsn = tx_entries garbage w tsn >>= λ cs.
        fill_entries address fresh w.memory msgh cs >>= λ (m, n).
        if n == 0
        then done (m, 0)
        else (deref (m.messages msgh) >>= λ h. done (
          record m {
            messages = update m.messages msgh (record h { flags = set_errqueue h.flags });
          },
          n,
        ))
