-- ===== src/Wrapper/Control/Status.antt =====
-- What a sender reads back, from the error queue of its socket, of the report on a packet that
-- source/portable/NetworkInterface/Common/NetworkWrapper.c attaches to it.
use free_rtos_tsn_compatibil.Prelude.{
  ℕ, ◌^◌, ◌<◌, ◌≡◌, ◌≢◌, refl, true, ==-same, if◌then◌else◌, some, List, [], ◌∷◌, length, get_elem?,
  arith,
}
use free_rtos_tsn_compatibil.Kernel.{Kernel, PointerQueues}
use free_rtos_tsn_compatibil.State.{Run, done, ◌>>=◌, deref, update}
use free_rtos_tsn_compatibil.Bytes.{copy_out}
use free_rtos_tsn_compatibil.Frame.{Platform, store32}
use free_rtos_tsn_compatibil.Timebase.{Timespec}
use free_rtos_tsn_compatibil.Timebase.Handle.{
  TimebaseHandle, Timebase, initial, enabled, timebase_get_state, set_all,
}
use free_rtos_tsn_compatibil.Timestamp.{
  load_timestamping, IsTimespec, length-store_timestamping, load-store_timestamping,
}
use free_rtos_tsn_compatibil.Memory.{Memory, Msghdr}
use free_rtos_tsn_compatibil.Ancillary.{ControlMessage}
use free_rtos_tsn_compatibil.Ancillary.Entries.{needed}
use free_rtos_tsn_compatibil.World.{BaseSocket, TsnSocket, World}
use free_rtos_tsn_compatibil.Wrapper.Control.{
  tx_software, set_errqueue, sol_ip, sol_ipv6, ip_recverr, ipv6_recverr, ExtendedErr, tx_status,
  store_extended_err, timestamp_entry, fill_entries, tx_entries, control_fill_for_tx,
}
use free_rtos_tsn_compatibil.Wrapper.Control.Report.{
  stamp, stamp_entry, timestamp_entry_lem, Reports, fill_entries-Reports,
}

module _ (p : Platform) where
  -- How a receiver reads the struct.
  unfoldable pub load_extended_err : List ℕ → Run ExtendedErr
  load_extended_err bytes = copy_out 0 4 bytes >>= λ errno. deref (get_elem? bytes 4) >>= λ origin.
      deref (get_elem? bytes 5) >>= λ type'. deref (get_elem? bytes 6) >>= λ code.
      deref (get_elem? bytes 7) >>= λ pad. copy_out 8 4 bytes >>= λ info.
      copy_out 12 4 bytes >>= λ extra. done (record {
        ee_errno = p.load32 errno;
        ee_origin = origin;
        ee_type = type';
        ee_code = code;
        ee_pad = pad;
        ee_info = p.load32 info;
        ee_data = p.load32 extra;
      })

  load-store_extended_err :
      (x : ExtendedErr)
      → x.ee_errno < 2 ^ 32
      → x.ee_info < 2 ^ 32
      → x.ee_data < 2 ^ 32
      → load_extended_err (store_extended_err p x) ≡ done x
  unfolding load_extended_err store_extended_err store32 copy_out
  load-store_extended_err x a b c =
      rw (p.load_bytes32 x.ee_errno a, p.load_bytes32 x.ee_info b, p.load_bytes32 x.ee_data c) refl

  abbrev pub status_entry : BaseSocket → ExtendedErr → ControlMessage
  status_entry base garbage = record {
    level = if base.is_ipv6 then sol_ipv6 else sol_ip;
    kind = if base.is_ipv6 then ipv6_recverr else ip_recverr;
    payload = store_extended_err p (tx_status garbage);
  }

  length-store_extended_err : (x : ExtendedErr) → length (store_extended_err p x) ≡ 16
  unfolding store_extended_err store32
  length-store_extended_err x = refl

  needed_status :
      (base : BaseSocket) (garbage : ExtendedErr) (now : Timespec)
      → needed (status_entry base garbage ∷ stamp_entry p now ∷ []) ≡ 64
  unfolding needed
  needed_status base garbage now =
      rw (length-store_timestamping p (stamp now), length-store_extended_err (tx_status garbage))
        refl

  load_status :
      (garbage : ExtendedErr)
      → load_extended_err (store_extended_err p (tx_status garbage)) ≡ done (tx_status garbage)
  unfolding tx_status
  load_status garbage =
      load-store_extended_err (tx_status garbage) (omega arith) (omega arith) (omega arith)

  module _ (k : Kernel) (e : PointerQueues) (time_of : ℕ → Timespec) where
    tx_run :
        (t : Timebase) (garbage : ExtendedErr) (address : ℕ) (fresh : List ℕ) (w : World k e)
        (msgh tsn : ℕ) (h : Msghdr) (socket : TsnSocket e) (base : BaseSocket)
        (entry : ControlMessage) (m : Memory)
        → w.sockets tsn ≡ some socket
        → w.bases socket.base ≡ some base
        → tx_software socket.ts_flags ≡ true
        → timestamp_entry p time_of t ≡ done entry
        → fill_entries p address fresh w.memory msgh (status_entry base garbage ∷ entry ∷ [])
          ≡ done (m, 2)
        → m.messages msgh ≡ some h
        → control_fill_for_tx p k e time_of t garbage address fresh w msgh tsn
          ≡ done (
            record m {
              messages = update m.messages msgh (record h { flags = set_errqueue h.flags });
            },
            2,
          )
    unfolding control_fill_for_tx tx_entries
    tx_run t garbage address fresh w msgh tsn h socket base entry m there below flag made run
          header =
        rw (there, flag, below, made, run, header) refl

    -- The report holds also after the flag was set.
    flagged :
        (m : Memory) (msgh address : ℕ) (h : Msghdr) (cs : List ControlMessage)
        (r : Reports p m msgh address h.flags h cs)
        → Reports p
            (record m {
              messages = update m.messages msgh (record h {
                control = address;
                controllen = needed cs;
                flags = set_errqueue h.flags;
              });
            })
            msgh
            address
            (set_errqueue h.flags)
            h
            cs
    flagged m msgh address h cs r = record {
      bytes = r.bytes;
      header = rw (==-same msgh) refl;
      held = r.held;
      walk = r.walk;
    }

    -- For a socket with SOF_TIMESTAMPING_TX_SOFTWARE and its base socket, on a timebase that calls
    -- of xTimebaseHandleSet enabled, whose time has fields of 32 bits, and with memory for the
    -- message and the entries: prvAncillaryMsgControlFillForTx ends without a fault, returns 2,
    -- and marks the message with FREERTOS_MSG_ERRQUEUE. The walk over the control buffer of the
    -- message then gives two entries: a sock_extended_err that says ENOMSG, from
    -- SO_EE_ORIGIN_TXSTATUS, with SCM_TSTAMP_SND, of the level and the type for the version of IP
    -- of the socket, and behind it the time as FREERTOS_SCM_TIMESTAMPING. The three bytes of the
    -- first that the code does not write are what they were.
    pub control_fill_for_tx-read :
        (hs : List TimebaseHandle) (garbage : ExtendedErr) (address : ℕ) (fresh : List ℕ)
        (w : World k e) (msgh tsn : ℕ) (h : Msghdr) (socket : TsnSocket e) (base : BaseSocket)
        → msgh ≢ 0
        → address ≢ 0
        → w.memory.messages msgh ≡ some h
        → w.sockets tsn ≡ some socket
        → w.bases socket.base ≡ some base
        → tx_software socket.ts_flags ≡ true
        → timebase_get_state (set_all initial hs) ≡ enabled
        → IsTimespec (time_of (set_all initial hs).handle.fn_get_time)
        → length fresh ≡ 64
        → (m : Memory) × (err : ControlMessage) × (entry : ControlMessage) × (control_fill_for_tx p
              k e time_of
              (set_all initial hs)
              garbage
              address
              fresh
              w
              msgh
              tsn
            ≡ done (m, 2))
          × Reports p m msgh address (set_errqueue h.flags) h (err ∷ entry ∷ [])
          × (err.level ≡ (if base.is_ipv6 then 41 else 0))
          × (err.kind ≡ (if base.is_ipv6 then 25 else 11))
          × (load_extended_err err.payload
              ≡ done (record garbage { ee_errno = 42; ee_origin = 4; ee_info = 0; ee_data = 0 }))
          × (entry.level ≡ 1)
          × (entry.kind ≡ 37)
          × (load_timestamping p entry.payload
              ≡ done (stamp (time_of (set_all initial hs).handle.fn_get_time)))
    unfolding tx_status
    control_fill_for_tx-read hs garbage address fresh w msgh tsn h socket base nm na there allocated
          below flag on time room =
        let now = time_of (set_all initial hs).handle.fn_get_time in
        let size = needed_status base garbage now in
        let (m, run, reports) =
          fill_entries-Reports p address fresh w.memory msgh h (status_entry base garbage)
            (stamp_entry p now ∷ []) nm na there (omega arith) (omega arith)
            ((ground arith, ground arith), ((omega arith, omega arith), tt)) in
        (
          _,
          status_entry base garbage,
          stamp_entry p now,
          tx_run (set_all initial hs) garbage address fresh w msgh tsn _ socket base
              (stamp_entry p now) m allocated below flag (timestamp_entry_lem p time_of hs on) run
              reports.header,
          flagged m msgh address h _ reports,
          refl,
          refl,
          load_status garbage,
          refl,
          refl,
          load-store_timestamping p (stamp now) time (omega arith, omega arith)
              (omega arith, omega arith),
        )
