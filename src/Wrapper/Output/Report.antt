-- ===== src/Wrapper/Output/Report.antt =====
-- The report that follows the output of a packet by the task of the TSN controller, in
-- source/portable/NetworkInterface/Common/NetworkWrapper.c.
use free_rtos_tsn_compatibil.Prelude.{
  ℕ, ◌≡◌, ◌≢◌, refl, ==-of-≢, ==-same, true, false, if◌then◌else◌, Option, none, some, List, [],
  ◌∷◌, length, arith,
}
use free_rtos_tsn_compatibil.Kernel.{Kernel, PointerQueues}
use free_rtos_tsn_compatibil.State.{done, update, release}
use free_rtos_tsn_compatibil.Frame.{Platform}
use free_rtos_tsn_compatibil.Timebase.Handle.{
  TimebaseHandle, initial, enabled, timebase_get_state, set_all,
}
use free_rtos_tsn_compatibil.Timestamp.{IsTimespec, load_timestamping}
use free_rtos_tsn_compatibil.Memory.{Memory, Msghdr, cleared, free_message}
use free_rtos_tsn_compatibil.Ancillary.{ControlMessage, msg_malloc, msg_free, msg_fill_name}
use free_rtos_tsn_compatibil.Ancillary.Entries.{needed}
use free_rtos_tsn_compatibil.World.{NetworkBuffer, BaseSocket, TsnSocket, World}
use free_rtos_tsn_compatibil.Sockets.{socket_from_port, error_queue_insert}
use free_rtos_tsn_compatibil.Wrapper.Control.{
  tx_software, ExtendedErr, fill_entries, tx_entries, control_fill_for_tx,
}
use free_rtos_tsn_compatibil.Wrapper.Control.Report.{stamp, Reports}
use free_rtos_tsn_compatibil.Wrapper.Control.Status.{load_extended_err, control_fill_for_tx-read}
use free_rtos_tsn_compatibil.Wrapper.Receive.{Granted, Surroundings}
use free_rtos_tsn_compatibil.State.Heap.{read_back}
use free_rtos_tsn_compatibil.Wrapper.Receive.Messages.{wiped}
use free_rtos_tsn_compatibil.Wrapper.Receive.Accepted.{Listens, socket_from_port-Listens}
use free_rtos_tsn_compatibil.Wrapper.Output.{report_sent}

module _ (p : Platform) (s : Surroundings) (k : Kernel) (e : PointerQueues) where
  -- The state after the message was put into the error queue, if the queue took it.
  abbrev pub reported : World k e → Memory → ℕ → ℕ → TsnSocket e → World k e
  reported w m msgh tsn socket = record w {
    memory = m;
    sockets =
        update w.sockets tsn (record socket { err_queue = (e.send socket.err_queue msgh 0).0 });
  }

  unnamed : Memory → ℕ → Msghdr → Memory
  unnamed m msgh h = record m {
    messages = update m.messages msgh (record h { name = 0; namelen = 0 });
  }

  report_run :
      (g : Granted) (garbage : ExtendedErr) (w : World k e) (b base tsn n : ℕ) (buf : NetworkBuffer)
      (socket : TsnSocket e) (m : Memory) (h : Msghdr)
      → w.buffers b ≡ some buf
      → socket_from_port k e s.lookup w buf.bound_port ≡ done (some (base, tsn))
      → tsn ≢ 0
      → w.sockets tsn ≡ some socket
      → g.message ≢ 0
      → n ≢ 0
      → control_fill_for_tx p k e s.time_of s.timebase garbage g.control g.control_bytes
          (record w {
            memory = record w.memory { messages = update w.memory.messages g.message cleared };
          })
          g.message
          tsn
        ≡ done (m, n)
      → m.messages g.message ≡ some h
      → report_sent p s k e g garbage w b
        ≡ done (reported w (unnamed m g.message h) g.message tsn socket)
  unfolding report_sent msg_malloc msg_fill_name error_queue_insert unnamed
  report_run g garbage w b base tsn n buf socket m h there found nt allocated nm nn filled header =
      rw
        (
          there,
          found,
          ==-of-≢ tsn 0 nt,
          ==-of-≢ g.message 0 nm,
          filled,
          ==-of-≢ n 0 nn,
          header,
          allocated,
        )
        refl

  report_none :
      (g : Granted) (garbage : ExtendedErr) (w : World k e) (b base tsn : ℕ) (buf : NetworkBuffer)
      (m : Memory) (h : Msghdr)
      → w.buffers b ≡ some buf
      → socket_from_port k e s.lookup w buf.bound_port ≡ done (some (base, tsn))
      → tsn ≢ 0
      → g.message ≢ 0
      → control_fill_for_tx p k e s.time_of s.timebase garbage g.control g.control_bytes
          (record w {
            memory = record w.memory { messages = update w.memory.messages g.message cleared };
          })
          g.message
          tsn
        ≡ done (m, 0)
      → m.messages g.message ≡ some h
      → report_sent p s k e g garbage w b
        ≡ done (record w { memory = record m { messages = release m.messages g.message } })
  unfolding report_sent msg_malloc msg_free free_message
  report_none g garbage w b base tsn buf m h there found nt nm filled header =
      rw (there, found, ==-of-≢ tsn 0 nt, ==-of-≢ g.message 0 nm, filled, header) refl

  unnamed-Reports :
      (m : Memory) (msgh address flags : ℕ) (cs : List ControlMessage) (header : Msghdr)
      → header ≡ record cleared { control = address; controllen = needed cs; flags = flags }
      → Reports p m msgh address flags cleared cs
      → Reports p (unnamed m msgh header) msgh address flags cleared cs
  unfolding unnamed
  unnamed-Reports m msgh address flags cs header same r = record {
    bytes = r.bytes;
    header = rw (same, ==-same msgh) refl;
    held = r.held;
    walk = r.walk;
  }

  -- The control messages of a report: a status and a time.
  pub record Status (err entry : ControlMessage) (base : BaseSocket) (garbage : ExtendedErr)
      (hs : List TimebaseHandle) : Type 0 where
    pub level : err.level ≡ (if base.is_ipv6 then 41 else 0)
    pub kind : err.kind ≡ (if base.is_ipv6 then 25 else 11)
    pub report :
        load_extended_err p err.payload
        ≡ done (record garbage { ee_errno = 42; ee_origin = 4; ee_info = 0; ee_data = 0 })
    pub entry_level : entry.level ≡ 1
    pub entry_kind : entry.kind ≡ 37
    pub time :
        load_timestamping p entry.payload
        ≡ done (stamp (s.time_of (set_all initial hs).handle.fn_get_time))

  -- What there is in the allocator for a report.
  pub record IsReportable (g : Granted) (hs : List TimebaseHandle) : Type 0 where
    pub message : g.message ≢ 0
    pub control : g.control ≢ 0
    pub room : length g.control_bytes ≡ 64
    pub timed : s.timebase ≡ set_all initial hs
    pub on : timebase_get_state (set_all initial hs) ≡ enabled
    pub time : IsTimespec (s.time_of (set_all initial hs).handle.fn_get_time)

  pub report_sent_lem :
      (hs : List TimebaseHandle) (g : Granted) (garbage : ExtendedErr) (w : World k e)
      (b base tsn : ℕ) (buf : NetworkBuffer) (socket : TsnSocket e) (below : BaseSocket)
      → w.buffers b ≡ some buf
      → Listens k e w buf.bound_port base tsn socket
      → tx_software socket.ts_flags ≡ true
      → w.bases socket.base ≡ some below
      → IsReportable g hs
      → (m : Memory) × (err : ControlMessage) × (entry : ControlMessage) × (report_sent p s k e g
            garbage w b
          ≡ done (reported w m g.message tsn socket))
        × Reports p m g.message g.control 16384 cleared (err ∷ entry ∷ [])
        × Status err entry below garbage hs
  report_sent_lem hs g garbage w b base tsn buf socket below there l flag base_there x =
      let w1 = record w {
        memory = record w.memory { messages = update w.memory.messages g.message cleared };
      } in
      let (m, err, entry, run, reports, c1, c2, c3, c4, c5, c6) =
        control_fill_for_tx-read p k e s.time_of hs garbage g.control g.control_bytes w1 g.message
          tsn cleared socket below x.message x.control
          (read_back w.memory.messages g.message cleared) l.allocated base_there flag x.on x.time
          x.room in
      (
        _,
        err,
        entry,
        report_run g garbage w b base tsn 2 buf socket m _ there
            (socket_from_port-Listens k e s.lookup w w buf.bound_port base tsn socket refl refl l)
            l.not_null l.allocated x.message (omega arith) (rw (x.timed) run) reports.header,
        unnamed-Reports m g.message g.control 16384 (err ∷ entry ∷ []) _ refl reports,
        record { level = c1; kind = c2; report = c3; entry_level = c4; entry_kind = c5; time = c6 },
      )

  no_entries :
      (garbage : ExtendedErr) (address : ℕ) (fresh : List ℕ) (w : World k e) (msgh tsn : ℕ)
      (h : Msghdr) (socket : TsnSocket e)
      → w.sockets tsn ≡ some socket
      → tx_software socket.ts_flags ≡ false
      → w.memory.messages msgh ≡ some h
      → control_fill_for_tx p k e s.time_of s.timebase garbage address fresh w msgh tsn
        ≡ done (wiped w.memory msgh h, 0)
  unfolding control_fill_for_tx tx_entries fill_entries
  no_entries garbage address fresh w msgh tsn h socket allocated unset there =
      rw (allocated, unset, there) refl

  -- For a socket that asks for no report, the message is made and freed.
  pub report_sent-Unset :
      (g : Granted) (garbage : ExtendedErr) (w : World k e) (b base tsn : ℕ) (buf : NetworkBuffer)
      (socket : TsnSocket e)
      → w.buffers b ≡ some buf
      → Listens k e w buf.bound_port base tsn socket
      → tx_software socket.ts_flags ≡ false
      → g.message ≢ 0
      → w.memory.messages g.message ≡ none
      → (messages : ℕ → Option Msghdr) × (report_sent p s k e g garbage w b
          ≡ done (record w { memory = record w.memory { messages = messages } }))
        × ((a : ℕ) → messages a ≡ w.memory.messages a)
  report_sent-Unset g garbage w b base tsn buf socket there l unset nm free =
      let made = update w.memory.messages g.message cleared in
      let w1 = record w { memory = record w.memory { messages = made } } in
      let header = read_back w.memory.messages g.message cleared in
      let m = wiped w1.memory g.message cleared in
      (
        release m.messages g.message,
        report_none g garbage w b base tsn buf m _ there
            (socket_from_port-Listens k e s.lookup w w buf.bound_port base tsn socket refl refl l)
            l.not_null nm
            (no_entries garbage g.control g.control_bytes w1 g.message tsn cleared socket
              l.allocated unset header)
            (read_back made g.message _),
        λ a. ground arith,
      )
