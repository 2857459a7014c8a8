-- ===== src/Wrapper/Receive/Messages.antt =====
-- The message that prvHandleReceive (source/portable/NetworkInterface/Common/NetworkWrapper.c)
-- builds for a frame of a TSN socket.
use free_rtos_tsn_compatibil.Prelude.{
  ℕ, ◌≡◌, ◌≢◌, inl, inr, refl, true, false, ◌==◌, ==-of-≢, Bool, Bool-cases, ◌&&◌, some, List, [],
  ◌∷◌, length, arith,
}
use free_rtos_tsn_compatibil.Kernel.{Kernel, PointerQueues}
use free_rtos_tsn_compatibil.State.{done, update}
use free_rtos_tsn_compatibil.State.Heap.{read_back, read_other}
use free_rtos_tsn_compatibil.Frame.{Platform}
use free_rtos_tsn_compatibil.Timebase.{Timespec}
use free_rtos_tsn_compatibil.Timebase.Handle.{
  TimebaseState, not_initialised, disabled, TimebaseHandle, Timebase, initial, enabled,
  timebase_get_state, set_all,
}
use free_rtos_tsn_compatibil.Memory.{Memory, Msghdr}
use free_rtos_tsn_compatibil.Ancillary.{ControlMessage, control_fill}
use free_rtos_tsn_compatibil.Ancillary.Entries.{needed, total_space_lem}
use free_rtos_tsn_compatibil.Ancillary.Control.{control_fill_lem}
use free_rtos_tsn_compatibil.World.{TsnSocket, World}
use free_rtos_tsn_compatibil.Wrapper.Control.{
  rx_software, is_enabled, timestamp_entry, fill_entries, rx_entries, control_fill_for_rx,
}
use free_rtos_tsn_compatibil.Wrapper.Control.Report.{stamp_entry, timestamp_entry_lem, needed_stamp}

-- The memory after control messages were attached, or not: only the message and the control buffer
-- have changed.
pub record Attached (m m' : Memory) (msgh address : ℕ) (h : Msghdr) : Type 0 where
  pub control : ℕ
  pub controllen : ℕ
  pub header : m'.messages msgh ≡ some (record h { control = control; controllen = controllen })
  pub iovecs : m'.iovecs ≡ m.iovecs
  pub others : (a : ℕ) → a ≢ address → m'.bytes a ≡ m.bytes a

abbrev pub wiped : Memory → ℕ → Msghdr → Memory
wiped m msgh h = record m {
  messages = update m.messages msgh (record h { control = 0; controllen = 0 });
}

module _ (p : Platform) where
  fill_none :
      (address : ℕ) (fresh : List ℕ) (m : Memory) (msgh : ℕ) (h : Msghdr)
      → m.messages msgh ≡ some h
      → (m' : Memory) × (n : ℕ) × (fill_entries p address fresh m msgh [] ≡ done (m', n))
        × Attached m m' msgh address h
  unfolding fill_entries
  fill_none address fresh m msgh h there = (
    wiped m msgh h,
    0,
    rw (there) refl,
    record {
      control = 0;
      controllen = 0;
      header = read_back m.messages msgh _;
      iovecs = refl;
      others = λ a ne. refl;
    },
  )

  -- No memory for the control buffer.
  fill_refused :
      (fresh : List ℕ) (m : Memory) (msgh : ℕ) (h : Msghdr) (c : ControlMessage)
      → msgh ≢ 0
      → m.messages msgh ≡ some h
      → (m' : Memory) × (n : ℕ) × (fill_entries p 0 fresh m msgh (c ∷ []) ≡ done (m', n))
        × Attached m m' msgh 0 h
  unfolding fill_entries control_fill
  fill_refused fresh m msgh h c nm there = (
    wiped m msgh h,
    0,
    rw (==-of-≢ msgh 0 nm, there) refl,
    record {
      control = 0;
      controllen = 0;
      header = read_back m.messages msgh _;
      iovecs = refl;
      others = λ a ne. refl;
    },
  )

  fill_stamp :
      (address : ℕ) (fresh : List ℕ) (m : Memory) (msgh : ℕ) (h : Msghdr) (now : Timespec)
      → msgh ≢ 0
      → m.messages msgh ≡ some h
      → length fresh ≡ 36
      → (m' : Memory) × (n : ℕ) × (fill_entries p address fresh m msgh (stamp_entry p now ∷ [])
          ≡ done (m', n))
        × Attached m m' msgh address h
  unfolding fill_entries
  fill_stamp address fresh m msgh h now nm there room = elim (Bool-cases (address == 0)) [
    | inl z ↦
        let z' : address ≡ 0 = ground arith in
        rw (z') (fill_refused fresh m msgh h (stamp_entry p now) nm there)
    | inr nz ↦
        let size = needed_stamp p now in
        let total = total_space_lem (stamp_entry p now ∷ []) 0 (omega arith) in
        let (bytes, run, read) =
          control_fill_lem p address fresh m msgh h (stamp_entry p now ∷ []) nm (ground arith) there
            (omega arith) (omega arith) ((omega arith, omega arith), tt) in
        (
          record m {
            messages =
                update m.messages msgh
                  (record h { control = address; controllen = needed (stamp_entry p now ∷ []) });
            bytes = update m.bytes address bytes;
          },
          1,
          rw (run) refl,
          record {
            control = address;
            controllen = needed (stamp_entry p now ∷ []);
            header = read_back m.messages msgh _;
            iovecs = refl;
            others = λ a ne. read_other m.bytes address a bytes ne;
          },
        )
  ]

  module _ (k : Kernel) (e : PointerQueues) (time_of : ℕ → Timespec) where
    entries_none :
        (t : Timebase) (w : World k e) (tsn : ℕ) (socket : TsnSocket e)
        → tsn ≢ 0
        → w.sockets tsn ≡ some socket
        → (rx_software socket.ts_flags && is_enabled (timebase_get_state t)) ≡ false
        → rx_entries p k e time_of t w tsn ≡ done []
    unfolding rx_entries
    entries_none t w tsn socket nt there unset = rw (==-of-≢ tsn 0 nt, there, unset) refl

    entries_stamp :
        (t : Timebase) (w : World k e) (tsn : ℕ) (socket : TsnSocket e) (entry : ControlMessage)
        → tsn ≢ 0
        → w.sockets tsn ≡ some socket
        → (rx_software socket.ts_flags && is_enabled (timebase_get_state t)) ≡ true
        → timestamp_entry p time_of t ≡ done entry
        → rx_entries p k e time_of t w tsn ≡ done (entry ∷ [])
    unfolding rx_entries
    entries_stamp t w tsn socket entry nt there flag made =
        rw (==-of-≢ tsn 0 nt, there, flag, made) refl

    was_enabled : (b : Bool) (x : TimebaseState) → (b && is_enabled x) ≡ true → x ≡ enabled
    was_enabled true enabled h = refl
    was_enabled true not_initialised h = cc
    was_enabled true disabled h = cc
    was_enabled false x h = cc

    fill_rx_run :
        (t : Timebase) (address : ℕ) (fresh : List ℕ) (w : World k e) (msgh tsn : ℕ)
        (cs : List ControlMessage) (m' : Memory) (n : ℕ)
        → rx_entries p k e time_of t w tsn ≡ done cs
        → fill_entries p address fresh w.memory msgh cs ≡ done (m', n)
        → control_fill_for_rx p k e time_of t address fresh w msgh tsn ≡ done (m', n)
    unfolding control_fill_for_rx
    fill_rx_run t address fresh w msgh tsn cs m' n made run = rw (made, run) refl

    -- On a timebase that calls of xTimebaseHandleSet led to, the call ends without a fault, with a
    -- time or without.
    pub fill_for_rx-Attached :
        (hs : List TimebaseHandle) (address : ℕ) (fresh : List ℕ) (w : World k e) (msgh tsn : ℕ)
        (h : Msghdr) (socket : TsnSocket e)
        → msgh ≢ 0
        → tsn ≢ 0
        → w.memory.messages msgh ≡ some h
        → w.sockets tsn ≡ some socket
        → length fresh ≡ 36
        → (m' : Memory) × (n : ℕ) × (control_fill_for_rx p k e time_of
              (set_all initial hs)
              address
              fresh
              w
              msgh
              tsn
            ≡ done (m', n))
          × Attached w.memory m' msgh address h
    fill_for_rx-Attached hs address fresh w msgh tsn h socket nm nt there allocated room =
        elim (Bool-cases
          (rx_software socket.ts_flags && is_enabled (timebase_get_state (set_all initial hs)))) [
            | inl flag ↦
                let on =
                  was_enabled (rx_software socket.ts_flags)
                    (timebase_get_state (set_all initial hs)) flag in
                let now = time_of (set_all initial hs).handle.fn_get_time in
                let (m', n, run, attached) =
                  fill_stamp address fresh w.memory msgh h now nm there room in
                let made =
                  entries_stamp (set_all initial hs) w tsn socket _ nt allocated flag
                    (timestamp_entry_lem p time_of hs on) in
                (
                  m',
                  n,
                  fill_rx_run (set_all initial hs) address fresh w msgh tsn _ m' n made run,
                  attached,
                )
            | inr unset ↦
                let (m', n, run, attached) = fill_none address fresh w.memory msgh h there in
                let made = entries_none (set_all initial hs) w tsn socket nt allocated unset in
                (
                  m',
                  n,
                  fill_rx_run (set_all initial hs) address fresh w msgh tsn _ m' n made run,
                  attached,
                )
          ]
