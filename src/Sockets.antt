-- ===== src/Sockets.antt =====
-- source/FreeRTOS_TSN_Sockets.c: creating, binding, closing and finding TSN sockets, and their
-- options. What a call of FreeRTOS-Plus-TCP returned is an argument.
pub mod Registry
pub mod Send
pub mod Receive
use free_rtos_tsn_compatibil.Prelude.{
  ℕ, ◌+◌, ◌-◌, ◌*◌, ◌/◌, ◌%◌, ◌^◌, Bool, true, false, ltb, leb, ◌==◌, ◌||◌, not, if◌then◌else◌,
  Option, none, some, List, [], ◌∷◌, ◌++◌,
}
use free_rtos_tsn_compatibil.Kernel.{Kernel, PointerQueues}
use free_rtos_tsn_compatibil.State.{Run, done, fault, ◌>>=◌, deref, update, release, u32}
use free_rtos_tsn_compatibil.Frame.{Platform}
use free_rtos_tsn_compatibil.World.{
  BaseSocket, TsnSocket, World, Outcome, returned, negative, positive, einval, invalid_socket,
}

-- `tsnconfigERRQUEUE_LENGTH`.
abbrev pub errqueue_length : ℕ
errqueue_length = 16

-- `FREERTOS_SO_DS_CLASS` and `FREERTOS_SO_TIMESTAMPING`.
abbrev pub so_ds_class : ℕ
so_ds_class = 104

abbrev pub so_timestamping : ℕ
so_timestamping = 37

-- `SOF_TIMESTAMPING_MASK`.
abbrev pub timestamping_mask : ℕ
timestamping_mask = 2 ^ 17 - 1

-- `a < b` on two BaseType_t, each given by its 32 bits, for `b` that is not negative.
abbrev pub signed_lt : ℕ → ℕ → Bool
signed_lt a b = leb (2 ^ 31) a || ltb a b

-- A list item is removed.
unfoldable pub remove : ℕ → List ℕ → List ℕ
remove a [] = []
remove a (x ∷ xs) = if a == x then xs else x ∷ remove a xs

module _ (k : Kernel) (e : PointerQueues) where
  -- `vInitialiseTSNSockets`.
  unfoldable pub initialise_sockets : World k e → World k e
  initialise_sockets w = elim (w.bound) [ none ↦ record w { bound = some [] } | some listed ↦ w ]

  -- `xSocketErrorQueueInsert`.
  unfoldable pub error_queue_insert : World k e → ℕ → ℕ → Run (World k e × Bool)
  error_queue_insert w s msgh = deref (w.sockets s) >>= λ socket.
      let (queue', sent) = e.send socket.err_queue msgh 0 in
      done (record w { sockets = update w.sockets s (record socket { err_queue = queue' }) }, sent)

  -- The loop of `vSocketFromPort`: the TSN socket with its base socket.
  unfoldable pub find_socket : World k e → ℕ → List ℕ → Run (Option (ℕ × ℕ))
  find_socket w key [] = done none
  find_socket w key (s ∷ ss) = deref (w.sockets s) >>= λ socket.
      let rest = find_socket w key ss in
      if socket.bound_port == key then done (some (socket.base, s)) else rest

  -- `vSocketFromPort`: the base socket and the TSN socket that it writes, if it writes them.
  -- `lookup` is `pxUDPSocketLookup`.
  unfoldable pub socket_from_port : (ℕ → ℕ) → World k e → ℕ → Run (Option (ℕ × ℕ))
  unfolding find_socket
  socket_from_port lookup w key = elim (w.bound) [
    | none ↦ done none
    | some listed ↦ find_socket w key listed >>= λ found.
        done (elim found [ none ↦ some (lookup key, 0) | some pair ↦ some pair ])
  ]

  -- `FreeRTOS_TSN_socket`. `is_datagram` is the test of the type, `address` the memory for the
  -- socket, which holds the class and the flags of `garbage`, and `base` and `opened` what
  -- FreeRTOS_socket returned.
  unfoldable pub tsn_socket : World k e → Bool → ℕ → ℕ → ℕ → ℕ → BaseSocket → World k e × ℕ
  tsn_socket w is_datagram address garbage_class garbage_flags base opened =
      if not is_datagram
      then (w, invalid_socket)
      else if address == 0
      then (w, invalid_socket)
      else if base == invalid_socket
      then (w, invalid_socket)
      else (let w' = record w { bases = update w.bases base opened } in
          elim (e.create errqueue_length) [
            | none ↦ (w', invalid_socket)
            | some queue ↦
                let socket : TsnSocket e = record {
                  base = base;
                  err_queue = queue;
                  ds_class = garbage_class;
                  ts_flags = garbage_flags;
                  bound_port = 0;
                  is_listed = false;
                } in
                (record w' { sockets = update w'.sockets address socket }, address)
          ])

  -- `FreeRTOS_TSN_setsockopt`. `valid` is xSocketValid of the base socket, and `other` what
  -- FreeRTOS_setsockopt returns; the value is its 32 bits.
  unfoldable pub tsn_setsockopt : World k e → Bool → Outcome → ℕ → ℕ → ℕ → Run (World k e × Outcome)
  tsn_setsockopt w valid other s option value = deref (w.sockets s) >>= λ socket.
      if not valid
      then done (w, negative einval)
      else if option == so_ds_class
      then (if signed_lt value 64
          then done (
            record w { sockets = update w.sockets s (record socket { ds_class = value % 256 }) },
            returned 0,
          )
          else done (w, negative einval))
      else if option == so_timestamping
      then (if ltb timestamping_mask value
          then done (w, positive einval)
          else done (
            record w {
              sockets =
                  update w.sockets s
                    (record socket { err_queue = e.reset socket.err_queue; ts_flags = value });
            },
            returned 0,
          ))
      else done (w, other)

  -- `FreeRTOS_TSN_bind`. `result` is what FreeRTOS_bind returned, and `base'` the base socket
  -- after it.
  unfoldable pub tsn_bind :
      Platform → World k e → Outcome → BaseSocket → ℕ → Run (World k e × Outcome)
  tsn_bind p w result base' s = deref (w.sockets s) >>= λ socket.
      let w' = record w { bases = update w.bases socket.base base' } in
      elim result [
        | returned n ↦
            if n == 0
            then (deref (w.bound) >>= λ listed.
                let socket' = record socket {
                  bound_port = p.htons base'.local_port;
                  is_listed = true;
                } in
                done (
                  record w' {
                    sockets = update w.sockets s socket';
                    bound = some (listed ++ (s ∷ []));
                  },
                  returned 0,
                ))
            else done (w', returned n)
        | negative n ↦ done (w', negative n)
        | positive n ↦ done (w', positive n)
      ]

  -- `FreeRTOS_TSN_closesocket`. `result` is what FreeRTOS_closesocket returns, which frees the
  -- base socket. uxListRemove of an item that is in no list is a fault.
  unfoldable pub tsn_closesocket : World k e → Outcome → ℕ → Run (World k e × Outcome)
  tsn_closesocket w result s =
      if s == invalid_socket
      then done (w, returned 0)
      else (deref (w.sockets s) >>= λ socket.
          if socket.is_listed
          then (deref (w.bound) >>= λ listed. done (
            record w {
              sockets = update w.sockets s (record socket { is_listed = false });
              bound = some (remove s listed);
              bases = release w.bases socket.base;
            },
            result,
          ))
          else fault)
