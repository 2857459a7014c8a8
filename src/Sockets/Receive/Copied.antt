-- ===== src/Sockets/Receive/Copied.antt =====
-- A message with one vector is copied to a message of the user with one vector, and freed, in
-- FreeRTOS_TSN_recvmsg (source/FreeRTOS_TSN_Sockets.c).
use free_rtos_tsn_compatibil.Prelude.{
  ℕ, ◌+◌, ◌^◌, ◌≤◌, ◌<◌, min, ◌≡◌, ◌≢◌, ◌⊎◌, inl, inr, refl, sym, ap, ◌∙◌, ◌==◌, ==-of-≢,
  Bool-cases, none, some, List, [], ◌∷◌, length, arith,
}
use free_rtos_tsn_compatibil.State.{done, update, u32}
use free_rtos_tsn_compatibil.Frame.{Platform}
use free_rtos_tsn_compatibil.Memory.{Memory, Msghdr, IoVec}
use free_rtos_tsn_compatibil.Ancillary.{msg_free_all}
use free_rtos_tsn_compatibil.State.Heap.{read_back, read_other, release_other, released_here}
use free_rtos_tsn_compatibil.Ancillary.Freed.{IsNullOrBytes, free_all_lem}
use free_rtos_tsn_compatibil.Sockets.Receive.{
  move_to_start_of_payload, move_first, copy_region, copy_vectors, copy_name, copy_control,
  copy_payload, copy_message,
}
use free_rtos_tsn_compatibil.Sockets.Receive.Region.{Overwritten, Copied, copy_region-Copied}

module _ (p : Platform) where
  -- A message that a packet brings, with one vector, whose frame has its payload at `at`.
  pub record IsPacket (m : Memory) (msgh : ℕ) (h : Msghdr) (v : IoVec) (frame : List ℕ)
      (at size : ℕ) : Type 0 where
    pub not_null : msgh ≢ 0
    pub header : m.messages msgh ≡ some h
    pub iov : h.iov ≢ 0
    pub one : h.iovlen ≡ 1
    pub vector : m.iovecs h.iov ≡ some (v ∷ [])
    pub held : m.bytes v.base ≡ some frame
    pub start : move_to_start_of_payload p frame v.offset v.len ≡ done (at, size)
    pub inside : at + size ≤ length frame
    pub name : IsNullOrBytes m h.name
    pub control : IsNullOrBytes m h.control
    pub apart : h.control ≢ h.name ⊎ (h.control ≡ 0)

  -- A message of the user for a payload alone, whose vector has room in an array.
  pub record IsUser (m : Memory) (user : ℕ) (u : Msghdr) (t : IoVec) (old : List ℕ) : Type 0 where
    pub header : m.messages user ≡ some u
    pub name : u.name ≡ 0
    pub control : u.control ≡ 0
    pub iov : u.iov ≢ 0
    pub one : u.iovlen ≡ 1
    pub vector : m.iovecs u.iov ≡ some (t ∷ [])
    pub held : m.bytes t.base ≡ some old
    pub room : t.offset + t.len ≤ length old
    pub small : t.len < 2 ^ 32

  -- The two have no memory in common that is freed.
  pub record Apart (msgh : ℕ) (h : Msghdr) (user : ℕ) (u : Msghdr) (t : IoVec) : Type 0 where
    pub messages : user ≢ msgh
    pub iovecs : u.iov ≢ h.iov
    pub name : t.base ≢ h.name
    pub control : t.base ≢ h.control

  -- The array of the user has the payload, or as much of it as there is room for; the message is
  -- freed.
  pub record Received (m' : Memory) (msgh : ℕ) (h : Msghdr) (user : ℕ) (u : Msghdr) (t : IoVec)
      (old frame : List ℕ) (at n : ℕ) : Type 0 where
    pub new : List ℕ
    pub held : m'.bytes t.base ≡ some new
    pub same_length : length new ≡ length old
    pub each : Overwritten new old t.offset frame at n
    pub vector : m'.iovecs u.iov ≡ some (record t { len = n } ∷ [])
    pub header :
        m'.messages user
        ≡ some (record u { namelen = 0; iovlen = 1; controllen = 0; flags = h.flags })
    pub freed : m'.messages msgh ≡ none

  -- What was NULL or allocated beside the array that is written, still is.
  kept :
      (m m' : Memory) (a : ℕ) (t : IoVec) (old frame : List ℕ) (at n : ℕ)
      → Copied m m' t.base old t.offset frame at n
      → t.base ≢ a
      → IsNullOrBytes m a
      → IsNullOrBytes m' a
  kept m m' a t old frame at n c ne (inl z) = inl z
  kept m m' a t old frame at n c ne (inr (bytes, there)) =
      inr (bytes, c.others a (λ e. ne (sym e)) ∙ there)

  no_name :
      (m : Memory) (u h : Msghdr)
      → u.name ≡ 0
      → copy_name m u h ≡ done (m, record u { namelen = 0 })
  unfolding copy_name
  no_name m u h z = elim (Bool-cases (h.name == 0)) [
    | inl null ↦ rw (null) refl
    | inr named ↦ rw (named, z) refl
  ]

  no_control :
      (m : Memory) (u h : Msghdr)
      → u.control ≡ 0
      → copy_control m u h ≡ done (m, record u { controllen = 0 })
  unfolding copy_control
  no_control m u h z = rw (z) refl

  move_run :
      (m : Memory) (iov : ℕ) (v : IoVec) (frame : List ℕ) (at size : ℕ)
      → m.iovecs iov ≡ some (v ∷ [])
      → m.bytes v.base ≡ some frame
      → move_to_start_of_payload p frame v.offset v.len ≡ done (at, size)
      → move_first p m iov
        ≡ done
            (record m { iovecs = update m.iovecs iov (record v { offset = at; len = size } ∷ []) })
  unfolding move_first
  move_run m iov v frame at size there held start = rw (there, held, start) refl

  vectors_run :
      (m m' : Memory) (user iov : ℕ) (t f : IoVec) (n : ℕ)
      → m.iovecs user ≡ some (t ∷ [])
      → m.iovecs iov ≡ some (f ∷ [])
      → min t.len f.len ≡ n
      → copy_region m t.base t.offset f.base f.offset n ≡ done m'
      → u32 (0 + n) ≡ n
      → copy_vectors 1 0 user iov m 0
        ≡ done (record m' { iovecs = update m'.iovecs user (record t { len = n } ∷ []) }, n)
  unfolding copy_vectors
  vectors_run m m' user iov t f n to from size run small = rw (to, from, size, run, small) refl

  payload_run :
      (m m1 m2 : Memory) (u h : Msghdr) (n : ℕ)
      → h.iov ≢ 0
      → u.iov ≢ 0
      → u.iovlen ≡ 1
      → h.iovlen ≡ 1
      → move_first p m h.iov ≡ done m1
      → copy_vectors 1 0 u.iov h.iov m1 0 ≡ done (m2, n)
      → copy_payload p m u h ≡ done (m2, record u { iovlen = 1 }, n)
  unfolding copy_payload
  payload_run m m1 m2 u h n nh nu one one' moved run =
      rw (==-of-≢ h.iov 0 nh, ==-of-≢ u.iov 0 nu, one, one', moved, run) refl

  copy_run :
      (m m2 m5 : Memory) (user msgh : ℕ) (u h : Msghdr) (n : ℕ)
      → m.messages user ≡ some u
      → m.messages msgh ≡ some h
      → u.name ≡ 0
      → u.control ≡ 0
      → copy_payload p m (record u { namelen = 0 }) h
        ≡ done (m2, record u { namelen = 0; iovlen = 1 }, n)
      → msg_free_all
          (record m2 {
            messages =
                update m2.messages user
                  (record u { namelen = 0; iovlen = 1; controllen = 0; flags = h.flags });
          })
          msgh
        ≡ done m5
      → copy_message p m user msgh ≡ done (m5, n)
  unfolding copy_message
  copy_run m m2 m5 user msgh u h n there there' name control payload freed =
      rw
        (
          there,
          there',
          no_name m u h name,
          payload,
          no_control m2 (record u { namelen = 0; iovlen = 1 }) h control,
          freed,
        )
        refl

  pub copy_message-Received :
      (m : Memory) (user msgh : ℕ) (u h : Msghdr) (t v : IoVec) (old frame : List ℕ) (at size : ℕ)
      → IsPacket m msgh h v frame at size
      → IsUser m user u t old
      → Apart msgh h user u t
      → (m' : Memory) × (copy_message p m user msgh ≡ done (m', min t.len size))
        × Received m' msgh h user u t old frame at (min t.len size)
  copy_message-Received m user msgh u h t v old frame at size x y z =
      let n = min t.len size in
      let room = y.room in
      let inside = x.inside in
      let small = y.small in
      let v' = record v { offset = at; len = size } in
      let m1 = record m { iovecs = update m.iovecs h.iov (v' ∷ []) } in
      let moved = move_run m h.iov v frame at size x.vector x.held x.start in
      let (mr, copied, c) =
        copy_region-Copied m1 t.base t.offset v.base at n old frame y.held x.held (omega arith)
          (omega arith) in
      let m2 = record mr { iovecs = update mr.iovecs u.iov (record t { len = n } ∷ []) } in
      let vectors =
        vectors_run m1 mr u.iov h.iov t v' n (read_other m.iovecs h.iov u.iov _ z.iovecs ∙ y.vector)
          (read_back m.iovecs h.iov _) refl copied (omega arith) in
      let u' = record u { namelen = 0; iovlen = 1; controllen = 0; flags = h.flags } in
      let m4 = record m2 { messages = update m2.messages user u' } in
      let header : m4.messages msgh ≡ some h =
        read_other m2.messages user msgh u' (λ e. z.messages (sym e))
        ∙ ap (λ f. f msgh) c.messages
        ∙ x.header in
      let iov : m4.iovecs h.iov ≡ some (v' ∷ []) =
        read_other mr.iovecs u.iov h.iov _ (λ e. z.iovecs (sym e))
        ∙ ap (λ f. f h.iov) c.iovecs
        ∙ read_back m.iovecs h.iov _ in
      let (m', freed, messages, iovecs, bytes) =
        free_all_lem m4 msgh h (v' ∷ []) x.not_null header x.iov iov
          (kept m1 mr h.name t old frame at n c z.name x.name)
          (kept m1 mr h.control t old frame at n c z.control x.control) x.apart in
      (
        m',
        copy_run m m2 m' user msgh u h n y.header x.header y.name y.control
            (payload_run m m1 m2 (record u { namelen = 0 }) h n x.iov y.iov y.one x.one moved
              vectors)
            freed,
        record {
          new = c.new;
          held = bytes t.base z.name z.control ∙ c.held;
          same_length = c.same_length;
          each = c.each;
          vector =
              ap (λ f. f u.iov) iovecs
              ∙ release_other m4.iovecs h.iov u.iov z.iovecs
              ∙ read_back mr.iovecs u.iov _;
          header =
              ap (λ f. f user) messages
              ∙ release_other m4.messages msgh user z.messages
              ∙ read_back m2.messages user u';
          freed = ap (λ f. f msgh) messages ∙ released_here m4.messages msgh;
        },
      )
