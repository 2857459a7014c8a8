-- ===== src/Sockets/Receive/Lapse.antt =====
-- FreeRTOS_TSN_recvmsg (source/FreeRTOS_TSN_Sockets.c) where no packet comes.
use free_rtos_tsn_compatibil.Prelude.{
  ℕ, ◌≡◌, ◌≢◌, refl, ◌⊎◌, inl, inr, Bool, true, false, ◌==◌, ◌||◌, ==-of-≢, none, some, List, [],
  ◌∷◌,
}
use free_rtos_tsn_compatibil.Kernel.{Kernel, PointerQueues}
use free_rtos_tsn_compatibil.State.{done}
use free_rtos_tsn_compatibil.Frame.{Platform}
use free_rtos_tsn_compatibil.World.{
  BaseSocket, TsnSocket, World, negative, ewouldblock, invalid_socket,
}
use free_rtos_tsn_compatibil.Sockets.Receive.{RecvFlags}
use free_rtos_tsn_compatibil.Sockets.Receive.Message.{
  wait_for_packet, await_packet, take_packet, tsn_recvmsg,
}

module _ (k : Kernel) (e : PointerQueues) where
  -- The socket has no packets waiting.
  abbrev pub IsQuiet : World k e → ℕ → Type 0
  IsQuiet w base = (b : BaseSocket) × (w.bases base ≡ some b) × (b.waiting ≡ [])

  -- No wait brings a packet, and after one the time is over: the world that it leaves.
  pub data Lapses (base : ℕ) : List (World k e × Bool) → World k e → Type 0 where
    over :
        {w : World k e} {waits : List (World k e × Bool)}
        → IsQuiet w base
        → Lapses base ((w, true) ∷ waits) w
    still :
        {w w' : World k e} {waits : List (World k e × Bool)}
        → IsQuiet w base
        → Lapses base waits w'
        → Lapses base ((w, false) ∷ waits) w'

  Lapses-IsQuiet :
      {base : ℕ} {waits : List (World k e × Bool)} {w' : World k e}
      → Lapses base waits w'
      → IsQuiet w' base
  Lapses-IsQuiet (over q) = q
  Lapses-IsQuiet (still q l) = Lapses-IsQuiet l

  wait-Lapses :
      {base : ℕ} {waits : List (World k e × Bool)} (w w' : World k e)
      → Lapses base waits w'
      → wait_for_packet k e base waits w ≡ done w'
  unfolding wait_for_packet
  wait-Lapses w w' (over (b, there, empty)) = rw (there, empty) refl
  wait-Lapses w w' (still {w = w1} (b, there, empty) l) = rw (there, empty) (wait-Lapses w1 w' l)

  take_none :
      (base : ℕ) (flags : RecvFlags) (w : World k e)
      → IsQuiet w base
      → take_packet k e base flags w ≡ done none
  unfolding take_packet
  take_none base flags w (b, there, empty) = rw (there, empty) refl

  await_at_once :
      (base : ℕ) (flags : RecvFlags) (waits : List (World k e × Bool)) (w : World k e)
      (b : BaseSocket)
      → w.bases base ≡ some b
      → b.waiting ≡ []
      → ((b.receive_block_time == 0) || flags.dont_wait) ≡ true
      → await_packet k e base flags waits w ≡ done w
  unfolding await_packet
  await_at_once base flags waits w b opened empty may_not = rw (opened, empty, may_not) refl

  await-Lapses :
      (base : ℕ) (flags : RecvFlags) (waits : List (World k e × Bool)) (w w' : World k e)
      (b : BaseSocket)
      → w.bases base ≡ some b
      → b.waiting ≡ []
      → ((b.receive_block_time == 0) || flags.dont_wait) ≡ false
      → Lapses base waits w'
      → await_packet k e base flags waits w ≡ done w'
  unfolding await_packet
  await-Lapses base flags waits w w' b opened empty may l =
      rw (opened, empty, may) (wait-Lapses w w' l)

  module _ (p : Platform) (w : World k e) (s user : ℕ) (flags : RecvFlags)
      (waits : List (World k e × Bool)) (socket : TsnSocket e) (b : BaseSocket) where
    nothing_run :
        (w1 : World k e)
        → s ≢ 0
        → s ≢ invalid_socket
        → user ≢ 0
        → w.sockets s ≡ some socket
        → w.bases socket.base ≡ some b
        → b.is_bound ≡ true
        → flags.errqueue ≡ false
        → await_packet k e socket.base flags waits w ≡ done w1
        → take_packet k e socket.base flags w1 ≡ done none
        → tsn_recvmsg k e p w s user flags waits ≡ done (w1, negative ewouldblock)
    unfolding tsn_recvmsg
    nothing_run w1 ns ni nu there opened bound plain waited none_there =
        rw
          (
            there,
            ==-of-≢ s 0 ns,
            ==-of-≢ s invalid_socket ni,
            opened,
            bound,
            ==-of-≢ user 0 nu,
            waited,
            none_there,
            plain,
          )
          refl

  -- On a bound socket without packets, a call that may not wait, or whose waits bring no packet
  -- until the time is over, ends with EWOULDBLOCK, and leaves what it found, or what the last wait
  -- left.
  pub tsn_recvmsg-Lapses :
      (p : Platform) (w w' : World k e) (s user : ℕ) (flags : RecvFlags)
      (waits : List (World k e × Bool)) (socket : TsnSocket e) (b : BaseSocket)
      → s ≢ 0
      → s ≢ invalid_socket
      → user ≢ 0
      → w.sockets s ≡ some socket
      → w.bases socket.base ≡ some b
      → b.is_bound ≡ true
      → b.waiting ≡ []
      → flags.errqueue ≡ false
      → ((((b.receive_block_time == 0) || flags.dont_wait) ≡ true) × (w' ≡ w))
        ⊎ ((((b.receive_block_time == 0) || flags.dont_wait) ≡ false) × Lapses socket.base waits w')
      → tsn_recvmsg k e p w s user flags waits ≡ done (w', negative ewouldblock)
  tsn_recvmsg-Lapses p w w' s user flags waits socket b ns ni nu there opened bound empty plain
        cases =
      elim cases [
        | inl (may_not, same) ↦ rw (same) (
            nothing_run p w s user flags waits socket b w ns ni nu there opened bound plain
              (await_at_once socket.base flags waits w b opened empty may_not)
              (take_none socket.base flags w (b, opened, empty)))
        | inr (may, l) ↦
            nothing_run p w s user flags waits socket b w' ns ni nu there opened bound plain
              (await-Lapses socket.base flags waits w w' b opened empty may l)
              (take_none socket.base flags w' (Lapses-IsQuiet l))
      ]
