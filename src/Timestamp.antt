-- ===== src/Timestamp.antt =====
-- source/FreeRTOS_TSN_Timestamp.c and include/FreeRTOS_TSN_Timestamp.h: the timestamp of a packet,
-- and its bytes in a control message. The time is what the function of the user's timebase writes,
-- given the address of that function.
use free_rtos_tsn_compatibil.Prelude.{ℕ, ◌+◌, ◌^◌, ◌<◌, ◌≡◌, refl, List, ◌++◌, length}
use free_rtos_tsn_compatibil.State.{Run, done, ◌>>=◌, deref}
use free_rtos_tsn_compatibil.Bytes.{copy_out}
use free_rtos_tsn_compatibil.Frame.{Platform, store32}
use free_rtos_tsn_compatibil.Timebase.{Timespec}
use free_rtos_tsn_compatibil.Timebase.Handle.{Timebase, timebase_get_time}

-- `struct freertos_scm_timestamping`.
pub record ScmTimestamping : Type 0 where
  pub software : Timespec
  pub unused : Timespec
  pub hardware : Timespec

abbrev pub zero_time : Timespec
zero_time = record { tv_sec = 0; tv_nsec = 0 }

-- `vTimestampAcquireSoftware`. No other task runs between vTaskSuspendAll and xTaskResumeAll, so
-- that it is one step of the model.
unfoldable pub timestamp_acquire_software : (ℕ → Timespec) → Timebase → Run Timespec
timestamp_acquire_software time_of t = deref (timebase_get_time t) >>= λ f. done (time_of f)

-- Both fields have 32 bits.
abbrev pub IsTimespec : Timespec → Type 0
IsTimespec t = (t.tv_sec < 2 ^ 32) × (t.tv_nsec < 2 ^ 32)

module _ (p : Platform) where
  -- The struct in memory.
  unfoldable pub store_timespec : Timespec → List ℕ
  store_timespec t = store32 p t.tv_sec ++ store32 p t.tv_nsec

  unfoldable pub store_timestamping : ScmTimestamping → List ℕ
  unfolding store_timespec
  store_timestamping x =
      store_timespec x.software ++ (store_timespec x.unused ++ store_timespec x.hardware)

  -- How a receiver reads it.
  unfoldable pub load_timespec : ℕ → List ℕ → Run Timespec
  load_timespec at bytes = copy_out at 4 bytes >>= λ sec. copy_out (at + 4) 4 bytes >>= λ nsec.
      done (record { tv_sec = p.load32 sec; tv_nsec = p.load32 nsec })

  unfoldable pub load_timestamping : List ℕ → Run ScmTimestamping
  unfolding load_timespec
  load_timestamping bytes = load_timespec 0 bytes >>= λ a. load_timespec 8 bytes >>= λ b.
      load_timespec 16 bytes >>= λ c. done (record { software = a; unused = b; hardware = c })

  pub length-store_timestamping : (x : ScmTimestamping) → length (store_timestamping x) ≡ 24
  unfolding store_timestamping store_timespec store32
  length-store_timestamping x = refl

  pub load-store_timestamping :
      (x : ScmTimestamping)
      → IsTimespec x.software
      → IsTimespec x.unused
      → IsTimespec x.hardware
      → load_timestamping (store_timestamping x) ≡ done x
  unfolding load_timestamping load_timespec store_timestamping store_timespec store32 copy_out
  load-store_timestamping x (a, b) (c, d) (e, f) =
      rw
        (
          p.load_bytes32 x.software.tv_sec a,
          p.load_bytes32 x.software.tv_nsec b,
          p.load_bytes32 x.unused.tv_sec c,
          p.load_bytes32 x.unused.tv_nsec d,
          p.load_bytes32 x.hardware.tv_sec e,
          p.load_bytes32 x.hardware.tv_nsec f,
        )
        refl
