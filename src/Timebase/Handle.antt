-- ===== src/Timebase/Handle.antt =====
-- source/FreeRTOS_TSN_Timebase.c: the handle of the user's timebase, and when it may be set and
-- called. A function pointer is an address, and 0 is NULL; what the functions do is the user's.
use free_rtos_tsn_compatibil.Prelude.{
  ℕ, ◌≡◌, ◌⊎◌, inl, inr, refl, ap, Bool, true, false, ◌||◌, ◌==◌, if◌then◌else◌, Option, none, some,
  List, [], ◌∷◌, arith,
}

pub data TimebaseState : Type 0 where
  not_initialised disabled enabled : TimebaseState

-- `struct xTIMEBASE`.
pub record TimebaseHandle : Type 0 where
  pub fn_start : ℕ
  pub fn_stop : ℕ
  pub fn_set_time : ℕ
  pub fn_get_time : ℕ
  pub fn_adj_time : ℕ

-- The two static variables of the file.
pub record Timebase : Type 0 where
  pub handle : TimebaseHandle
  pub state : TimebaseState

abbrev is_not_initialised : TimebaseState → Bool
is_not_initialised not_initialised = true
is_not_initialised _ = false

-- The static variables at reset: all pointers are NULL.
unfoldable pub initial : Timebase
initial = record {
  handle = record { fn_start = 0; fn_stop = 0; fn_set_time = 0; fn_get_time = 0; fn_adj_time = 0 };
  state = not_initialised;
}

-- `xTimebaseHandleSet`; true is pdPASS.
unfoldable pub timebase_handle_set : Timebase → TimebaseHandle → Timebase × Bool
timebase_handle_set t h =
    if is_not_initialised t.state
    then (if h.fn_start == 0
          || h.fn_stop == 0
          || h.fn_get_time == 0
          || h.fn_set_time == 0
          || h.fn_adj_time == 0
        then (t, false)
        else (record { handle = h; state = enabled }, true))
    else (t, false)

-- A call through a function pointer: the function that runs, or none for a call through NULL.
unfoldable pub call_pointer : ℕ → Option ℕ
call_pointer f = if f == 0 then none else some f

-- `vTimebaseStart`, `vTimebaseSetTime`, `vTimebaseGetTime`, `vTimebaseAdjTime`: which function of
-- the user runs.
unfoldable pub timebase_start : Timebase → Option ℕ
unfolding call_pointer
timebase_start t = call_pointer t.handle.fn_start

unfoldable pub timebase_set_time : Timebase → Option ℕ
unfolding call_pointer
timebase_set_time t = call_pointer t.handle.fn_set_time

unfoldable pub timebase_get_time : Timebase → Option ℕ
unfolding call_pointer
timebase_get_time t = call_pointer t.handle.fn_get_time

unfoldable pub timebase_adj_time : Timebase → Option ℕ
unfolding call_pointer
timebase_adj_time t = call_pointer t.handle.fn_adj_time

-- `xTimebaseGetState`.
unfoldable pub timebase_get_state : Timebase → TimebaseState
timebase_get_state t = t.state

-- A client's calls of `xTimebaseHandleSet`, in order.
unfoldable pub set_all : Timebase → List TimebaseHandle → Timebase
set_all t [] = t
set_all t (h ∷ hs) = set_all (timebase_handle_set t h).0 hs

-- Not enabled and untouched, or enabled by a handle whose functions are all there.
pub IsReady : Timebase → Type 0
IsReady t =
    (t ≡ initial)
    ⊎ ((t.state ≡ enabled)
        × (timebase_start t ≡ some t.handle.fn_start)
        × (timebase_set_time t ≡ some t.handle.fn_set_time)
        × (timebase_get_time t ≡ some t.handle.fn_get_time)
        × (timebase_adj_time t ≡ some t.handle.fn_adj_time))

handle_set-IsReady :
    (t : Timebase) (h : TimebaseHandle) → IsReady t → IsReady (timebase_handle_set t h).0
unfolding IsReady timebase_handle_set initial timebase_start timebase_set_time timebase_get_time
    timebase_adj_time
handle_set-IsReady t h r = ground arith

set_all-IsReady : (t : Timebase) (hs : List TimebaseHandle) → IsReady t → IsReady (set_all t hs)
unfolding set_all
set_all-IsReady t [] r = r
set_all-IsReady t (h ∷ hs) r =
    set_all-IsReady (timebase_handle_set t h).0 hs (handle_set-IsReady t h r)

-- After any calls of xTimebaseHandleSet on the variables at reset, if xTimebaseGetState returns
-- eTimebaseEnabled then the start, set, get and adjust functions that the timebase calls are those
-- of its handle and none of them is NULL.
pub enabled_calls :
    (hs : List TimebaseHandle)
    → timebase_get_state (set_all initial hs) ≡ enabled
    → let t = set_all initial hs in
      (timebase_start t ≡ some t.handle.fn_start)
      × (timebase_set_time t ≡ some t.handle.fn_set_time)
      × (timebase_get_time t ≡ some t.handle.fn_get_time)
      × (timebase_adj_time t ≡ some t.handle.fn_adj_time)
unfolding IsReady timebase_get_state initial
enabled_calls hs e = elim (set_all-IsReady initial hs (inl refl)) [
  | inl p ↦ cc (ap (λ t. t.state) p)
  | inr r ↦ (r.1, r.2, r.3, r.4)
]

set_enabled :
    (t : Timebase) (h : TimebaseHandle) → t.state ≡ enabled → timebase_handle_set t h ≡ (t, false)
unfolding timebase_handle_set
set_enabled t h e = ground arith

-- Once the timebase is enabled, no sequence of further calls of xTimebaseHandleSet changes it.
pub set_all_enabled :
    (t : Timebase) (hs : List TimebaseHandle) → t.state ≡ enabled → set_all t hs ≡ t
unfolding set_all
set_all_enabled t [] e = refl
set_all_enabled t (h ∷ hs) e = rw (set_enabled t h e) (set_all_enabled t hs e)
