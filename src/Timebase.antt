-- ===== src/Timebase.antt =====
-- source/FreeRTOS_TSN_Timebase.c and include/FreeRTOS_TSN_Timebase.h: the timebase handle and the
-- arithmetic of `struct freertos_timespec`. The functions of the user's timebase are no code of
-- this repository: a function pointer is present or NULL. A function that writes through `pxOut`
-- returns the new struct beside its BaseType_t.
pub mod Arith
pub mod Handle
use free_rtos_tsn_compatibil.Prelude.{
  ℕ, zero, suc, ◌+◌, ◌-◌, ◌/◌, ◌%◌, ◌^◌, Bool, true, false, not, ◌&&◌, ◌||◌, ltb, leb, ◌==◌, List,
  if◌then◌else◌,
}

-- uint32_t arithmetic wraps.
abbrev pub u32 : ℕ → ℕ
u32 n = n % 2 ^ 32

abbrev pub ns_in_one_sec : ℕ
ns_in_one_sec = 1_000_000_000

pub record Timespec : Type 0 where
  pub tv_sec : ℕ
  pub tv_nsec : ℕ

-- `xTimespecSum`. The operands are copied before `*pxOut` is written, so aliasing is harmless.
-- true is pdPASS.
unfoldable pub timespec_sum : Timespec → Timespec → Timespec × Bool
timespec_sum op1 op2 =
    let sec = u32 (op1.tv_sec + op2.tv_sec) in
    let nsec = u32 (op1.tv_nsec + op2.tv_nsec) % ns_in_one_sec in
    let sec' = if ltb nsec op1.tv_nsec || ltb nsec op2.tv_nsec then u32 (sec + 1) else sec in
    (record { tv_sec = sec'; tv_nsec = nsec }, not (ltb sec' op1.tv_sec || ltb sec' op2.tv_sec))

-- `xTimespecDiff`. Each field of an operand is read before the same field of `*pxOut` is written.
-- It returns pdPASS on every path.
unfoldable pub timespec_diff : Timespec → Timespec → Timespec × Bool
timespec_diff op1 op2 =
    let sec = u32 (op1.tv_sec + 2 ^ 32 - op2.tv_sec) in
    if leb op2.tv_nsec op1.tv_nsec
    then (record { tv_sec = sec; tv_nsec = op1.tv_nsec - op2.tv_nsec }, true)
    else (
      record {
        tv_sec = u32 (sec + 2 ^ 32 - 1);
        tv_nsec = u32 (ns_in_one_sec + 2 ^ 32 - (op2.tv_nsec - op1.tv_nsec));
      },
      true,
    )

-- The loop of `xTimespecDiv`: `n` rounds that each add `step`, whose result is not read.
unfoldable pub add_times : ℕ → Timespec → Timespec → Timespec
add_times zero step out = out
add_times (suc n) step out = add_times n step (timespec_sum out step).0

-- `xTimespecDiv`. `xOp2` is converted to the unsigned type of the fields; a zero divisor is
-- undefined in C, and the theorems exclude it.
unfoldable pub timespec_div : Timespec → ℕ → Timespec × Bool
timespec_div op1 op2 = (
  add_times (op1.tv_sec % op2) (record { tv_sec = 0; tv_nsec = ns_in_one_sec / op2 })
      (record { tv_sec = op1.tv_sec / op2; tv_nsec = op1.tv_nsec / op2 }),
  true,
)

-- The three values 1, 0 and -1 that `xTimespecCmp` returns.
pub data Sign : Type 0 where
  greater same less : Sign

-- `xTimespecCmp`.
unfoldable pub timespec_cmp : Timespec → Timespec → Sign
timespec_cmp op1 op2 =
    if ltb op2.tv_sec op1.tv_sec
    then greater
    else if op1.tv_sec == op2.tv_sec
    then (if ltb op2.tv_nsec op1.tv_nsec
        then greater
        else if op1.tv_nsec == op2.tv_nsec
        then same
        else less)
    else less
