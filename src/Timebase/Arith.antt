-- ===== src/Timebase/Arith.antt =====
-- What the arithmetic of timespecs computes, against numbers of nanoseconds.
use free_rtos_tsn_compatibil.Prelude.{
  ℕ, zero, suc, ◌+◌, ◌-◌, ◌*◌, ◌/◌, ◌%◌, ◌^◌, ◌≤◌, ◌<◌, ◌≡◌, refl, ◌⊎◌, ◌↔◌, true, false, arith,
}
use native.Mathlib.Nat.{div-add-mod}
use free_rtos_tsn_compatibil.Timebase.{
  Timespec, greater, same, less, ns_in_one_sec, timespec_sum, timespec_diff, timespec_cmp,
  add_times, timespec_div,
}

-- A timespec as a number of nanoseconds.
abbrev pub nanoseconds : Timespec → ℕ
nanoseconds t = t.tv_sec * 1_000_000_000 + t.tv_nsec

pub record IsNormal (t : Timespec) : Type 0 where
  pub sec_fits : t.tv_sec < 2 ^ 32
  pub nsec_fits : t.tv_nsec < ns_in_one_sec

-- For normal timespecs whose sum fits, xTimespecSum returns pdPASS and the exact sum, normal
-- again.
pub sum_exact :
    (a b : Timespec)
    → IsNormal a
    → IsNormal b
    → nanoseconds a + nanoseconds b < 2 ^ 32 * 1_000_000_000
    → (nanoseconds (timespec_sum a b).0 ≡ nanoseconds a + nanoseconds b)
      × IsNormal (timespec_sum a b).0
      × ((timespec_sum a b).1 ≡ true)
unfolding timespec_sum
sum_exact a b na nb h = ground arith

-- Both operands lie in the last second that fits, and their nanoseconds carry.
abbrev pub BothLast : Timespec → Timespec → Type 0
BothLast a b =
    (a.tv_sec ≡ 2 ^ 32 - 1) × (b.tv_sec ≡ 2 ^ 32 - 1) × (ns_in_one_sec ≤ a.tv_nsec + b.tv_nsec)

-- For normal timespecs, xTimespecSum returns pdFAIL exactly when the sum does not fit, save where
-- both operands lie in the last second that fits and their nanoseconds carry: there it returns
-- pdPASS although the sum does not fit.
pub sum_verdict :
    (a b : Timespec)
    → IsNormal a
    → IsNormal b
    → ((nanoseconds a + nanoseconds b < 2 ^ 32 * 1_000_000_000) × ((timespec_sum a b).1 ≡ true))
      ⊎ ((2 ^ 32 * 1_000_000_000 ≤ nanoseconds a + nanoseconds b)
          × BothLast a b
          × ((timespec_sum a b).1 ≡ true))
      ⊎ ((2 ^ 32 * 1_000_000_000 ≤ nanoseconds a + nanoseconds b)
          × (¬ BothLast a b)
          × ((timespec_sum a b).1 ≡ false))
unfolding timespec_sum
sum_verdict a b na nb = ground arith

-- For normal timespecs of which the first is not the earlier, xTimespecDiff returns their exact
-- difference, normal again.
pub diff_exact :
    (a b : Timespec)
    → IsNormal a
    → IsNormal b
    → nanoseconds b ≤ nanoseconds a
    → (nanoseconds (timespec_diff a b).0 + nanoseconds b ≡ nanoseconds a)
      × IsNormal (timespec_diff a b).0
unfolding timespec_diff
diff_exact a b na nb h = ground arith

-- For normal timespecs of which the first is the earlier, xTimespecDiff returns pdPASS with the
-- seconds wrapped: the difference with 2 ^ 32 seconds added.
pub diff_wraps :
    (a b : Timespec)
    → IsNormal a
    → IsNormal b
    → nanoseconds a < nanoseconds b
    → (nanoseconds (timespec_diff a b).0 + nanoseconds b ≡ nanoseconds a + 2 ^ 32 * 1_000_000_000)
      × ((timespec_diff a b).1 ≡ true)
unfolding timespec_diff
diff_wraps a b na nb h = ground arith

-- For normal timespecs, xTimespecCmp returns 1, 0 or -1 exactly as the first is later than, equal
-- to or earlier than the second.
pub cmp_order :
    (a b : Timespec)
    → IsNormal a
    → IsNormal b
    → ((timespec_cmp a b ≡ greater) ↔ (nanoseconds b < nanoseconds a))
      × ((timespec_cmp a b ≡ same) ↔ (nanoseconds a ≡ nanoseconds b))
      × ((timespec_cmp a b ≡ less) ↔ (nanoseconds a < nanoseconds b))
unfolding timespec_cmp
cmp_order a b na nb = ground arith

-- The loop of `xTimespecDiv` adds exactly, as long as the total fits.
add_times_exact :
    (n : ℕ) (step out : Timespec)
    → IsNormal step
    → IsNormal out
    → nanoseconds out + n * nanoseconds step < 2 ^ 32 * 1_000_000_000
    → (nanoseconds (add_times n step out) ≡ nanoseconds out + n * nanoseconds step)
      × IsNormal (add_times n step out)
unfolding add_times
add_times_exact zero step out ns fits h = (omega arith, fits)
add_times_exact (suc n) step out ns fits h =
    let (e, v, _) = sum_exact out step fits ns (grind arith) in
    let (e', v') = add_times_exact n step (timespec_sum out step).0 ns v (grind arith) in
    (grind arith, v')

-- The two remainders that a division in two parts leaves.
div_remainder :
    (d qs rs qn rn qm rm : ℕ)
    → (d * qs + rs) * (d * qn + rn) + (d * qm + rm)
      ≡ (qs * (d * qn + rn) + qm + rs * qn) * d + (rs * rn + rm)
div_remainder d qs rs qn rn qm rm = omega arith

remainder_small : (d rs rn rm : ℕ) → rs < d → rn < d → rm < d → rs * rn + rm < d * d
remainder_small zero rs rn rm hs hn hm = absurd (omega arith)
remainder_small (suc k) rs rn rm hs hn hm =
    let p : rs * rn ≤ k * rn = grind arith in let q : k * rn ≤ k * k = grind arith in omega arith

div_bounds :
    (s n m d : ℕ)
    → 0 < d
    → ((s / d * n + m / d + s % d * (n / d)) * d ≤ s * n + m)
      × (s * n + m < (s / d * n + m / d + s % d * (n / d)) * d + d * d)
div_bounds s n m d h =
    let e = div_remainder d (s / d) (s % d) (n / d) (n % d) (m / d) (m % d) in
    let e' : s * n + m ≡ (s / d * n + m / d + s % d * (n / d)) * d + (s % d * (n % d) + m % d) =
      rw (div-add-mod, div-add-mod, div-add-mod) at e in
    let r = remainder_small d (s % d) (n % d) (m % d) (omega arith) (omega arith) (omega arith) in
    (omega arith, omega arith)

le_of_scaled : (x d y : ℕ) → 0 < d → x * d ≤ y → x ≤ y
le_of_scaled x d y h p = grind arith

div_loop :
    (s m d : ℕ)
    → 1 < d
    → s < 2 ^ 32
    → m < ns_in_one_sec
    → let r =
        add_times
          (s % d)
          (record { tv_sec = 0; tv_nsec = ns_in_one_sec / d })
          (record { tv_sec = s / d; tv_nsec = m / d }) in
      (nanoseconds r ≡ s / d * ns_in_one_sec + m / d + s % d * (ns_in_one_sec / d)) × IsNormal r
div_loop s m d h hs hm =
    let b = div_bounds s ns_in_one_sec m d (omega arith) in
    let l = le_of_scaled _ d _ (omega arith) b.0 in
    let q : s / d ≤ s = grind arith in
    let q' : m / d ≤ m = grind arith in
    let q'' : ns_in_one_sec / d < ns_in_one_sec = grind arith in
    let (e, v) =
      add_times_exact (s % d) (record { tv_sec = 0; tv_nsec = ns_in_one_sec / d })
        (record { tv_sec = s / d; tv_nsec = m / d }) (omega arith) (omega arith) (omega arith) in
    (omega arith, v)

div_quotient :
    (s m d : ℕ)
    → 0 < d
    → s < 2 ^ 32
    → m < ns_in_one_sec
    → let r = (timespec_div (record { tv_sec = s; tv_nsec = m }) d).0 in
      (nanoseconds r ≡ s / d * ns_in_one_sec + m / d + s % d * (ns_in_one_sec / d)) × IsNormal r
unfolding timespec_div
div_quotient s m zero h hs hm = absurd (omega arith)
div_quotient s m (suc zero) h hs hm =
    let e : s % 1 ≡ 0 = omega arith in rw e (unfold add_times in (omega arith, omega arith))
div_quotient s m (suc (suc k)) h hs hm = div_loop s m (suc (suc k)) (omega arith) hs hm

-- xTimespecDiv of a normal timespec by a positive divisor d returns pdPASS and a normal timespec
-- whose d-fold is at most the operand, and short of it by less than d * d nanoseconds.
pub div_lem :
    (a : Timespec) (d : ℕ)
    → IsNormal a
    → 0 < d
    → let (r, done) = timespec_div a d in
      (nanoseconds r * d ≤ nanoseconds a)
      × (nanoseconds a < nanoseconds r * d + d * d)
      × IsNormal r
      × (done ≡ true)
unfolding timespec_div
div_lem a d v h =
    let q = div_quotient a.tv_sec a.tv_nsec d h v.sec_fits v.nsec_fits in
    let b = div_bounds a.tv_sec ns_in_one_sec a.tv_nsec d h in (rw q.0 b.0, rw q.0 b.1, q.1, refl)
