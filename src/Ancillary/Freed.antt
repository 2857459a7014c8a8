-- ===== src/Ancillary/Freed.antt =====
-- A message that is freed with what hangs on it (source/FreeRTOS_TSN_Ancillary.c), where each of
-- its parts is NULL or allocated.
use free_rtos_tsn_compatibil.Prelude.{
  ℕ, ◌≡◌, ◌≢◌, ◌⊎◌, inl, inr, refl, ◌∙◌, ◌==◌, ==-of-≢, Bool-cases, if◌then◌else◌, Option, some,
  List, arith,
}
use free_rtos_tsn_compatibil.State.{done, release}
use free_rtos_tsn_compatibil.Memory.{Memory, Msghdr, IoVec, free_message, free_iovecs, free_bytes}
use free_rtos_tsn_compatibil.Ancillary.{msg_free_all}

-- NULL, or allocated.
abbrev pub IsNullOrBytes : Memory → ℕ → Type 0
IsNullOrBytes m a = (a ≡ 0) ⊎ ((bytes : List ℕ) × (m.bytes a ≡ some bytes))

free_or_not :
    (m : Memory) (a : ℕ)
    → IsNullOrBytes m a
    → (bytes' : ℕ → Option (List ℕ)) × ((if a == 0 then done m else free_bytes m a)
        ≡ done (record m { bytes = bytes' }))
      × ((x : ℕ) → x ≢ a → bytes' x ≡ m.bytes x)
unfolding free_bytes
free_or_not m a (inl z) = (m.bytes, rw (z) refl, λ x ne. refl)
free_or_not m a (inr (bytes, there)) = elim (Bool-cases (a == 0)) [
  | inl z ↦ (m.bytes, rw (z) refl, λ x ne. refl)
  | inr nz ↦ (release m.bytes a, rw (nz, there) refl, λ x ne. ground arith)
]

-- A message is freed, with what hangs on it.
pub free_all_lem :
    (m : Memory) (p : ℕ) (h : Msghdr) (vec : List IoVec)
    → p ≢ 0
    → m.messages p ≡ some h
    → h.iov ≢ 0
    → m.iovecs h.iov ≡ some vec
    → IsNullOrBytes m h.name
    → IsNullOrBytes m h.control
    → h.control ≢ h.name ⊎ (h.control ≡ 0)
    → (m' : Memory) × (msg_free_all m p ≡ done m')
      × (m'.messages ≡ release m.messages p)
      × (m'.iovecs ≡ release m.iovecs h.iov)
      × ((x : ℕ) → x ≢ h.name → x ≢ h.control → m'.bytes x ≡ m.bytes x)
unfolding msg_free_all free_message free_iovecs
free_all_lem m p h vec np there ni iov name control apart =
    let m1 = record m { iovecs = release m.iovecs h.iov } in
    let (b2, run2, same2) = free_or_not m1 h.name name in
    let m2 = record m1 { bytes = b2 } in
    let still : IsNullOrBytes m2 h.control = elim apart [
      | inr z ↦ inl z
      | inl ne ↦ elim control [
        | inl z ↦ inl z
        | inr (bytes, allocated) ↦ inr (bytes, same2 h.control ne ∙ allocated)
      ]
    ] in
    let (b3, run3, same3) = free_or_not m2 h.control still in
    (
      record m2 { bytes = b3; messages = release m.messages p },
      rw (there, ==-of-≢ h.iov 0 ni, iov, run2, run3, ==-of-≢ p 0 np, there) refl,
      refl,
      refl,
      λ x a b. same3 x b ∙ same2 x a,
    )
