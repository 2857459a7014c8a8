-- ===== src/Priority/Maximum.antt =====
-- The computed priority of the controller is a maximum.
use free_rtos_tsn_compatibil.Prelude.{
  ℕ, ◌≤◌, ◌≡◌, refl, ◌⊎◌, inl, inr, false, List, [], ◌∷◌, some, arith, All, ltb, if◌then◌else◌, sym,
  ◌∙◌,
}
use native.Mathlib.Nat.{le_trans}
use free_rtos_tsn_compatibil.Kernel.{Kernel}
use free_rtos_tsn_compatibil.State.{NetworkQueue, State, Config, done}
use free_rtos_tsn_compatibil.Priority.{is_empty, max_ipv, compute_priority, task_base_prio}

module _ (k : Kernel) (st : State k) where
  -- The address of a queue that is allocated.
  abbrev pub IsAllocated : ℕ → Type 0
  IsAllocated p = (q : NetworkQueue k) × (st.queues p ≡ some q)

  -- A queue with packets waiting has at most this internal priority.
  abbrev pub IsBounded : ℕ → ℕ → Type 0
  IsBounded m p = (q : NetworkQueue k) → st.queues p ≡ some q → is_empty k q ≡ false → q.ipv ≤ m

  -- Some listed queue with packets waiting has this internal priority.
  abbrev pub Attains : ℕ → List ℕ → Type 0
  Attains m [] = ⊥
  Attains m (p ∷ ps) =
      ((q : NetworkQueue k) × (st.queues p ≡ some q) × (is_empty k q ≡ false) × (q.ipv ≡ m))
      ⊎ Attains m ps

  -- `m` is the greatest of `base` and of the internal priorities of the listed queues with packets
  -- waiting.
  abbrev pub IsMaximum : ℕ → List ℕ → ℕ → Type 0
  IsMaximum base ps m = (base ≤ m) × All (IsBounded m) ps × ((m ≡ base) ⊎ Attains m ps)

  -- One round of the loop.
  abbrev raise : NetworkQueue k → ℕ → ℕ
  raise q base = if is_empty k q then base else if ltb base q.ipv then q.ipv else base

  raise_lem :
      (q : NetworkQueue k) (base : ℕ)
      → (base ≤ raise q base)
        × (is_empty k q ≡ false → q.ipv ≤ raise q base)
        × ((raise q base ≡ base) ⊎ ((is_empty k q ≡ false) × (q.ipv ≡ raise q base)))
  raise_lem q base = ground arith

  Attains-step :
      (p : ℕ) (ps : List ℕ) (q : NetworkQueue k) (base m : ℕ)
      → st.queues p ≡ some q
      → ((m ≡ raise q base) ⊎ Attains m ps)
      → (m ≡ base) ⊎ Attains m (p ∷ ps)
  Attains-step p ps q base m e (inr a) = inr (inr a)
  Attains-step p ps q base m e (inl r) = elim (raise_lem q base).2 [
    | inl same ↦ inl (r ∙ same)
    | inr (waiting, top) ↦ inr (inl (q, e, waiting, top ∙ sym r))
  ]

  max_ipv_lem :
      (ps : List ℕ) (base : ℕ)
      → All IsAllocated ps
      → (m : ℕ) × (max_ipv k st ps base ≡ done m) × IsMaximum base ps m
  unfolding max_ipv
  max_ipv_lem [] base h = (base, refl, (omega arith, tt, inl refl))
  max_ipv_lem (p ∷ ps) base ((q, e), h) =
      let (m, run, top) = max_ipv_lem ps (raise q base) h in
      let (least, bounded, attained) = top in
      (
        m,
        rw e run,
        (
          le_trans (raise_lem q base).0 least,
          (λ q' e' w. le_trans (bound q' e' w) least, bounded),
          Attains-step p ps q base m e attained,
        ),
      )
    where
      bound :
          (q' : NetworkQueue k)
          → st.queues p ≡ some q'
          → is_empty k q' ≡ false
          → q'.ipv ≤ raise q base
      bound q' e' w = let s : q' ≡ q = cc in rw s ((raise_lem q base).1 (rw s at w))

  -- If every listed queue is allocated, vTSNControllerComputePriority changes nothing but the
  -- priority of the controller's task, which becomes the greatest of the base priority and the
  -- internal priorities of the listed queues that have packets waiting.
  pub compute_priority_lem :
      (c : Config)
      → All IsAllocated st.queue_list
      → (m : ℕ) × (compute_priority k c st ≡ done (record st { controller_priority = m }))
        × IsMaximum (task_base_prio c) st.queue_list m
  unfolding compute_priority
  compute_priority_lem c h =
      let (m, run, top) = max_ipv_lem st.queue_list (task_base_prio c) h in (m, rw run refl, top)
