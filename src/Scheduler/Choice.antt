-- ===== src/Scheduler/Choice.antt =====
-- Which queue the loop of `xNetworkQueueInsertPacketByFilter`
-- (source/FreeRTOS_TSN_NetworkScheduler.c) chooses.
use free_rtos_tsn_compatibil.Prelude.{
  Bool, ◌∙◌, ℕ, ◌≤◌, ◌<◌, ◌≡◌, refl, ap, ◌⊎◌, inl, inr, true, false, Option, none, some, List, [],
  ◌∷◌, ◌++◌, All, arith,
}
use free_rtos_tsn_compatibil.Kernel.{Kernel, Item}
use free_rtos_tsn_compatibil.State.{NetworkQueue, done, deref, ◌>>=◌}
use free_rtos_tsn_compatibil.Scheduler.{is_match, consider, choose}

module _ (k : Kernel) (heap : ℕ → Option (NetworkQueue k)) (item : Item) where
  -- An address that leads to a queue with a filter.
  abbrev pub IsQueue : ℕ → Type 0
  IsQueue p = (q : NetworkQueue k) × (heap p ≡ some q) × ((f : ℕ → Bool) × (q.filter ≡ some f))

  -- The queue at this address does not match the item.
  abbrev pub Unmatched : ℕ → Type 0
  Unmatched p = (q : NetworkQueue k) → heap p ≡ some q → is_match k item q ≡ false

  -- If the queue at this address matches the item, its internal priority is at most, or below, the
  -- bound.
  abbrev pub AtMost : ℕ → ℕ → Type 0
  AtMost bound p = (q : NetworkQueue k) → heap p ≡ some q → is_match k item q ≡ true → q.ipv ≤ bound

  abbrev pub Below : ℕ → ℕ → Type 0
  Below bound p = (q : NetworkQueue k) → heap p ≡ some q → is_match k item q ≡ true → q.ipv < bound

  -- A queue of the list that matches the item, with a priority above those of the matching queues
  -- before it and not below those after it.
  pub record Winner (ps : List ℕ) : Type 0 where
    pub address : ℕ
    pub queue : NetworkQueue k
    pub before : List ℕ
    pub after : List ℕ
    pub split : ps ≡ before ++ (address ∷ after)
    pub allocated : heap address ≡ some queue
    pub matches : is_match k item queue ≡ true
    pub first : All (Below queue.ipv) before
    pub highest : All (AtMost queue.ipv) after

  same_queue : {p : ℕ} {q q' : NetworkQueue k} → heap p ≡ some q → heap p ≡ some q' → q' ≡ q
  same_queue e e' = cc

  skip :
      {p : ℕ} {ps : List ℕ} {q : NetworkQueue k}
      → heap p ≡ some q
      → (w : Winner ps) → (is_match k item q ≡ true → q.ipv < w.queue.ipv)
      → Winner (p ∷ ps)
  skip {p} e w h = record {
    address = w.address;
    queue = w.queue;
    before = p ∷ w.before;
    after = w.after;
    split = ap (λ l. p ∷ l) w.split;
    allocated = w.allocated;
    matches = w.matches;
    first = (λ q' e' m. let s = same_queue e e' in rw s (h (rw s at m)), w.first);
    highest = w.highest;
  }

  -- One round of the loop, at an address that leads to a queue with a filter.
  pub choose_step :
      (p : ℕ) (ps : List ℕ) (q : NetworkQueue k) (f : ℕ → Bool)
      (chosen : Option (ℕ × NetworkQueue k))
      → heap p ≡ some q
      → q.filter ≡ some f
      → choose k heap item (p ∷ ps) chosen ≡ choose k heap item ps (consider k item p q chosen)
  unfolding choose
  choose_step p ps q f chosen e ef =
      ap
        (λ o. deref o >>= λ r.
          deref r.filter >>= λ g. choose k heap item ps (consider k item p r chosen))
        e
      ∙ ap (λ o. deref o >>= λ g. choose k heap item ps (consider k item p q chosen)) ef

  -- What the loop finds when it starts with a chosen queue.
  abbrev Outcome : ℕ → NetworkQueue k → List ℕ → Type 0
  Outcome c chosen ps =
      ((choose k heap item ps (some (c, chosen)) ≡ done (some (c, chosen)))
        × All (AtMost chosen.ipv) ps)
      ⊎ ((w : Winner ps) × (choose k heap item ps (some (c, chosen))
            ≡ done (some (w.address, w.queue)))
          × (chosen.ipv < w.queue.ipv))

  here :
      {p : ℕ} {ps : List ℕ} {q : NetworkQueue k}
      → heap p ≡ some q
      → is_match k item q ≡ true
      → All (AtMost q.ipv) ps
      → Winner (p ∷ ps)
  here {p} {ps} {q} e m h = record {
    address = p;
    queue = q;
    before = [];
    after = ps;
    split = refl;
    allocated = e;
    matches = m;
    first = tt;
    highest = h;
  }

  Outcome-keep :
      {p : ℕ} {ps : List ℕ} {q : NetworkQueue k} (c : ℕ) (chosen : NetworkQueue k)
      → heap p ≡ some q
      → ((f : ℕ → Bool) × (q.filter ≡ some f))
      → consider k item p q (some (c, chosen)) ≡ some (c, chosen)
      → (is_match k item q ≡ true → q.ipv ≤ chosen.ipv)
      → Outcome c chosen ps
      → Outcome c chosen (p ∷ ps)
  unfolding choose skip
  Outcome-keep {p} {ps} {q} c chosen e (f, ef) same le (inl (run, h)) = inl (
    choose_step p ps q f (some (c, chosen)) e ef ∙ ap (choose k heap item ps) same ∙ run,
    (λ q' e' m. let s = same_queue e e' in rw s (le (rw s at m)), h),
  )
  Outcome-keep {p} {ps} {q} c chosen e (f, ef) same le (inr (w, run, lt)) = inr (
    skip e w (λ m. let l = le m in omega arith),
    choose_step p ps q f (some (c, chosen)) e ef ∙ ap (choose k heap item ps) same ∙ run,
    lt,
  )

  Outcome-replace :
      {p : ℕ} {ps : List ℕ} {q : NetworkQueue k} (c : ℕ) (chosen : NetworkQueue k)
      → heap p ≡ some q
      → ((f : ℕ → Bool) × (q.filter ≡ some f))
      → consider k item p q (some (c, chosen)) ≡ some (p, q)
      → is_match k item q ≡ true
      → chosen.ipv < q.ipv
      → Outcome p q ps
      → Outcome c chosen (p ∷ ps)
  unfolding choose skip here
  Outcome-replace {p} {ps} {q} c chosen e (f, ef) new m lt (inl (run, h)) = inr (
    here e m h,
    choose_step p ps q f (some (c, chosen)) e ef ∙ ap (choose k heap item ps) new ∙ run,
    lt,
  )
  Outcome-replace {p} {ps} {q} c chosen e (f, ef) new m lt (inr (w, run, above)) = inr (
    skip e w (λ _. above),
    choose_step p ps q f (some (c, chosen)) e ef ∙ ap (choose k heap item ps) new ∙ run,
    omega arith,
  )

  -- The three ways that a round can go.
  consider_cases :
      (p : ℕ) (q : NetworkQueue k) (c : ℕ) (chosen : NetworkQueue k)
      → ((consider k item p q (some (c, chosen)) ≡ some (c, chosen))
          × (is_match k item q ≡ true → q.ipv ≤ chosen.ipv))
        ⊎ ((consider k item p q (some (c, chosen)) ≡ some (p, q))
            × (is_match k item q ≡ true)
            × (chosen.ipv < q.ipv))
  unfolding consider
  consider_cases p q c chosen = ground arith

  consider_first :
      (p : ℕ) (q : NetworkQueue k)
      → ((consider k item p q none ≡ none) × (is_match k item q ≡ false))
        ⊎ ((consider k item p q none ≡ some (p, q)) × (is_match k item q ≡ true))
  unfolding consider
  consider_first p q = ground arith

  outcome : (ps : List ℕ) (c : ℕ) (chosen : NetworkQueue k) → All IsQueue ps → Outcome c chosen ps
  unfolding choose
  outcome [] c chosen h = inl (refl, tt)
  outcome (p ∷ ps) c chosen ((q, e, (f, ef)), h) = elim (consider_cases p q c chosen) [
    | inl (same, le) ↦ Outcome-keep c chosen e (f, ef) same le (outcome ps c chosen h)
    | inr (new, m, lt) ↦ Outcome-replace c chosen e (f, ef) new m lt (outcome ps p q h)
  ]

  -- If every listed address leads to a queue with a filter, the loop ends without a fault. Either
  -- it chooses no queue and none of the list matches the item, or it chooses a matching queue
  -- whose internal priority is above those of the matching queues listed before it, and not below
  -- those listed after it.
  pub choose_lem :
      (ps : List ℕ)
      → All IsQueue ps
      → ((choose k heap item ps none ≡ done none) × All Unmatched ps)
        ⊎ ((w : Winner ps) × (choose k heap item ps none ≡ done (some (w.address, w.queue))))
  unfolding choose skip here
  choose_lem [] h = inl (refl, tt)
  choose_lem (p ∷ ps) ((q, e, (f, ef)), h) = elim (consider_first p q) [
    | inl (none_yet, m) ↦ elim (choose_lem ps h) [
      | inl (run, h') ↦ inl (
        choose_step p ps q f none e ef ∙ ap (choose k heap item ps) none_yet ∙ run,
        (λ q' e'. rw (same_queue e e') m, h'),
      )
      | inr (w, run) ↦ inr (
        skip e w (λ m'. cc),
        choose_step p ps q f none e ef ∙ ap (choose k heap item ps) none_yet ∙ run,
      )
    ]
    | inr (new, m) ↦ elim (outcome ps p q h) [
      | inl (run, h') ↦
          inr (here e m h', choose_step p ps q f none e ef ∙ ap (choose k heap item ps) new ∙ run)
      | inr (w, run, lt) ↦ inr (
        skip e w (λ _. lt),
        choose_step p ps q f none e ef ∙ ap (choose k heap item ps) new ∙ run,
      )
    ]
  ]
