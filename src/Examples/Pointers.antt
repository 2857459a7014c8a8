-- ===== src/Examples/Pointers.antt =====
-- Queues of pointers that are lists of at most so many addresses.
use free_rtos_tsn_compatibil.Prelude.{
  ℕ, ◌≡◌, refl, Bool, true, false, ltb, if◌then◌else◌, Option, none, some, List, [], ◌∷◌, ◌++◌,
  length, arith,
}
use free_rtos_tsn_compatibil.Kernel.{PointerQueues}

pub record Pointers : Type 0 where
  pub cap : ℕ
  pub items : List ℕ

abbrev pub create : ℕ → Option Pointers
create n = some (record { cap = n; items = [] })

abbrev pub send : Pointers → ℕ → ℕ → Pointers × Bool
send q x t =
    if ltb (length q.items) q.cap
    then (record q { items = q.items ++ (x ∷ []) }, true)
    else (q, false)

abbrev pub take_first : ℕ → List ℕ → Pointers × Option ℕ
take_first cap [] = (record { cap = cap; items = [] }, none)
take_first cap (x ∷ xs) = (record { cap = cap; items = xs }, some x)

pub create_empty_lem : (n : ℕ) (q : Pointers) → create n ≡ some q → q.items ≡ []
create_empty_lem n q h = ground arith

pub send_done_lem :
    (q : Pointers) (x t : ℕ) → (send q x t).1 ≡ true → (send q x t).0.items ≡ q.items ++ (x ∷ [])
send_done_lem q x t h = ground arith

pub send_full_lem : (q : Pointers) (x t : ℕ) → (send q x t).1 ≡ false → (send q x t).0 ≡ q
send_full_lem q x t h = ground arith

pub take_done :
    (cap : ℕ) (xs : List ℕ) (x : ℕ)
    → (take_first cap xs).1 ≡ some x
    → xs ≡ x ∷ (take_first cap xs).0.items
take_done cap [] x h = cc
take_done cap (y ∷ xs) x h = ground arith

pub take_none :
    (cap : ℕ) (xs : List ℕ)
    → (take_first cap xs).1 ≡ none
    → (xs ≡ []) × ((take_first cap xs).0 ≡ record { cap = cap; items = xs })
take_none cap [] h = (refl, refl)
take_none cap (y ∷ xs) h = cc

abbrev pub pointers : PointerQueues
pointers = record {
  Queue = Pointers;
  contents = λ q. q.items;
  create = create;
  send = send;
  receive = λ q t. take_first q.cap q.items;
  reset = λ q. record q { items = [] };
  create_empty = create_empty_lem;
  send_done = send_done_lem;
  send_full = send_full_lem;
  receive_done = λ q t x h. take_done q.cap q.items x h;
  receive_empty = λ q t h. take_none q.cap q.items h;
  reset_empty = λ q. refl;
}
