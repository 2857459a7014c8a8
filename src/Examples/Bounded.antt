-- ===== src/Examples/Bounded.antt =====
-- A kernel whose queues are lists of at most so many items, with one tick to a millisecond: it
-- meets what the development asks of a kernel.
use free_rtos_tsn_compatibil.Prelude.{
  ℕ, ◌≡◌, refl, Bool, true, false, ltb, if◌then◌else◌, Option, none, some, List, [], ◌∷◌, ◌++◌,
  length, get_elem?, arith,
}
use free_rtos_tsn_compatibil.Kernel.{Kernel, Item}

pub record Bounded : Type 0 where
  pub cap : ℕ
  pub items : List Item

abbrev pub fresh : ℕ → Bounded
fresh n = record { cap = n; items = [] }

abbrev pub send : Bounded → Item → ℕ → Bounded × Bool
send q x t =
    if ltb (length q.items) q.cap
    then (record q { items = q.items ++ (x ∷ []) }, true)
    else (q, false)

abbrev pub take_first : ℕ → List Item → Bounded × Option Item
take_first cap [] = (record { cap = cap; items = [] }, none)
take_first cap (x ∷ xs) = (record { cap = cap; items = xs }, some x)

pub create_empty_lem : (n : ℕ) (q : Bounded) → Option.some (fresh n) ≡ some q → q.items ≡ []
create_empty_lem n q h = ground arith

pub send_done_lem :
    (q : Bounded) (x : Item) (t : ℕ)
    → (send q x t).1 ≡ true
    → (send q x t).0.items ≡ q.items ++ (x ∷ [])
send_done_lem q x t h = ground arith

pub send_full_lem : (q : Bounded) (x : Item) (t : ℕ) → (send q x t).1 ≡ false → (send q x t).0 ≡ q
send_full_lem q x t h = ground arith

pub take_done :
    (cap : ℕ) (xs : List Item) (x : Item)
    → (take_first cap xs).1 ≡ some x
    → xs ≡ x ∷ (take_first cap xs).0.items
take_done cap [] x h = cc
take_done cap (y ∷ xs) x h = ground arith

pub take_none :
    (cap : ℕ) (xs : List Item)
    → (take_first cap xs).1 ≡ none
    → (xs ≡ []) × ((take_first cap xs).0 ≡ record { cap = cap; items = xs })
take_none cap [] h = (refl, refl)
take_none cap (y ∷ xs) h = cc

abbrev pub bounded_kernel : Kernel
bounded_kernel = record {
  Queue = Bounded;
  contents = λ q. q.items;
  create = λ n. some (fresh n);
  send_to_back = send;
  receive = λ q t. take_first q.cap q.items;
  peek = λ q. get_elem? q.items 0;
  messages_waiting = λ q. length q.items;
  ms_to_ticks = λ ms. ms;
  max_delay = 4_294_967_295;
  create_empty = create_empty_lem;
  send_done = send_done_lem;
  send_full = send_full_lem;
  receive_done = λ q t x h. take_done q.cap q.items x h;
  receive_empty = λ q t h. take_none q.cap q.items h;
  peek_head = λ q. refl;
  waiting_length = λ q. refl;
}
