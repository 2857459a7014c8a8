-- ===== src/Bytes/Stores.antt =====
-- What stores of single bytes leave in an array: the last one at each place counts.
use free_rtos_tsn_compatibil.Prelude.{
  ℕ, ◌≤◌, ◌<◌, ◌≡◌, refl, Option, some, List, [], ◌∷◌, get_elem?, set, get_elem?-set, length-set,
  length, ◌==◌, if◌then◌else◌, get_elem?_of_lt, arith,
}
use free_rtos_tsn_compatibil.State.{done}
use free_rtos_tsn_compatibil.Bytes.{store_all}

-- The byte at a place, given the byte that stood there before.
abbrev pub after_stores : List (ℕ × ℕ) → ℕ → Option ℕ → Option ℕ
after_stores [] j old = old
after_stores ((at, b) ∷ stores) j old = after_stores stores j (if at == j then some b else old)

abbrev pub AreWithin : ℕ → List (ℕ × ℕ) → Type 0
AreWithin n [] = Unit {0}
AreWithin n ((at, b) ∷ stores) = (at < n) × AreWithin n stores

pub store_all_lem :
    (stores : List (ℕ × ℕ)) (n : ℕ) (bytes : List ℕ)
    → AreWithin n stores
    → n ≤ length bytes
    → (bytes' : List ℕ) × (store_all stores bytes ≡ done bytes')
      × (length bytes' ≡ length bytes)
      × ((j : ℕ) → get_elem? bytes' j ≡ after_stores stores j (get_elem? bytes j))
unfolding store_all
store_all_lem [] n bytes w h = (bytes, refl, refl, λ j. refl)
store_all_lem ((at, b) ∷ stores) n bytes (l, w) h =
    let (old, there) = get_elem?_of_lt bytes at (omega arith) in
    let (bytes', run, len, each) =
      store_all_lem stores n (set bytes at b) w (omega (arith, length-set bytes at b)) in
    (
      bytes',
      rw (there) run,
      omega (arith, length-set bytes at b),
      λ j. rw (← get_elem?-set bytes at j b (omega arith)) (each j),
    )
