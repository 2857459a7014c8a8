-- ===== src/Bytes.antt =====
-- Arrays of bytes: `memcpy` to and from a place in an array. An access outside of the array is a
-- fault.
pub mod Copy
pub mod Stores
pub mod Each
use free_rtos_tsn_compatibil.Prelude.{ℕ, zero, suc, ◌+◌, List, [], ◌∷◌, get_elem?, set}
use free_rtos_tsn_compatibil.State.{Run, done, ◌>>=◌, deref}

unfoldable pub copy_in : ℕ → List ℕ → List ℕ → Run (List ℕ)
copy_in at [] bytes = done bytes
copy_in at (b ∷ source) bytes =
    deref (get_elem? bytes at) >>= λ old. copy_in (at + 1) source (set bytes at b)

unfoldable pub copy_out : ℕ → ℕ → List ℕ → Run (List ℕ)
copy_out at zero bytes = done []
copy_out at (suc n) bytes =
    deref (get_elem? bytes at) >>= λ b. copy_out (at + 1) n bytes >>= λ rest. done (b ∷ rest)

-- Stores of single bytes, one after another, each with its place.
unfoldable pub store_all : List (ℕ × ℕ) → List ℕ → Run (List ℕ)
store_all [] bytes = done bytes
store_all ((at, b) ∷ stores) bytes =
    deref (get_elem? bytes at) >>= λ old. store_all stores (set bytes at b)
