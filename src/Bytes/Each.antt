-- ===== src/Bytes/Each.antt =====
-- Each byte of an array after a copy.
use free_rtos_tsn_compatibil.Prelude.{
  ℕ, zero, suc, ◌+◌, ◌-◌, ◌≤◌, ◌<◌, ◌≡◌, refl, leb, ltb, ◌==◌, ◌&&◌, Bool-cases, inl, inr,
  if◌then◌else◌, some, List, [], ◌∷◌, get_elem?, set, get_elem?-set, get_elem?_of_lt, length-set,
  length, arith,
}
use free_rtos_tsn_compatibil.State.{done}
use free_rtos_tsn_compatibil.Bytes.{copy_in, copy_out}

pub copy_out_each :
    (at n : ℕ) (bytes : List ℕ)
    → at + n ≤ length bytes
    → (out : List ℕ) × (copy_out at n bytes ≡ done out)
      × (length out ≡ n)
      × ((j : ℕ) → j < n → get_elem? out j ≡ get_elem? bytes (at + j))
unfolding copy_out
copy_out_each at zero bytes h = ([], refl, refl, λ j below. absurd (omega arith))
copy_out_each at (suc n) bytes h =
    let (b, there) = get_elem?_of_lt bytes at (omega arith) in
    let (rest, run, len, each) = copy_out_each (at + 1) n bytes (omega arith) in
    (b ∷ rest, rw (there, run) refl, omega arith, go b rest there each)
  where
    go :
        (b : ℕ) (rest : List ℕ)
        → get_elem? bytes at ≡ some b
        → ((j : ℕ) → j < n → get_elem? rest j ≡ get_elem? bytes (at + 1 + j))
        → (j : ℕ) → j < suc n
        → get_elem? (b ∷ rest) j ≡ get_elem? bytes (at + j)
    go b rest there each zero below = ground (arith, there)
    go b rest there each (suc j) below = ground (arith, each j (omega arith))

get_elem?-later :
    (b : ℕ) (source : List ℕ) (n m : ℕ) → n ≡ suc m → get_elem? (b ∷ source) n ≡ get_elem? source m
get_elem?-later b source n m e = rw (e) refl

pub copy_in_each :
    (at : ℕ) (source bytes : List ℕ)
    → at + length source ≤ length bytes
    → (bytes' : List ℕ) × (copy_in at source bytes ≡ done bytes')
      × (length bytes' ≡ length bytes)
      × ((j : ℕ)
          → get_elem? bytes' j ≡ (
              if leb at j && ltb j (at + length source)
              then get_elem? source (j - at)
              else get_elem? bytes j))
unfolding copy_in
copy_in_each at [] bytes h = (bytes, refl, refl, λ j. ground arith)
copy_in_each at (b ∷ source) bytes h =
    let (old, there) = get_elem?_of_lt bytes at (omega arith) in
    let (bytes', run, len, each) =
      copy_in_each (at + 1) source (set bytes at b) (omega (arith, length-set bytes at b)) in
    (
      bytes',
      rw (there) run,
      omega (arith, length-set bytes at b),
      λ j. step at j b source bytes bytes' (omega arith) (each j),
    )
  where
    step :
        (at j b : ℕ) (source bytes bytes' : List ℕ)
        → at < length bytes
        → get_elem? bytes' j ≡ (
            if leb (at + 1) j && ltb j (at + 1 + length source)
            then get_elem? source (j - (at + 1))
            else get_elem? (set bytes at b) j)
        → get_elem? bytes' j ≡ (
            if leb at j && ltb j (at + length (b ∷ source))
            then get_elem? (b ∷ source) (j - at)
            else get_elem? bytes j)
    step at j b source bytes bytes' inside e = elim (Bool-cases (j == at)) [
      | inl same ↦
          let here : j ≡ at = ground arith in
          rw (here) (ground (arith, rw (here) at e, get_elem?-set bytes at at b inside))
      | inr other ↦ ground (
        arith,
        e,
        get_elem?-set bytes at j b inside,
        get_elem?-later b source (j - at) (j - (at + 1)),
      )
    ]
