-- ===== src/Bytes/Copy.antt =====
-- What copies do to an array that is seen as the part before the place, the part at it, and the
-- rest.
use mathlib.Core.List.{append_assoc}
use free_rtos_tsn_compatibil.Prelude.{
  ℕ, zero, suc, ◌+◌, ◌≤◌, ◌≡◌, refl, ap, inl, inr, Option-cases, some, List, [], ◌∷◌, ◌++◌,
  get_elem?, set, length, length-append, length-set, get_elem?_of_lt, arith,
}
use free_rtos_tsn_compatibil.State.{done, ◌>>=◌}
use free_rtos_tsn_compatibil.Bytes.{copy_in, copy_out}

pub get_elem?-append :
    (front : List ℕ) (x : ℕ) (rest : List ℕ) → get_elem? (front ++ x ∷ rest) (length front) ≡ some x
get_elem?-append [] x rest = refl
get_elem?-append (y ∷ front) x rest = get_elem?-append front x rest

pub set-append :
    (front : List ℕ) (x y : ℕ) (rest : List ℕ)
    → set (front ++ x ∷ rest) (length front) y ≡ front ++ y ∷ rest
set-append [] x y rest = refl
set-append (z ∷ front) x y rest = ap (λ l. z ∷ l) (set-append front x y rest)

length_snoc : (front : List ℕ) (x : ℕ) → length front + 1 ≡ length (front ++ x ∷ [])
length_snoc front x = omega (arith, length-append front (x ∷ []))

-- A copy into the array replaces as many bytes.
pub copy_in_lem :
    (front source old rest : List ℕ)
    → length old ≡ length source
    → copy_in (length front) source (front ++ (old ++ rest)) ≡ done (front ++ (source ++ rest))
unfolding copy_in
copy_in_lem front [] [] rest h = refl
copy_in_lem front [] (x ∷ old) rest h = absurd (omega arith)
copy_in_lem front (b ∷ source) [] rest h = absurd (omega arith)
copy_in_lem front (b ∷ source) (x ∷ old) rest h =
    let next = copy_in_lem (front ++ b ∷ []) source old rest (omega arith) in
    rw
      (
        get_elem?-append front x (old ++ rest),
        set-append front x b (old ++ rest),
        length_snoc front b,
      )
      (simp append_assoc at next)

-- A copy out of the array gives the bytes that stand there.
pub copy_out_lem :
    (front source rest : List ℕ)
    → copy_out (length front) (length source) (front ++ (source ++ rest)) ≡ done source
unfolding copy_out
copy_out_lem front [] rest = refl
copy_out_lem front (b ∷ source) rest =
    let next = copy_out_lem (front ++ b ∷ []) source rest in
    let next' : copy_out (length front + 1) (length source) (front ++ b ∷ (source ++ rest))
        ≡ done source =
      rw (length_snoc front b) (simp append_assoc at next) in
    rw (get_elem?-append front b (source ++ rest), next') refl

-- Two copies, the second right behind the first, are one.
pub copy_in-append :
    (at : ℕ) (a b bytes : List ℕ)
    → copy_in at (a ++ b) bytes
      ≡ (copy_in at a bytes >>= λ bytes'. copy_in (at + length a) b bytes')
unfolding copy_in
copy_in-append at [] b bytes = ap (λ n. copy_in n b bytes) (omega arith)
copy_in-append at (x ∷ a) b bytes = elim (Option-cases (get_elem? bytes at)) [
  | inl outside ↦ rw (outside) refl
  | inr (old, there) ↦
      rw (there, copy_in-append (at + 1) a b (set bytes at x))
        (ap (λ n. copy_in (at + 1) a (set bytes at x) >>= λ bytes'. copy_in n b bytes')
          (omega arith))
]

-- An array of at least so many bytes in two parts.
pub split_at :
    (n : ℕ) (bytes : List ℕ)
    → n ≤ length bytes
    → (a : List ℕ) × (b : List ℕ) × (bytes ≡ a ++ b) × (length a ≡ n)
split_at zero bytes h = ([], bytes, refl, refl)
split_at (suc n) [] h = absurd (omega arith)
split_at (suc n) (x ∷ bytes) h =
    let (a, b, e, l) = split_at n bytes (omega arith) in (x ∷ a, b, ap (λ l. x ∷ l) e, ap suc l)

-- The same copy, at a place that is given by its number.
pub copy_in_at :
    (at : ℕ) (front source old rest : List ℕ)
    → length front ≡ at
    → length old ≡ length source
    → copy_in at source (front ++ (old ++ rest)) ≡ done (front ++ (source ++ rest))
copy_in_at at front source old rest e h = rw (← e) (copy_in_lem front source old rest h)

pub copy_out_at :
    (at n : ℕ) (front source rest : List ℕ)
    → length front ≡ at
    → length source ≡ n
    → copy_out at n (front ++ (source ++ rest)) ≡ done source
copy_out_at at n front source rest e h = rw (← e, ← h) (copy_out_lem front source rest)

-- A copy that stays inside of the array ends without a fault.
pub copy_in_within :
    (at : ℕ) (source bytes : List ℕ)
    → at + length source ≤ length bytes
    → (bytes' : List ℕ) × (copy_in at source bytes ≡ done bytes') × (length bytes' ≡ length bytes)
unfolding copy_in
copy_in_within at [] bytes h = (bytes, refl, refl)
copy_in_within at (b ∷ source) bytes h =
    let (old, there) = get_elem?_of_lt bytes at (omega arith) in
    let (bytes', run, len) =
      copy_in_within (at + 1) source (set bytes at b) (omega (arith, length-set bytes at b)) in
    (bytes', rw (there) run, omega (arith, length-set bytes at b))
