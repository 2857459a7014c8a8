-- ===== src/State/Heap.antt =====
-- What a read of a heap gives after a write or a release.
use free_rtos_tsn_compatibil.Prelude.{ℕ, ◌≡◌, ◌≢◌, refl, ==-same, Option, none, some, arith}
use free_rtos_tsn_compatibil.State.{update, release}

module _ {ℓ} {A : Type ℓ} (heap : ℕ → Option A) where
  pub read_back : (a : ℕ) (v : A) → update heap a v a ≡ some v
  read_back a v = rw (==-same a) refl

  pub read_other : (at a : ℕ) (v : A) → a ≢ at → update heap at v a ≡ heap a
  read_other at a v ne = ground arith

  pub release_other : (at a : ℕ) → a ≢ at → release heap at a ≡ heap a
  release_other at a ne = ground arith

  pub released_here : (a : ℕ) → release heap a a ≡ none
  released_here a = rw (==-same a) refl
