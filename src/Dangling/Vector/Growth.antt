-- ===== src/Dangling/Vector/Growth.antt =====
-- What pushing any number of elements does to the elements, and to a reference that is held across.
use systems_postmortems.Prelude.{ℕ, ◌+◌, ◌≤◌, ◌<◌, ◌≡◌, ◌≢◌, refl, none, List, [], ◌∷◌, ◌++◌, arith}
use systems_postmortems.Prelude.Lists.{length}
use systems_postmortems.Dangling.Vector.{State, listed, elements, push_all, push_back}

-- A vector whose block is allocated or null, with unused block numbers free.
pub record IsVector {ℓ} {A : Type ℓ} (v : State A) : Type ℓ where
  pub fresh : (b : ℕ) → v.next ≤ b → v.blocks b ≡ none
  pub older : v.data_block < v.next
  pub fits : length (elements v) ≤ v.capacity

pub length-append {ℓ} : {A : Type ℓ} (xs : List A) (x : A) → length (xs ++ (x ∷ [])) ≡ length xs + 1
unfolding length
length-append [] x = refl
length-append (y ∷ xs) x = omega (arith, length-append xs x)

-- The block `b` is not in use any more, and freed.
pub record IsFreed {ℓ} {A : Type ℓ} (b : ℕ) (v : State A) : Type ℓ where
  pub allocated : b < v.next
  pub other : v.data_block ≢ b
  pub gone : v.blocks b ≡ none

module _ {ℓ} {A : Type ℓ} (grow : ℕ → ℕ) (grows : (n : ℕ) → n < grow n) where
  -- After `push_back` a vector is still one, and has one more element, at the end.
  pub push_back-IsVector :
      (x : A) (v : State A)
      → IsVector v
      → IsVector (push_back grow x v) × (elements (push_back grow x v) ≡ elements v ++ (x ∷ []))
  unfolding push_back listed
  push_back-IsVector x v w = (
    record {
      fresh = λ b h. ground (arith, w.older, w.fresh b);
      older = ground (arith, w.older);
      fits =
          ground
            (arith, grows (length (elements v)), w.older, w.fits, length-append (elements v) x);
    },
    ground (arith, w.older),
  )

  push_back-IsFreed : (b : ℕ) (x : A) (v : State A) → IsFreed b v → IsFreed b (push_back grow x v)
  unfolding push_back
  push_back-IsFreed b x v f = record {
    allocated = ground (arith, f.allocated);
    other = λ e. ground (arith, f.allocated, f.other);
    gone = ground (arith, f.allocated, f.other, f.gone);
  }

  pub push_all-IsFreed :
      (b : ℕ) (xs : List A) (v : State A) → IsFreed b v → IsFreed b (push_all grow xs v)
  unfolding push_all
  push_all-IsFreed b [] v f = f
  push_all-IsFreed b (x ∷ xs) v f =
      push_all-IsFreed b xs (push_back grow x v) (push_back-IsFreed b x v f)

  pub push_back-full :
      (x : A) (v : State A)
      → IsVector v
      → v.capacity ≤ length (elements v)
      → IsFreed v.data_block (push_back grow x v)
  unfolding push_back
  push_back-full x v w full = record {
    allocated = ground (arith, w.older);
    other = λ e. ground (arith, w.older);
    gone = ground (arith, w.older);
  }

  pub push_back-spare :
      (x : A) (v : State A)
      → length (elements v) < v.capacity
      → ((push_back grow x v).data_block ≡ v.data_block)
        × ((push_back grow x v).capacity ≡ v.capacity)
  unfolding push_back
  push_back-spare x v spare = ground arith
