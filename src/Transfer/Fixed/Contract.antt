-- ===== src/Transfer/Fixed/Contract.antt =====
-- What fixed.cpp relies on in std::scoped_lock.
use systems_postmortems.Prelude.{ℕ, ◌<◌, Bool, true, false, ◌≡◌}
use systems_postmortems.Transfer.Broken.{Turn}
use systems_postmortems.Transfer.Fixed.{lock, try_lock, unlock, done, Algorithm, other}

-- The documented contract, in terms of what the algorithm has at each point of a call: it starts with
-- nothing and returns with both, tries and takes only what it has not, gives back only what it has,
-- and it waits in lock() only while it has nothing.
pub record IsLockAlgorithm (alg : Algorithm) : Type 0 where
  pub has : Turn → alg.Local → Bool
  pub enters : (m : Turn) → has m alg.enter ≡ false
  pub locks :
      (l k : alg.Local) (m : Turn)
      → alg.next l ≡ lock m k
      → (has m l ≡ false) × (has (other m) l ≡ false) × (has m k ≡ true) × (has (other m) k ≡ false)
  pub tries :
      (l taken busy : alg.Local) (m : Turn)
      → alg.next l ≡ try_lock m taken busy
      → (has m l ≡ false)
        × (has m taken ≡ true)
        × (has (other m) taken ≡ has (other m) l)
        × (has m busy ≡ false)
        × (has (other m) busy ≡ has (other m) l)
  pub unlocks :
      (l k : alg.Local) (m : Turn)
      → alg.next l ≡ unlock m k
      → (has m l ≡ true) × (has m k ≡ false) × (has (other m) k ≡ has (other m) l)
  pub returns : (l : alg.Local) (m : Turn) → alg.next l ≡ done → has m l ≡ true

-- And that a call returns in finitely many steps when it finds every mutex free, and that one that
-- has a mutex, whatever it finds, in finitely many steps returns or has none.
pub record IsProgressive (alg : Algorithm) (law : IsLockAlgorithm alg) : Type 0 where
  pub rank : alg.Local → ℕ
  pub patience : alg.Local → ℕ
  pub locks : (l k : alg.Local) (m : Turn) → alg.next l ≡ lock m k → rank k < rank l
  pub tries :
      (l taken busy : alg.Local) (m : Turn)
      → alg.next l ≡ try_lock m taken busy
      → (rank taken < rank l)
        × ((law.has (other m) l ≡ true)
            → (patience taken < patience l) × (patience busy < patience l))
  pub unlocks :
      (l k : alg.Local) (m : Turn)
      → alg.next l ≡ unlock m k
      → (rank k < rank l) × (patience k < patience l)
