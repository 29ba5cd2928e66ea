-- ===== src/Dangling/Vector.antt =====
-- `std::vector` as its documentation describes it, on an explicit store of blocks: `push_back`, and
-- reading through a reference and through an index. The capacity that a reallocation asks for is a
-- parameter.
pub mod Growth
pub mod Held
use systems_postmortems.Prelude.{
  ℕ, zero, suc, ◌+◌, ◌==◌, if◌then◌else◌, ltb, Option, none, some, List, [], ◌∷◌, ◌++◌,
}
use systems_postmortems.Prelude.Lists.{length, get_elem?}

module _ {ℓ} (A : Type ℓ) where
  -- The elements in each block of storage, `none` when it is not allocated. Block 0 is the null
  -- pointer; a new block gets the number `next`, so no number is used again.
  pub record State : Type ℓ where
    pub blocks : ℕ → Option (List A)
    pub next : ℕ
    pub data_block : ℕ
    pub capacity : ℕ

  -- A reference to the element at an index of a block.
  pub record Reference : Type 0 where
    pub block : ℕ
    pub index : ℕ

  abbrev pub empty : State
  empty = record { blocks = λ b. none; next = 1; data_block = 0; capacity = 0 }

-- The elements of a block, none at the null pointer.
unfoldable pub listed {ℓ} : {A : Type ℓ} → Option (List A) → List A
listed none = []
listed (some xs) = xs

abbrev pub elements {ℓ} : {A : Type ℓ} → State A → List A
elements v = listed (v.blocks v.data_block)

abbrev pub set_block {ℓ} :
    {A : Type ℓ} → ℕ → Option (List A) → (ℕ → Option (List A)) → ℕ → Option (List A)
set_block b content blocks c = if c == b then content else blocks c

-- The element goes into the spare capacity, or else, with all the others, into a new block, and the
-- old one is freed. `grow` is the new capacity as a function of the size.
unfoldable pub push_back {ℓ} : {A : Type ℓ} → (ℕ → ℕ) → A → State A → State A
push_back grow x v =
    let xs = elements v in
    if ltb (length xs) v.capacity
    then record v { blocks = set_block v.data_block (some (xs ++ (x ∷ []))) v.blocks }
    else record {
      blocks = set_block v.data_block none (set_block v.next (some (xs ++ (x ∷ []))) v.blocks);
      next = v.next + 1;
      data_block = v.next;
      capacity = grow (length xs);
    }

-- Pushing elements one after the other.
unfoldable pub push_all {ℓ} : {A : Type ℓ} → (ℕ → ℕ) → List A → State A → State A
unfolding push_back
push_all grow [] v = v
push_all grow (x ∷ xs) v = push_all grow xs (push_back grow x v)

abbrev pub front {ℓ} : {A : Type ℓ} → State A → Reference A
front v = record { block = v.data_block; index = 0 }

-- Reading through a reference, `none` where it is undefined: the block is freed, or it has no such
-- element.
unfoldable pub dereference {ℓ} : {A : Type ℓ} → Reference A → State A → Option A
unfolding listed
dereference r v = get_elem? (listed (v.blocks r.block)) r.index

-- `v[i]`, `none` where it is undefined.
unfoldable pub at {ℓ} : {A : Type ℓ} → ℕ → State A → Option A
unfolding listed
at i v = get_elem? (elements v) i
