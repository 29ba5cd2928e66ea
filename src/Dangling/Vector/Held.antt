-- ===== src/Dangling/Vector/Held.antt =====
-- A reference and an index that are held while elements are pushed.
use systems_postmortems.Prelude.{
  ℕ, zero, suc, ◌+◌, ◌≤◌, ◌<◌, ◌≡◌, refl, sym, ap, ◌∙◌, leb, if◌then◌else◌, none, List, [], ◌∷◌,
  ◌++◌, arith, dec_lt,
}
use mathlib.Core.List.{append-nil, append_assoc}
use systems_postmortems.Prelude.Lists.{length, get_elem?}
use systems_postmortems.Dangling.Vector.{
  State, Reference, listed, elements, push_back, push_all, dereference, at,
}
use systems_postmortems.Dangling.Vector.Growth.{
  IsVector, IsFreed, length-append, push_back-IsVector, push_all-IsFreed, push_back-full,
  push_back-spare,
}

get_elem?-append {ℓ} :
    {A : Type ℓ} (xs ys : List A) (i : ℕ) → i < length xs → get_elem? (xs ++ ys) i ≡ get_elem? xs i
unfolding length get_elem?
get_elem?-append [] ys i h = absurd (omega arith)
get_elem?-append (x ∷ xs) ys zero h = refl
get_elem?-append (x ∷ xs) ys (suc i) h = get_elem?-append xs ys i (omega arith)

freed {ℓ} :
    {A : Type ℓ} (i b : ℕ) (v : State A)
    → IsFreed b v
    → dereference (record { block = b; index = i }) v ≡ none
unfolding dereference get_elem? listed
freed i b v f = rw (f.gone) refl

module _ {ℓ} {A : Type ℓ} (grow : ℕ → ℕ) (grows : (n : ℕ) → n < grow n) where
  -- After any number of pushes the elements are those from before and the new ones, in order.
  pub elements-push_all :
      (xs : List A) (v : State A)
      → IsVector v
      → IsVector (push_all grow xs v) × (elements (push_all grow xs v) ≡ elements v ++ xs)
  unfolding push_all
  elements-push_all [] v w = (w, sym (append-nil (elements v)))
  elements-push_all (x ∷ xs) v w =
      let (w', e) = push_back-IsVector grow grows x v w in
      let (u, d) = elements-push_all xs (push_back grow x v) w' in
      (u, d ∙ ap (λ ys. ys ++ xs) e ∙ append_assoc (elements v) (x ∷ []) xs)

  -- An index below the old size reads the same element after any number of pushes.
  pub at-push_all :
      (i : ℕ) (xs : List A) (v : State A)
      → IsVector v
      → i < length (elements v)
      → at i (push_all grow xs v) ≡ at i v
  unfolding at
  at-push_all i xs v w h =
      ap (λ ys. get_elem? ys i) (elements-push_all xs v w).1 ∙ get_elem?-append (elements v) xs i h

  abbrev held : ℕ → State A → Reference A
  held i v = record { block = v.data_block; index = i }

  read_spare :
      (i : ℕ) (xs : List A) (v : State A)
      → IsVector v
      → i < length (elements v)
      → length (elements v) + length xs ≤ v.capacity
      → dereference (held i v) (push_all grow xs v) ≡ at i v
  unfolding push_all dereference at length
  read_spare i [] v w h room = refl
  read_spare i (x ∷ xs) v w h room =
      let (w', e) = push_back-IsVector grow grows x v w in
      let (same, capacity) = push_back-spare grow grows x v (omega arith) in
      let longer = length-append (elements v) x in
      let rest =
        read_spare i xs (push_back grow x v) w' (ground (arith, e, longer))
          (ground (arith, e, longer, capacity)) in
      ap
        (λ b. dereference (record { block = b; index = i }) (push_all grow xs (push_back grow x v)))
        (sym same)
      ∙ rest
      ∙ ap (λ ys. get_elem? ys i) e
      ∙ get_elem?-append (elements v) (x ∷ []) i h

  read_freed :
      (i : ℕ) (xs : List A) (v : State A)
      → IsVector v
      → v.capacity < length (elements v) + length xs
      → dereference (held i v) (push_all grow xs v) ≡ none
  unfolding push_all length
  read_freed i [] v w over = absurd (omega (arith, w.fits))
  read_freed i (x ∷ xs) v w over =
      let (w', e) = push_back-IsVector grow grows x v w in
      let longer = length-append (elements v) x in
      elim (dec_lt (length (elements v)) v.capacity) [
        | yes spare ↦
            let (same, capacity) = push_back-spare grow grows x v spare in
            ap
              (λ b.
                dereference (record { block = b; index = i })
                  (push_all grow xs (push_back grow x v)))
              (sym same)
            ∙ read_freed i xs (push_back grow x v) w' (ground (arith, e, longer, capacity))
        | no full ↦ freed i v.data_block (push_all grow xs (push_back grow x v)) (
            push_all-IsFreed grow grows v.data_block xs (push_back grow x v)
              (push_back-full grow grows x v w (omega arith)))
      ]

  -- A reference to an element reads the same element after the pushes if the old size and the number
  -- of pushes are together within the capacity, and otherwise its block is freed.
  pub dereference-push_all :
      (i : ℕ) (xs : List A) (v : State A)
      → IsVector v
      → i < length (elements v)
      → dereference (record { block = v.data_block; index = i }) (push_all grow xs v)
        ≡ (if leb (length (elements v) + length xs) v.capacity then at i v else none)
  dereference-push_all i xs v w h = elim (dec_lt v.capacity (length (elements v) + length xs)) [
    | yes over ↦ read_freed i xs v w over ∙ ground arith
    | no room ↦ read_spare i xs v w h (omega arith) ∙ ground arith
  ]
