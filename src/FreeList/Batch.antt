-- ===== src/FreeList/Batch.antt =====
-- `FreeList::popBatch`.
use m_alloc.Base.{ℕ, zero, suc, ◌≡◌, refl, List, [], ◌∷◌, take, drop, ap, sym, subst}
use m_alloc.Memory.{Ptr, Bytes}
use m_alloc.FreeList.{FreeList, pop, pop_batch}
use m_alloc.FreeList.Chain.{IsFreeList}
use m_alloc.FreeList.Stack.{pop-cons, pop-nil}

-- `popBatch` hands out the first blocks of the list, in order and as many as the span has room for
-- or the list holds, and leaves the others.
pub pop_batch-take :
    (room : ℕ) (f : FreeList) (m : Bytes) (xs : List Ptr)
    → IsFreeList m f xs
    → ((pop_batch room f m).0 ≡ take room xs) × IsFreeList m (pop_batch room f m).1 (drop room xs)
unfolding pop_batch
pop_batch-take zero f m xs is = (refl, is)
pop_batch-take (suc room) f m [] is =
    let e = pop-nil f m is in
    rw (ap (λ r. r.0) e, pop_batch) (refl, subst (λ r. IsFreeList m r.1 []) (sym e) is)
pop_batch-take (suc room) f m (x ∷ xs) is =
    let (got, left) = pop-cons f m x xs is in
    let rest = pop_batch-take room (pop f m).1 m xs left in
    rw (got, pop_batch) (ap (◌∷◌ x) rest.0, rest.1)
