-- ===== src/SharedPtr/Counts.antt =====
-- What becomes of pointers that are copied.
use cpp_programming.Base.{
  ℕ, ◌+◌, ◌-◌, ◌≡◌, refl, ◌∙◌, false, none, some, ◌∷◌, arith, ◌==◌, ==_refl, undefined,
}
use cpp_programming.Base.Actions.{gives, raises, ◌>>=◌, ◌>>◌}
use cpp_programming.Base.Maps.{Dict, lookup, insert, erase, lookup-insert, lookup-erase}
use cpp_programming.SharedPtr.{Heap, MySharedPtr, new_ptr, copy, reclaim, destroy}

lookup-insert-own : (k v : ℕ) (m : Dict ℕ) → lookup k (insert k v m) ≡ some v
lookup-insert-own k v m = lookup-insert k k v m ∙ rw (==_refl k) refl

lookup-erase-own : (k : ℕ) (m : Dict ℕ) → lookup k (erase k m) ≡ none
lookup-erase-own k m = lookup-erase k k m ∙ rw (==_refl k) refl

-- The destructor of a pointer that owns its object alone, and of one that shares it.
destroy_alone :
    (this : MySharedPtr) (object : ℕ) (s : Heap)
    → lookup this.p s.targets ≡ some object
    → lookup this.n s.counts ≡ some 1
    → (t : Heap) × (destroy this s ≡ gives tt t) × (t.deleted ≡ object ∷ s.deleted)
unfolding destroy reclaim
destroy_alone this object s e f = (
  record s {
    targets = erase this.p s.targets;
    counts = erase this.n (insert this.n 0 s.counts);
    deleted = object ∷ s.deleted;
  },
  rw (f, lookup-insert-own this.n 0 s.counts, e, e, lookup-insert-own this.n 0 s.counts) refl,
  refl,
)

destroy_shared :
    (this : MySharedPtr) (object v : ℕ) (s : Heap)
    → lookup this.p s.targets ≡ some object
    → lookup this.n s.counts ≡ some (v + 2)
    → (t : Heap) × (destroy this s ≡ gives tt t)
      × (t.deleted ≡ s.deleted)
      × (lookup this.n t.counts ≡ none)
unfolding destroy reclaim
destroy_shared this object v s e f =
    let more : (v + 2 - 1 == 0) ≡ false = ground arith in
    (
      record s {
        targets = erase this.p s.targets;
        counts = erase this.n (insert this.n (v + 2 - 1) s.counts);
      },
      rw
          (
            f,
            lookup-insert-own this.n (v + 2 - 1) s.counts,
            more,
            e,
            lookup-insert-own this.n (v + 2 - 1) s.counts,
          )
          refl,
      refl,
      lookup-erase-own this.n (insert this.n (v + 2 - 1) s.counts),
    )

destroy_gone :
    (this : MySharedPtr) (s : Heap)
    → lookup this.n s.counts ≡ none
    → destroy this s ≡ raises undefined s
unfolding destroy reclaim
destroy_gone this s e = rw e refl

-- A pointer that is made for an object and destroyed deletes the object once. If it has been copied,
-- and the copy is destroyed first, the count is taken away with the copy: the destruction of the
-- pointer uses memory that it no longer has, and the object is not deleted.
pub destroy-copy :
    (object : ℕ) (s : Heap)
    → ((t : Heap) × ((do ptr ← new_ptr object; destroy ptr) s ≡ gives tt t)
        × (t.deleted ≡ object ∷ s.deleted))
      × ((t : Heap) × ((do ptr ← new_ptr object; other ← copy ptr; destroy other; destroy ptr) s
            ≡ raises undefined t)
          × (t.deleted ≡ s.deleted))
unfolding new_ptr copy
destroy-copy object s =
    let this : MySharedPtr = record { p = s.free; n = s.free + 1 } in
    let s1 = record s {
      targets = insert s.free object s.targets;
      counts = insert (s.free + 1) 1 s.counts;
      free = s.free + 2;
    } in
    let s2 = record s1 { counts = insert (s.free + 1) 2 s1.counts } in
    let own_target : lookup s.free s1.targets ≡ some object =
      lookup-insert-own s.free object s.targets in
    let own_count : lookup (s.free + 1) s1.counts ≡ some 1 =
      lookup-insert-own (s.free + 1) 1 s.counts in
    let (t, e, d) = destroy_alone this object s1 own_target own_count in
    let (u, f, g, h) =
      destroy_shared this object 0 s2 own_target (lookup-insert-own (s.free + 1) 2 s1.counts) in
    ((t, e, d), (u, rw (own_count, f) (destroy_gone this u h), g))
