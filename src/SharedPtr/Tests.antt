-- ===== src/SharedPtr/Tests.antt =====
-- A pointer to the object 7, with a copy.
use cpp_programming.Base.{◌≡◌, refl, some, [], ◌∷◌, undefined}
use cpp_programming.Base.Actions.{gives, raises, ◌>>=◌, ◌>>◌, state_of}
use cpp_programming.Base.Maps.{lookup, insert}
use cpp_programming.SharedPtr.{Heap, new_ptr, copy, reclaim, assign, destroy}
use cpp_programming.SharedPtr.Counts.{destroy-copy}

abbrev empty : Heap
empty = record { targets = []; counts = []; deleted = []; free = 1 }

destroy-copy_example :
    ((t : Heap) × ((do ptr ← new_ptr 7; destroy ptr) empty ≡ gives tt t) × (t.deleted ≡ 7 ∷ []))
    × ((t : Heap) × ((do ptr ← new_ptr 7; other ← copy ptr; destroy other; destroy ptr) empty
          ≡ raises undefined t)
        × (t.deleted ≡ []))
destroy-copy_example = destroy-copy 7 empty

-- `p1 = p2` of two pointers to different objects deletes the first object, and leaves two owners of
-- the second.
abbrev assigned : Heap
unfolding new_ptr assign
assigned = state_of ((do a ← new_ptr 7; b ← new_ptr 8; assign a b) empty)

assigned_deleted : assigned.deleted ≡ 7 ∷ []
unfolding assigned new_ptr assign reclaim insert lookup
assigned_deleted = refl

assigned_counts : lookup 4 assigned.counts ≡ some 2
unfolding assigned new_ptr assign reclaim insert lookup
assigned_counts = refl
