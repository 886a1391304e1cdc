-- ===== src/SharedPtr.antt =====
-- smart_pointer/my_shared_ptr/my_shared_ptr.h: the class MySharedPtr, on a heap of cells that `new`
-- makes and `delete` takes away. A use of a cell that has been taken away is undefined.
pub mod Counts
mod Tests
use cpp_programming.Base.{
  ℕ, zero, suc, ◌+◌, ◌-◌, ◌*◌, ◌/◌, ◌%◌, ◌^◌, ◌≤◌, ◌<◌, pred, ◌≡◌, refl, sym, ap, ◌∙◌, subst, ◌≢◌,
  ◌↔◌, ◌⊎◌, inl, inr, Bool, true, false, ◌&&◌, ◌||◌, not, Option, none, some, List, [], ◌∷◌, ◌++◌,
  map, append-nil, append_assoc, arith, ltb, leb, ◌==◌, if◌then◌else◌, ==_iff, ==_refl, Bool-cases,
  Option-cases, length, is_empty, get_elem?, set, take, drop, All, length-append, length-drop,
  length-take, take-append-drop, take-append, drop-append, length-set, Exn, runtime_error,
  invalid_argument, out_of_range, out_of_fuel, undefined, blocked, system_error, Outcome, returned,
  threw, Result, ok, err,
}
use cpp_programming.Base.Actions.{
  Reply, gives, raises, Action, give, raise, and_then, ◌>>=◌, ◌>>◌, when, swallow, try_log,
  state_of,
}
use cpp_programming.Base.Maps.{
  Dict, lookup, has, insert, insert_sorted, erase, lookup-insert_sorted, lookup-erase,
  lookup-has-false, lookup-has-true, has-some, has-none,
}

-- The cells `*p` and `*n`, the objects that have been deleted, and the next address that is free.
pub record Heap : Type 0 where
  pub targets : Dict ℕ
  pub counts : Dict ℕ
  pub deleted : List ℕ
  pub free : ℕ

abbrev pub Act {ℓ} : Type ℓ → Type ℓ
Act A = Action Heap A

-- The fields `p` and `n`.
pub record MySharedPtr : Type 0 where
  pub p : ℕ
  pub n : ℕ

abbrev pub load : Option ℕ → Act ℕ
load none = raise undefined
load (some v) = give v

abbrev pub target : ℕ → Act ℕ
target a s = load (lookup a s.targets) s

abbrev pub count : ℕ → Act ℕ
count a s = load (lookup a s.counts) s

abbrev pub set_count : ℕ → ℕ → Act (Unit {0})
set_count a v s = gives tt (record s { counts = insert a v s.counts })

-- The constructor with a pointer.
unfoldable pub new_ptr : ℕ → Act MySharedPtr
unfolding insert
new_ptr object s =
    gives (record { p = s.free; n = s.free + 1 })
      (record s {
        targets = insert s.free object s.targets;
        counts = insert (s.free + 1) 1 s.counts;
        free = s.free + 2;
      })

abbrev pub add_one : ℕ → Act (Unit {0})
add_one n = do v ← count n; set_count n (v + 1)

-- The copy constructor.
unfoldable pub copy : MySharedPtr → Act MySharedPtr
unfolding insert lookup
copy ptr = do add_one ptr.n; give (record { p = ptr.p; n = ptr.n })

abbrev pub delete_object : ℕ → Act (Unit {0})
delete_object object s = gives tt (record s { deleted = object ∷ s.deleted })

unfoldable pub reclaim : MySharedPtr → Act (Unit {0})
unfolding insert lookup
reclaim this = do
  v ← count this.n
  set_count this.n (v - 1)
  w ← count this.n
  when (w == 0) (do object ← target this.p; delete_object object)

-- `operator=`, which gives the pointer as it then is.
unfoldable pub assign : MySharedPtr → MySharedPtr → Act MySharedPtr
unfolding reclaim insert lookup
assign this ptr = do
  a ← target this.p
  b ← target ptr.p
  if a == b
      then give this
      else (do reclaim this; add_one ptr.n; give (record { p = ptr.p; n = ptr.n }))

abbrev pub delete_target : ℕ → Act (Unit {0})
delete_target a s = gives tt (record s { targets = erase a s.targets })

abbrev pub delete_count : ℕ → Act (Unit {0})
delete_count a s = gives tt (record s { counts = erase a s.counts })

-- The destructor.
unfoldable pub destroy : MySharedPtr → Act (Unit {0})
unfolding reclaim erase
destroy this = do
  reclaim this
  (do target this.p; delete_target this.p)
  (do count this.n; delete_count this.n)
