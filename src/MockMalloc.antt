-- ===== src/MockMalloc.antt =====
-- mock_malloc/lib/my_malloc.c: the functions that stand before malloc and its kin, with a buffer
-- that serves requests while `dlsym` looks the real functions up. What the real functions return
-- is an argument. Pointers into the buffer are offsets.
pub mod Chunks
mod Tests
use cpp_programming.Base.{
  ℕ, zero, suc, ◌+◌, ◌-◌, ◌*◌, ◌/◌, ◌%◌, ◌^◌, ◌≤◌, ◌<◌, pred, ◌≡◌, refl, sym, ap, ◌∙◌, subst, ◌≢◌,
  ◌↔◌, ◌⊎◌, inl, inr, Bool, true, false, ◌&&◌, ◌||◌, not, Option, none, some, List, [], ◌∷◌, ◌++◌,
  map, append-nil, append_assoc, arith, ltb, leb, ◌==◌, if◌then◌else◌, ==_iff, ==_refl, Bool-cases,
  Option-cases, length, is_empty, get_elem?, set, take, drop, All, length-append, length-drop,
  length-take, take-append-drop, take-append, drop-append, length-set, Exn, runtime_error,
  invalid_argument, out_of_range, out_of_fuel, undefined, blocked, system_error, exit_status,
  Outcome, returned, threw, Result, ok, err,
}
use cpp_programming.Base.Actions.{
  Reply, gives, raises, Action, give, raise, and_then, ◌>>=◌, ◌>>◌, when, swallow, try_log,
  state_of,
}

-- sizeof(tmpbuff).
abbrev pub buffer_size : ℕ
buffer_size = 1024

-- The static variables. Of the pointers to functions it counts whether they are set: `has_malloc`
-- says so of `myfn_malloc`, `has_others` of those that `init` sets behind it.
pub record Memory : Type 0 where
  pub tmppos : ℕ
  pub tmpallocs : ℕ
  pub initializing : Bool
  pub has_malloc : Bool
  pub has_others : Bool

abbrev pub Act {ℓ} : Type ℓ → Type ℓ
Act A = Action Memory A

unfoldable pub fresh : Memory
fresh = record {
  tmppos = 0;
  tmpallocs = 0;
  initializing = false;
  has_malloc = false;
  has_others = false;
}

-- No memory, a place in the buffer, or memory of the real functions.
pub data Pointer : Type 0 where
  null : Pointer
  temp real : ℕ → Pointer

-- The innermost branches of `malloc`, in 64 bits.
unfoldable pub temp_malloc : ℕ → Act ℕ
temp_malloc size m =
    let end = (m.tmppos + size) % 2 ^ 64 in
    if ltb end buffer_size
    then gives m.tmppos (record m { tmppos = end; tmpallocs = (m.tmpallocs + 1) % 2 ^ 64 })
    else raises (exit_status 1) m

-- Requests that the buffer serves, each with the place that it gets.
unfoldable pub serve : List ℕ → Act (List (ℕ × ℕ))
serve [] = give []
serve (n ∷ ns) = do p ← temp_malloc n; ps ← serve ns; give ((p, n) ∷ ps)

-- What `dlsym` does in `init`, if it finds "malloc": the sizes that it asks `calloc` for while it
-- looks up "malloc", those it asks for while it looks up "free" and "calloc", and whether it finds
-- the other functions.
pub record Lookup : Type 0 where
  pub early : List ℕ
  pub late : List ℕ
  pub found : Bool

abbrev pub set_malloc : Memory → Memory
set_malloc m = record m { has_malloc = true }

abbrev pub set_others : Memory → Memory
set_others m = record m { has_others = true }

abbrev pub set_initializing : Bool → Memory → Memory
set_initializing b m = record m { initializing = b }

abbrev pub change : (Memory → Memory) → Act (Unit {0})
change f m = gives tt (f m)

-- `malloc`, with its call of `init` as an argument.
unfoldable pub malloc_with : Act (Unit {0}) → Pointer → ℕ → Act Pointer
malloc_with set_up answer size m =
    (if m.has_malloc
        then give answer
        else if m.initializing
        then (do p ← temp_malloc size; give (temp p))
        else (do
          change (set_initializing true)
          set_up
          change (set_initializing false)
          give answer))
      m

-- `calloc`, with that call as an argument. `memset` changes the memory that is given out alone.
unfoldable pub calloc_with : Act (Unit {0}) → Pointer → ℕ → ℕ → Act Pointer
unfolding malloc_with
calloc_with set_up answer nmemb size m =
    (if not m.has_malloc
        then malloc_with set_up answer (nmemb * size % 2 ^ 64)
        else if m.has_others
        then give answer
        else raise undefined)
      m

-- The requests of `dlsym`, of one element each. `init` runs with `initializing` set, so that they do
-- not call it again, and before `myfn_calloc` is set, so that no real function answers.
unfoldable pub requests : List ℕ → Act (Unit {0})
unfolding calloc_with
requests [] = give tt
requests (n ∷ ns) = do p ← calloc_with (raise out_of_fuel) null 1 n; requests ns

unfoldable pub init : Lookup → Act (Unit {0})
unfolding requests
init d = do
  requests d.early
  change set_malloc
  requests d.late
  if d.found then change set_others else raise (exit_status 1)

unfoldable pub malloc : Lookup → Pointer → ℕ → Act Pointer
unfolding malloc_with init
malloc d answer size = malloc_with (init d) answer size

unfoldable pub calloc : Lookup → Pointer → ℕ → ℕ → Act Pointer
unfolding calloc_with init
calloc d answer nmemb size = calloc_with (init d) answer nmemb size

-- `true`: the pointer is handed to the real `free`.
unfoldable pub free : Pointer → Act Bool
free (temp p) m =
    (if leb p m.tmppos then give false else if m.has_others then give true else raise undefined) m
free null m = (if m.has_others then give true else raise undefined) m
free (real a) m = (if m.has_others then give true else raise undefined) m

abbrev pub is_null : Pointer → Bool
is_null null = true
is_null (temp p) = false
is_null (real a) = false

-- `memmove` fills the new memory alone.
unfoldable pub realloc : Lookup → Pointer → Pointer → ℕ → Act Pointer
realloc d answer old size m =
    (if not m.has_malloc
        then (do
          new ← malloc d answer size
          when (not (is_null new) && not (is_null old)) (do to_real ← free old; give tt)
          give new)
        else if m.has_others
        then give answer
        else raise undefined)
      m

unfoldable pub memalign : Pointer → Act Pointer
memalign answer m = (if m.has_others then give answer else raise undefined) m
