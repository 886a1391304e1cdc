-- ===== src/LearnGrpc/Event.antt =====
-- learn_grpc/hello_world/src/lib/event/event.h: the class Event, a union of a pointer of 64 bits, the
-- token, and a key and an option of 32 bits each, the key in the low half.
use cpp_programming.Base.{ℕ, ◌+◌, ◌*◌, ◌/◌, ◌%◌, ◌^◌, ◌<◌, ◌≡◌, arith}

abbrev pub half : ℕ
half = 2 ^ 32

-- An event by its token. The constructor with a pointer takes the token as it is.
abbrev pub Event : Type 0
Event = ℕ

-- The constructor with a key sets one half; `rest` is what the other half of the memory holds.
unfoldable pub of_key : ℕ → ℕ → Event
of_key key rest = key + rest * half

unfoldable pub get_key : Event → ℕ
get_key event = event % half

unfoldable pub get_opt : Event → ℕ
get_opt event = event / half % half

unfoldable pub set_opt : ℕ → Event → Event
set_opt opt event = event % half + opt * half

pub get_key-set_opt : (opt : ℕ) (event : Event) → get_key (set_opt opt event) ≡ get_key event
unfolding get_key set_opt
get_key-set_opt opt event = omega arith

pub get_opt-set_opt : (opt : ℕ) (event : Event) → opt < half → get_opt (set_opt opt event) ≡ opt
unfolding get_opt set_opt
get_opt-set_opt opt event h = omega arith

pub get_key-of_key : (key rest : ℕ) → key < half → get_key (of_key key rest) ≡ key
unfolding get_key of_key
get_key-of_key key rest h = omega arith

-- An event made of a key and an option goes through the completion queue as a token of 64 bits, and
-- comes back with that key and that option, whatever the memory of the option held before it was
-- set; and it is the token that its key and its option make up.
pub set_opt-of_key :
    (key rest opt : ℕ)
    → key < half
    → opt < half
    → (get_key (set_opt opt (of_key key rest)) ≡ key)
      × (get_opt (set_opt opt (of_key key rest)) ≡ opt)
      × (set_opt opt (of_key key rest) < 2 ^ 64)
      × (set_opt opt (of_key key rest) ≡ of_key key opt)
unfolding get_key get_opt set_opt of_key
set_opt-of_key key rest opt h k = (omega arith, omega arith, omega arith, omega arith)
