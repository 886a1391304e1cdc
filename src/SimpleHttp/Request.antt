-- ===== src/SimpleHttp/Request.antt =====
-- simple_http/http_server/include/http_request.h and src/http_request.cpp: the class HttpRequest.
-- A member function returns the new object, or throws and leaves it as it is at the throw.
-- `PrintRequest` only logs.
pub mod Loop
pub mod Cases
pub mod Chunks
pub mod Invariant
pub mod Fuel
pub mod Messages
use cpp_programming.Base.{
  ℕ, zero, suc, ◌+◌, ◌-◌, ◌*◌, ◌/◌, ◌%◌, ◌^◌, ◌≤◌, ◌<◌, pred, ◌≡◌, refl, sym, ap, ◌∙◌, subst, ◌≢◌,
  ◌↔◌, ◌⊎◌, inl, inr, Bool, true, false, ◌&&◌, ◌||◌, not, Option, none, some, List, [], ◌∷◌, ◌++◌,
  map, append-nil, append_assoc, arith, ltb, leb, ◌==◌, if◌then◌else◌, ==_iff, ==_refl, Bool-cases,
  Option-cases, length, is_empty, get_elem?, set, take, drop, All, length-append, length-drop,
  length-take, take-append-drop, take-append, drop-append, length-set, Exn, runtime_error,
  invalid_argument, out_of_range, out_of_fuel, system_error, Outcome, returned, threw, ◌>>=◌, after,
  Result, ok, err,
}
use cpp_programming.Text.{
  Text, text_eq, text_eq_iff, starts_with, find, is_space, is_digit, drop_while, take_while,
  c_string, ℤ, pos, negsuc, to_unsigned, decimal, stoi, to_string,
}
use cpp_programming.SimpleHttp.Trim.{trim}

-- "\r\n", ":", "Content-Length".
abbrev pub line_end : Text
line_end = 13 ∷ 10 ∷ []

abbrev pub header_sep : Text
header_sep = 58 ∷ []

abbrev pub content_length_header : Text
content_length_header =
    67 ∷ 111 ∷ 110 ∷ 116 ∷ 101 ∷ 110 ∷ 116 ∷ 45 ∷ 76 ∷ 101 ∷ 110 ∷ 103 ∷ 116 ∷ 104 ∷ []

-- `std::map<std::string, std::string>`: keys are unique, and an assignment replaces.
abbrev pub Headers : Type 0
Headers = List (Text × Text)

unfoldable pub lookup : Text → Headers → Option Text
lookup k [] = none
lookup k ((j, v) ∷ m) = if text_eq j k then some v else lookup k m

unfoldable pub assign : Text → Text → Headers → Headers
assign k v [] = (k, v) ∷ []
assign k v ((j, w) ∷ m) = if text_eq j k then (j, v) ∷ m else (j, w) ∷ assign k v m

pub record Request : Type 0 where
  pub buf : Text
  pub content_length : ℕ
  pub first_line : Text
  pub headers : Headers
  pub message_body : Text
  pub headers_parse_complete : Bool
  pub total_parse_complete : Bool

-- The constructor.
unfoldable pub new : Request
new = record {
  buf = [];
  content_length = 0;
  first_line = [];
  headers = [];
  message_body = [];
  headers_parse_complete = false;
  total_parse_complete = false;
}

unfoldable pub set_first_line : Request → Request
set_first_line r = if not (is_empty r.first_line) then r else elim (find line_end r.buf) [
  | none ↦ r
  | some p ↦ record r { first_line = take p r.buf; buf = drop (p + 2) r.buf }
]

unfoldable pub add_header : Text → Request → Outcome Request
add_header s r = elim (find header_sep s) [
  | none ↦ threw runtime_error r
  | some p ↦ returned (record r { headers = assign (take p s) (trim (drop (p + 1) s)) r.headers })
]

-- `contentLength` is a size_t: a negative number wraps around.
unfoldable pub set_content_length : Request → Outcome Request
set_content_length r = elim (lookup content_length_header r.headers) [
  | none ↦ returned (record r { content_length = 0 })
  | some v ↦ elim (stoi v) [
    | ok z ↦ returned (record r { content_length = to_unsigned 64 z })
    | err e ↦ threw e r
  ]
]

-- What one round of the loop of `SetHeaders` does: the function ends, or another round follows.
pub data Round : Type 0 where
  finished : Outcome Request → Round
  continues : Request → Round

unfoldable pub header_round : Request → Round
header_round r = elim (find line_end r.buf) [
  | none ↦ finished (returned r)
  | some zero ↦
      finished (set_content_length (record r { buf = drop 2 r.buf; headers_parse_complete = true }))
  | some (suc p) ↦ elim (add_header (take (suc p) r.buf) r) [
    | returned r' ↦ continues (record r' { buf = drop (suc p + 2) r'.buf })
    | threw e r' ↦ finished (threw e r')
  ]
]

-- Each round takes a line end off the buffer, so more fuel than its length is enough.
unfoldable pub set_headers_loop : ℕ → Request → Outcome Request
set_headers_loop zero r = threw out_of_fuel r
set_headers_loop (suc f) r = elim (header_round r) [
  | finished o ↦ o
  | continues r' ↦ set_headers_loop f r'
]

unfoldable pub set_headers : Request → Outcome Request
set_headers r = set_headers_loop (suc (length r.buf)) r

unfoldable pub parse_message_body : Request → Request
parse_message_body r =
    if not r.headers_parse_complete
    then r
    else if r.total_parse_complete
    then r
    else let body = r.message_body ++ r.buf in
      record r {
        message_body = body;
        total_parse_complete =
            if leb r.content_length (length body) then true else r.total_parse_complete;
        buf = [];
      }

unfoldable pub parse_request : Request → Outcome Request
parse_request r =
    (if r.headers_parse_complete then returned r else set_headers (set_first_line r)) >>= λ r'.
    returned (parse_message_body r')

unfoldable pub append : Text → Request → Outcome Request
append s r =
    if r.total_parse_complete then returned r else parse_request (record r { buf = r.buf ++ s })

unfoldable pub reset : Request → Request
reset r = record r { buf = [] }

unfoldable pub all_received : Request → Bool
all_received r = r.total_parse_complete

unfoldable pub get_message_body : Request → Text
get_message_body r = r.message_body
