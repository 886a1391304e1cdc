-- ===== src/SimpleHttp/Request/Fuel.antt =====
-- The loop of HttpRequest::SetHeaders ends: the fuel that `set_headers` gives it is never used up.
use cpp_programming.Base.{
  ℕ, zero, suc, ◌<◌, ◌≢◌, inl, inr, true, arith, Bool-cases, length, drop, out_of_fuel, Outcome,
  returned, threw, ◌>>=◌, err,
}
use cpp_programming.Text.{Text, stoi}
use cpp_programming.SimpleHttp.Request.{
  Request, Round, finished, continues, header_round, add_header, set_content_length, set_first_line,
  set_headers, set_headers_loop, parse_message_body, parse_request, append,
}
use cpp_programming.SimpleHttp.Request.Cases.{
  parse_request-early, parse_request-late, append-open, append-closed,
}
use cpp_programming.SimpleHttp.Request.Loop.{receive, header_round-shrinks, Round-cases}

stoi-ne-out_of_fuel : (s : Text) → stoi s ≢ err out_of_fuel
unfolding stoi
stoi-ne-out_of_fuel s = ground arith

-- The outcome is not that of a loop whose fuel ended.
abbrev pub Ends : Outcome Request → Type 0
Ends (returned r) = Unit {0}
Ends (threw e r) = e ≢ out_of_fuel

abbrev RoundEnds : Round → Type 0
RoundEnds (finished o) = Ends o
RoundEnds (continues r) = Unit {0}

set_content_length-Ends : (r : Request) → Ends (set_content_length r)
unfolding set_content_length
set_content_length-Ends r = grind (arith, stoi-ne-out_of_fuel)

header_round-RoundEnds : (r : Request) → RoundEnds (header_round r)
unfolding header_round add_header
header_round-RoundEnds r = ground (
  arith,
  set_content_length-Ends (record r { buf = drop 2 r.buf; headers_parse_complete = true }),
)

set_headers_loop-Ends : (f : ℕ) (r : Request) → length r.buf < f → Ends (set_headers_loop f r)
unfolding set_headers_loop
set_headers_loop-Ends zero r h = absurd (omega arith)
set_headers_loop-Ends (suc f) r h = elim (Round-cases (header_round r)) [
  | inl (o, e) ↦ rw (e, set_headers_loop) (rw e at (header_round-RoundEnds r))
  | inr (r', e) ↦
      rw (e, set_headers_loop)
        (set_headers_loop-Ends f r' (omega (arith, header_round-shrinks r r' e)))
]

with_body-Ends : (o : Outcome Request) → Ends o → Ends (o >>= λ r. returned (parse_message_body r))
with_body-Ends (returned r) h = tt
with_body-Ends (threw e r) h = h

parse_request-Ends : (r : Request) → Ends (parse_request r)
unfolding set_headers
parse_request-Ends r = elim (Bool-cases r.headers_parse_complete) [
  | inl c ↦ rw (parse_request-late r c) tt
  | inr c ↦
      let q = set_first_line r in
      rw (parse_request-early r c) (
        with_body-Ends (set_headers q) (set_headers_loop-Ends (suc (length q.buf)) q (omega arith)))
]

-- No call of `Append` runs out of fuel: it returns, or it throws another exception.
pub append-Ends : (s : Text) (r : Request) → Ends (append s r)
append-Ends s r = elim (Bool-cases r.total_parse_complete) [
  | inl c ↦ rw (append-closed s r c) tt
  | inr c ↦ rw (append-open s r c) (parse_request-Ends (receive s r))
]
