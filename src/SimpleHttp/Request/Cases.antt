-- ===== src/SimpleHttp/Request/Cases.antt =====
-- The ways through HttpRequest::Append and ParseRequest, each as an equation.
use cpp_programming.Base.{◌≡◌, true, false, arith, Outcome, returned, ◌>>=◌}
use cpp_programming.Text.{Text}
use cpp_programming.SimpleHttp.Request.{
  Request, set_first_line, set_headers, parse_message_body, parse_request, append,
}
use cpp_programming.SimpleHttp.Request.Loop.{receive}

pub set_first_line-headers_parse_complete :
    (r : Request) → (set_first_line r).headers_parse_complete ≡ r.headers_parse_complete
unfolding set_first_line
set_first_line-headers_parse_complete r = ground arith

pub set_first_line-total :
    (r : Request) → (set_first_line r).total_parse_complete ≡ r.total_parse_complete
unfolding set_first_line
set_first_line-total r = ground arith

abbrev pub with_body : Outcome Request → Outcome Request
with_body o = o >>= λ r. returned (parse_message_body r)

-- The same parser run once and run again, in terms of the outcome of the headers' loop.
pub parse_request-early :
    (r : Request)
    → r.headers_parse_complete ≡ false
    → parse_request r ≡ with_body (set_headers (set_first_line r))
unfolding parse_request
parse_request-early r c = rw c

pub parse_request-late :
    (r : Request)
    → r.headers_parse_complete ≡ true
    → parse_request r ≡ returned (parse_message_body r)
unfolding parse_request
parse_request-late r c = rw c

pub append-open :
    (s : Text) (r : Request)
    → r.total_parse_complete ≡ false
    → append s r ≡ parse_request (receive s r)
unfolding append
append-open s r h = rw h

pub append-total :
    (s : Text) (r r₁ : Request)
    → append s r ≡ returned r₁
    → r₁.total_parse_complete ≡ false
    → r.total_parse_complete ≡ false
unfolding append
append-total s r r₁ e d = ground arith

pub append-closed :
    (s : Text) (r : Request) → r.total_parse_complete ≡ true → append s r ≡ returned r
unfolding append
append-closed s r h = rw h
