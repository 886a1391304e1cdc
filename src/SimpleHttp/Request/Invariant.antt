-- ===== src/SimpleHttp/Request/Invariant.antt =====
-- What HttpRequest's flags mean between two calls of Append.
use cpp_programming.Base.{
  ℕ, zero, suc, ◌≤◌, ◌<◌, ◌≡◌, refl, sym, ap, ◌∙◌, subst, ◌⊎◌, inl, inr, true, false, Option, none,
  some, List, [], ◌∷◌, ◌++◌, append-nil, arith, drop, if◌then◌else◌, Bool-cases, Option-cases,
  length, Result, ok, err, Outcome, returned, threw, ◌>>=◌, after,
}
use cpp_programming.Text.{Text, find, ℤ, to_unsigned, stoi}
use cpp_programming.SimpleHttp.Request.{
  line_end, content_length_header, lookup, Request, new, set_first_line, add_header,
  set_content_length, finished, header_round, set_headers_loop, set_headers, parse_message_body,
  parse_request, append,
}
use cpp_programming.SimpleHttp.Request.Cases.{
  with_body, set_first_line-headers_parse_complete, set_first_line-total, parse_request-early,
  parse_request-late, append-open, append-closed,
}
use cpp_programming.SimpleHttp.Request.Loop.{
  receive, header_round-frame, Round-cases, round_none, set_headers_loop-frame,
}

-- The number that a header Content-Length announces: none without it, and that of its digits.
abbrev pub Announced : Option Text → ℕ → Type 0
Announced none n = n ≡ 0
Announced (some v) n = (z : ℤ) × (stoi v ≡ ok z) × (n ≡ to_unsigned 64 z)

abbrev pub Tells : Request → Type 0
Tells r =
    r.headers_parse_complete ≡ true
    → Announced (lookup content_length_header r.headers) r.content_length

abbrev pub Unopened : Request → Type 0
Unopened r = r.headers_parse_complete ≡ false → r.message_body ≡ []

-- Complete headers say how long the body is to be, and before them there is no body. The request is
-- complete exactly when its headers are and the body is as long as they say; once the headers are
-- complete nothing is left in the buffer.
pub record IsParsed (r : Request) : Type 0 where
  pub announced : Tells r
  pub unopened : Unopened r
  pub headers_first : r.total_parse_complete ≡ true → r.headers_parse_complete ≡ true
  pub long_enough : r.total_parse_complete ≡ true → r.content_length ≤ length r.message_body
  pub too_short :
      r.headers_parse_complete ≡ true
      → r.total_parse_complete ≡ false
      → length r.message_body < r.content_length
  pub drained : r.headers_parse_complete ≡ true → r.buf ≡ []

pub new-IsParsed : IsParsed new
unfolding new
new-IsParsed = record {
  announced = λ e. cc;
  unopened = λ e. refl;
  headers_first = λ e. cc;
  long_enough = λ e. cc;
  too_short = λ e h. cc;
  drained = λ e. refl;
}

Result-cases : (o : Result ℤ) → ((z : ℤ) × (o ≡ ok z)) ⊎ ((e : _) × (o ≡ err e))
Result-cases (ok z) = inl (z, refl)
Result-cases (err e) = inr (e, refl)

set_content_length-Announced :
    (r r' : Request)
    → set_content_length r ≡ returned r'
    → Announced (lookup content_length_header r'.headers) r'.content_length
unfolding set_content_length
set_content_length-Announced r r' h = elim (Option-cases (lookup content_length_header r.headers)) [
  | inl e ↦
      let k : record r { content_length = 0 } ≡ r' = cc (rw (e, set_content_length) at h) in
      subst (λ q. Announced (lookup content_length_header q.headers) q.content_length) k (rw e refl)
  | inr (v, e) ↦ elim (Result-cases (stoi v)) [
    | inl (z, d) ↦
        let k : record r { content_length = to_unsigned 64 z } ≡ r' =
          cc (rw (e, d, set_content_length) at h) in
        subst (λ q. Announced (lookup content_length_header q.headers) q.content_length) k
          (rw e (z, d, refl))
    | inr (x, d) ↦ cc (rw (e, d, set_content_length) at h)
  ]
]

round_at-Tells :
    (r r' : Request) (p : ℕ)
    → find line_end r.buf ≡ some p
    → header_round r ≡ finished (returned r')
    → Tells r'
unfolding header_round add_header
round_at-Tells r r' zero e h = λ _.
    let a = rw (e, header_round) at h in
    set_content_length-Announced (record r { buf = drop 2 r.buf; headers_parse_complete = true }) r'
      cc
round_at-Tells r r' (suc p) e h = ground arith

header_round-Tells :
    (r r' : Request)
    → r.headers_parse_complete ≡ false
    → header_round r ≡ finished (returned r')
    → Tells r'
header_round-Tells r r' c h = elim (Option-cases (find line_end r.buf)) [
  | inl e ↦
      let k : finished (returned r) ≡ finished (returned r') = sym (round_none r e) ∙ h in
      let q : r ≡ r' = cc in subst Tells q (λ d. cc)
  | inr (p, e) ↦ round_at-Tells r r' p e h
]

set_headers_loop-Tells :
    (f : ℕ) (r r' : Request)
    → r.headers_parse_complete ≡ false
    → set_headers_loop f r ≡ returned r'
    → Tells r'
unfolding set_headers_loop
set_headers_loop-Tells zero r r' c h = cc
set_headers_loop-Tells (suc f) r r' c h = elim (Round-cases (header_round r)) [
  | inl (o, e) ↦ header_round-Tells r r' c (e ∙ ap finished (rw (e, set_headers_loop) at h))
  | inr (q, e) ↦
      set_headers_loop-Tells f q r' ((rw e at (header_round-frame r)).1 ∙ c)
        (rw (e, set_headers_loop) at h)
]

parse_message_body-early :
    (r : Request) → r.headers_parse_complete ≡ false → parse_message_body r ≡ r
unfolding parse_message_body
parse_message_body-early r c = ground arith

body-IsParsed :
    (r : Request)
    → r.total_parse_complete ≡ false
    → Tells r
    → Unopened r
    → IsParsed (parse_message_body r)
unfolding parse_message_body
body-IsParsed r h t u = elim (Bool-cases r.headers_parse_complete) [
  | inl c ↦
      rw (c, h)
        (record {
          announced = λ _. t c;
          unopened = λ d. cc;
          headers_first = λ _. refl;
          long_enough = ground arith;
          too_short = ground arith;
          drained = λ _. refl;
        })
  | inr c ↦ subst IsParsed (sym (parse_message_body-early r c)) (record {
    announced = t;
    unopened = u;
    headers_first = λ d. cc;
    long_enough = λ d. cc;
    too_short = λ d _. cc;
    drained = λ d. cc;
  })
]

with_body-IsParsed :
    (r' : Request) (o : Outcome Request)
    → (after o).total_parse_complete ≡ false
    → Unopened (after o)
    → ((q : Request) → o ≡ returned q → Tells q)
    → with_body o ≡ returned r'
    → IsParsed r'
with_body-IsParsed r' (returned r) h u t e =
    let k : parse_message_body r ≡ r' = cc in subst IsParsed k (body-IsParsed r h (t r refl) u)
with_body-IsParsed r' (threw x r) h u t e = cc

set_headers-after-total :
    (r : Request) → (after (set_headers r)).total_parse_complete ≡ r.total_parse_complete
unfolding set_headers
set_headers-after-total r = (set_headers_loop-frame (suc (length r.buf)) r).1

set_first_line-message_body : (r : Request) → (set_first_line r).message_body ≡ r.message_body
unfolding set_first_line
set_first_line-message_body r = ground arith

-- Neither the first line nor the headers touch the body.
set_headers-Unopened :
    (r : Request)
    → r.headers_parse_complete ≡ false
    → Unopened r
    → Unopened (after (set_headers (set_first_line r)))
unfolding set_headers
set_headers-Unopened r c u _ =
    (set_headers_loop-frame (suc (length (set_first_line r).buf)) (set_first_line r)).2
    ∙ set_first_line-message_body r
    ∙ u c

parse_request-IsParsed :
    (r r' : Request)
    → r.total_parse_complete ≡ false
    → Tells r
    → Unopened r
    → parse_request r ≡ returned r'
    → IsParsed r'
unfolding set_headers
parse_request-IsParsed r r' h t u e = elim (Bool-cases r.headers_parse_complete) [
  | inl c ↦
      with_body-IsParsed r' (returned r) h u (λ q k. let k' : r ≡ q = cc in subst Tells k' t)
        (sym (parse_request-late r c) ∙ e)
  | inr c ↦
      with_body-IsParsed r' (set_headers (set_first_line r))
        (set_headers-after-total (set_first_line r) ∙ set_first_line-total r ∙ h)
        (set_headers-Unopened r c u)
        (λ q.
          set_headers_loop-Tells (suc (length (set_first_line r).buf)) (set_first_line r) q
            (set_first_line-headers_parse_complete r ∙ c))
        (sym (parse_request-early r c) ∙ e)
]

-- A call of `Append` that returns keeps the meaning of the flags.
pub append-IsParsed :
    (s : Text) (r r' : Request) → IsParsed r → append s r ≡ returned r' → IsParsed r'
append-IsParsed s r r' v e = elim (Bool-cases r.total_parse_complete) [
  | inl c ↦ let k : r ≡ r' = let e' = sym (append-closed s r c) ∙ e in cc in subst IsParsed k v
  | inr c ↦
      parse_request-IsParsed (receive s r) r' c v.announced v.unopened (sym (append-open s r c) ∙ e)
]

-- Of several calls of `Append`, one after the other; the first that throws ends them.
unfoldable pub append_all : List Text → Request → Outcome Request
append_all [] r = returned r
append_all (s ∷ ss) r = append s r >>= append_all ss

returned-bind :
    (o : Outcome Request) (f : Request → Outcome Request) (r' : Request)
    → (o >>= f) ≡ returned r'
    → (r : Request) × (o ≡ returned r) × (f r ≡ returned r')
returned-bind (returned r) f r' e = (r, refl, e)
returned-bind (threw x r) f r' e = cc

append_all-IsParsed-from :
    (ss : List Text) (r r' : Request) → IsParsed r → append_all ss r ≡ returned r' → IsParsed r'
unfolding append_all
append_all-IsParsed-from [] r r' v e = let k : r ≡ r' = cc in subst IsParsed k v
append_all-IsParsed-from (s ∷ ss) r r' v e =
    let (q, a, b) = returned-bind (append s r) (append_all ss) r' e in
    append_all-IsParsed-from ss q r' (append-IsParsed s r q v a) b

-- What another piece does to the body, once the headers are complete.
abbrev pub Extends : Text → Request → Request → Type 0
Extends s r r' =
    (append s r ≡ returned r')
    × (r'.message_body ≡ r.message_body ++ (if r.total_parse_complete then [] else s))

append-Extends :
    (s : Text) (r : Request)
    → IsParsed r
    → r.headers_parse_complete ≡ true
    → Extends s r (after (append s r))
unfolding parse_message_body
append-Extends s r v h = elim (Bool-cases r.total_parse_complete) [
  | inl c ↦ rw (append-closed s r c, c) (refl, sym (append-nil r.message_body))
  | inr c ↦
      rw (append-open s r c, parse_request-late (receive s r) h, c) (refl, rw (h, v.drained h) refl)
]

-- However the bytes of a request arrive, as long as no call throws: complete headers hold as
-- content length what their Content-Length says (a negative one wraps around) or 0 without one,
-- before them there is no body, and the request counts as received exactly when its headers are
-- complete and its body is at least that long. With complete headers another call returns and adds
-- all that arrives to the body, or nothing if the request counts as received.
pub append_all-IsParsed :
    (ss : List Text) (s : Text) (r : Request)
    → append_all ss new ≡ returned r
    → IsParsed r × ((r.headers_parse_complete ≡ false) ⊎ Extends s r (after (append s r)))
append_all-IsParsed ss s r e =
    let v = append_all-IsParsed-from ss new r new-IsParsed e in
    elim (Bool-cases r.headers_parse_complete) [
      | inl c ↦ (v, inr (append-Extends s r v c))
      | inr c ↦ (v, inl c)
    ]
