-- ===== src/SimpleHttp/Request/Chunks.antt =====
-- How HttpRequest::Append depends on the pieces in which the bytes of a request arrive.
use cpp_programming.Base.{
  ℕ, zero, suc, ◌+◌, ◌≡◌, sym, ap, ◌∙◌, ◌≢◌, ◌⊎◌, inl, inr, true, false, none, some, ◌++◌,
  append_assoc, arith, Bool-cases, Option-cases, length, is_empty, take-append, drop-append,
  Outcome, returned, threw, after,
}
use cpp_programming.Text.{Text, find}
use cpp_programming.Text.Find.{find-bound, find-append}
use cpp_programming.SimpleHttp.Request.{
  Request, line_end, set_first_line, set_headers, parse_message_body, parse_request, append,
}
use cpp_programming.SimpleHttp.Request.Cases.{
  with_body, set_first_line-headers_parse_complete, parse_request-early, parse_request-late,
  append-open, append-total,
}
use cpp_programming.SimpleHttp.Request.Loop.{
  receive, Resumes, set_headers_loop-Resumes, set_headers_loop-frame, set_headers_loop-none,
}

-- The body is collected alike in one piece and in two, as long as the first is not enough.
body-body :
    (t : Text) (r : Request)
    → r.headers_parse_complete ≡ true
    → (parse_message_body r).total_parse_complete ≡ false
    → parse_message_body (receive t (parse_message_body r)) ≡ parse_message_body (receive t r)
unfolding parse_message_body
body-body t r c h = ground (arith, append_assoc r.message_body r.buf t)

body-early : (r : Request) → r.headers_parse_complete ≡ false → parse_message_body r ≡ r
unfolding parse_message_body
body-early r c = rw c

body-total :
    (r : Request)
    → (parse_message_body r).total_parse_complete ≡ false
    → r.total_parse_complete ≡ false
unfolding parse_message_body
body-total r h = ground arith

body-headers_parse_complete :
    (r : Request) → (parse_message_body r).headers_parse_complete ≡ r.headers_parse_complete
unfolding parse_message_body
body-headers_parse_complete r = ground arith

-- The first line of the request has been read, or is not empty when it is.
abbrev pub FirstLineFilled : Text → Request → Type 0
FirstLineFilled s r = (is_empty r.first_line ≡ false) ⊎ (find line_end (r.buf ++ s) ≢ some 0)

set_first_line-filled : (r : Request) → is_empty r.first_line ≡ false → set_first_line r ≡ r
unfolding set_first_line
set_first_line-filled r h = rw h

set_first_line-none : (r : Request) → find line_end r.buf ≡ none → set_first_line r ≡ r
unfolding set_first_line
set_first_line-none r h = ground arith

-- A line that was found is found as well with more text behind it.
set_first_line-receive :
    (t : Text) (r : Request) (p : ℕ)
    → find line_end r.buf ≡ some p
    → set_first_line (receive t r) ≡ receive t (set_first_line r)
unfolding set_first_line
set_first_line-receive t r p e = ground (
  arith,
  find-append line_end r.buf t p e,
  take-append p r.buf t,
  drop-append (p + 2) r.buf t,
  find-bound line_end r.buf p e,
)

set_first_line-found :
    (r : Request) (p : ℕ)
    → find line_end r.buf ≡ some (suc p)
    → is_empty (set_first_line r).first_line ≡ false
unfolding set_first_line
set_first_line-found r p e = ground (arith, find-bound line_end r.buf (suc p) e)

-- After a first line that is not empty: `q` is the object as the loop finds it.
resume :
    (t : Text) (q r₁ : Request) (o : Outcome Request)
    → is_empty q.first_line ≡ false
    → is_empty (after o).first_line ≡ false
    → Resumes t q o
    → with_body o ≡ returned r₁
    → r₁.total_parse_complete ≡ false
    → parse_request (receive t r₁) ≡ with_body (set_headers (receive t q))
resume t q r₁ (threw x q') f g h e c = cc
resume t q r₁ (returned q') f g (inl (d, h)) e c =
    let k : parse_message_body q' ≡ r₁ = cc in
    rw (← k, h)
      (parse_request-late (receive t (parse_message_body q')) (body-headers_parse_complete q' ∙ d)
        ∙ ap returned (body-body t q' d (rw k c)))
resume t q r₁ (returned q') f g (inr (d, h)) e c =
    let k : q' ≡ r₁ = sym (body-early q' d) ∙ (cc) in
    rw (← k, h)
      (parse_request-early (receive t q') d
        ∙ ap (λ x. with_body (set_headers x)) (set_first_line-filled (receive t q') g))

set_headers-Resumes :
    (t : Text) (q : Request) → q.headers_parse_complete ≡ false → Resumes t q (set_headers q)
unfolding set_headers
set_headers-Resumes t q c = set_headers_loop-Resumes (suc (length q.buf)) t q c (omega arith)

set_headers-first_line : (q : Request) → (after (set_headers q)).first_line ≡ q.first_line
unfolding set_headers
set_headers-first_line q = (set_headers_loop-frame (suc (length q.buf)) q).0

-- The same for the whole of `ParseRequest`, from an object whose first line gets filled by it.
resume_filled :
    (t : Text) (r r₁ : Request)
    → r.headers_parse_complete ≡ false
    → is_empty (set_first_line r).first_line ≡ false
    → set_first_line (receive t r) ≡ receive t (set_first_line r)
    → parse_request r ≡ returned r₁
    → r₁.total_parse_complete ≡ false
    → parse_request (receive t r₁) ≡ parse_request (receive t r)
resume_filled t r r₁ c f k e d =
    let q = set_first_line r in
    resume t q r₁ (set_headers q) f (rw (set_headers-first_line q) f)
      (set_headers-Resumes t q (set_first_line-headers_parse_complete r ∙ c))
      (sym (parse_request-early r c) ∙ e) d
    ∙ ap (λ x. with_body (set_headers x)) (sym k)
    ∙ sym (parse_request-early (receive t r) c)

set_headers-none : (r : Request) → find line_end r.buf ≡ none → set_headers r ≡ returned r
unfolding set_headers
set_headers-none r h = set_headers_loop-none (length r.buf) r h

parse_request-none :
    (r : Request)
    → r.headers_parse_complete ≡ false
    → find line_end r.buf ≡ none
    → parse_request r ≡ returned r
parse_request-none r c h =
    rw (parse_request-early r c, set_first_line-none r h, set_headers-none r h)
      (ap returned (body-early r c))

resume_early :
    (t : Text) (r r₁ : Request)
    → r.headers_parse_complete ≡ false
    → (is_empty r.first_line ≡ false) ⊎ (find line_end r.buf ≢ some 0)
    → parse_request r ≡ returned r₁
    → r₁.total_parse_complete ≡ false
    → parse_request (receive t r₁) ≡ parse_request (receive t r)
resume_early t r r₁ c (inl f) e d =
    resume_filled t r r₁ c (rw (set_first_line-filled r f) f)
      (set_first_line-filled (receive t r) f ∙ ap (receive t) (sym (set_first_line-filled r f))) e d
resume_early t r r₁ c (inr n) e d = elim (Option-cases (find line_end r.buf)) [
  | inl h ↦ let k : r ≡ r₁ = let k' = sym (parse_request-none r c h) ∙ e in cc in rw (← k)
  | inr (zero, h) ↦ absurd (n h)
  | inr (suc p, h) ↦
      resume_filled t r r₁ c (set_first_line-found r p h) (set_first_line-receive t r (suc p) h) e d
]

resume_late :
    (t : Text) (r r₁ : Request)
    → r.headers_parse_complete ≡ true
    → parse_request r ≡ returned r₁
    → r₁.total_parse_complete ≡ false
    → parse_request (receive t r₁) ≡ parse_request (receive t r)
resume_late t r r₁ c e d =
    let k : parse_message_body r ≡ r₁ = let k' = sym (parse_request-late r c) ∙ e in cc in
    rw (← k) (
      parse_request-late (receive t (parse_message_body r)) (body-headers_parse_complete r ∙ c)
      ∙ ap returned (body-body t r c (rw k d))
      ∙ sym (parse_request-late (receive t r) c))

receive-receive : (s t : Text) (r : Request) → receive t (receive s r) ≡ receive (s ++ t) r
receive-receive s t r = rw (append_assoc r.buf s t)

-- Two pieces are parsed as the one piece that they make up, if the first call returns with the
-- request still incomplete and no empty first line is read.
pub append-append :
    (s t : Text) (r r₁ : Request)
    → FirstLineFilled s r
    → append s r ≡ returned r₁
    → r₁.total_parse_complete ≡ false
    → append t r₁ ≡ append (s ++ t) r
append-append s t r r₁ f e d =
    let o : r.total_parse_complete ≡ false = append-total s r r₁ e d in
    let e' : parse_request (receive s r) ≡ returned r₁ = sym (append-open s r o) ∙ e in
    append-open t r₁ d
    ∙ elim (Bool-cases r.headers_parse_complete) [
      | inl c ↦ resume_late t (receive s r) r₁ c e' d
      | inr c ↦ resume_early t (receive s r) r₁ c f e' d
    ]
    ∙ ap parse_request (receive-receive s t r)
    ∙ sym (append-open (s ++ t) r o)
