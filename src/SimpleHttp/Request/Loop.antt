-- ===== src/SimpleHttp/Request/Loop.antt =====
-- The loop of HttpRequest::SetHeaders: more fuel than the buffer is long changes nothing, and more
-- text behind the buffer does not change what the loop does with the lines before it.
use cpp_programming.Base.{
  ℕ, zero, suc, ◌+◌, ◌<◌, ◌≡◌, refl, ◌∙◌, ◌⊎◌, inl, inr, true, false, none, some, ◌++◌, arith,
  Option-cases, length, length-drop, take-append, drop-append, Outcome, returned, threw, after,
}
use cpp_programming.Text.{Text, find}
use cpp_programming.Text.Find.{find-bound, find-append}
use cpp_programming.SimpleHttp.Request.{
  Request, line_end, add_header, set_content_length, Round, finished, continues, header_round,
  set_headers_loop, set_headers,
}

-- `s` arrives behind what the buffer holds.
abbrev pub receive : Text → Request → Request
receive s r = record r { buf = r.buf ++ s }

abbrev pub receive_into : Text → Outcome Request → Outcome Request
receive_into s (returned r) = returned (receive s r)
receive_into s (threw e r) = threw e (receive s r)

abbrev pub receive_round : Text → Round → Round
receive_round s (finished o) = finished (receive_into s o)
receive_round s (continues r) = continues (receive s r)

-- A header line leaves the buffer and the flags alone.
add_header-frame :
    (l : Text) (r : Request) {r' : Request}
    → add_header l r ≡ returned r'
    → (r'.buf ≡ r.buf)
      × (r'.headers_parse_complete ≡ r.headers_parse_complete)
      × (r'.first_line ≡ r.first_line)
      × (r'.total_parse_complete ≡ r.total_parse_complete)
      × (r'.message_body ≡ r.message_body)
unfolding add_header
add_header-frame l r h = ground arith

add_header-receive :
    (s l : Text) (r : Request) → add_header l (receive s r) ≡ receive_into s (add_header l r)
unfolding add_header
add_header-receive s l r = ground arith

set_content_length-receive :
    (s : Text) (r : Request)
    → set_content_length (receive s r) ≡ receive_into s (set_content_length r)
unfolding set_content_length
set_content_length-receive s r = ground arith

round_at-shrinks :
    (r r' : Request) (p : ℕ)
    → find line_end r.buf ≡ some p
    → header_round r ≡ continues r'
    → length r'.buf < length r.buf
unfolding header_round add_header
round_at-shrinks r r' zero e h = cc (rw (e, header_round) at h)
round_at-shrinks r r' (suc p) e h =
    ground (arith, find-bound line_end r.buf (suc p) e, length-drop (suc p + 2) r.buf)

-- A round that is followed by another one takes something off the buffer.
pub header_round-shrinks :
    (r r' : Request) → header_round r ≡ continues r' → length r'.buf < length r.buf
unfolding header_round
header_round-shrinks r r' h = elim (Option-cases (find line_end r.buf)) [
  | inl e ↦ cc (rw (e, header_round) at h)
  | inr (p, e) ↦ round_at-shrinks r r' p e h
]

pub Round-cases :
    (m : Round) → ((o : Outcome Request) × (m ≡ finished o)) ⊎ ((r : Request) × (m ≡ continues r))
Round-cases (finished o) = inl (o, refl)
Round-cases (continues r) = inr (r, refl)

-- The loop's result does not depend on the fuel, once it exceeds the buffer's length.
pub set_headers_loop-fuel :
    (f g : ℕ) (r : Request)
    → length r.buf < f
    → length r.buf < g
    → set_headers_loop f r ≡ set_headers_loop g r
unfolding set_headers_loop
set_headers_loop-fuel zero g r hf hg = absurd (omega arith)
set_headers_loop-fuel (suc f) zero r hf hg = absurd (omega arith)
set_headers_loop-fuel (suc f) (suc g) r hf hg = elim (Round-cases (header_round r)) [
  | inl (o, e) ↦ rw (e, set_headers_loop)
  | inr (r', e) ↦
      rw (e, set_headers_loop)
        (set_headers_loop-fuel f g r' (omega (arith, header_round-shrinks r r' e))
          (omega (arith, header_round-shrinks r r' e)))
]

round_at-receive :
    (s : Text) (r : Request) (p : ℕ)
    → find line_end r.buf ≡ some p
    → header_round (receive s r) ≡ receive_round s (header_round r)
unfolding header_round add_header set_content_length
round_at-receive s r zero e =
    ground (
      arith,
      find-append line_end r.buf s 0 e,
      drop-append 2 r.buf s,
      find-bound line_end r.buf 0 e,
    )
round_at-receive s r (suc p) e = ground (
  arith,
  find-append line_end r.buf s (suc p) e,
  drop-append (suc p + 2) r.buf s,
  take-append (suc p) r.buf s,
  find-bound line_end r.buf (suc p) e,
)

round_at_complete :
    (r r' : Request) (p : ℕ)
    → find line_end r.buf ≡ some p
    → header_round r ≡ finished (returned r')
    → r'.headers_parse_complete ≡ true
unfolding header_round add_header set_content_length
round_at_complete r r' zero e h = ground arith
round_at_complete r r' (suc p) e h = ground arith

-- What the loop leaves alone.
abbrev pub SameFrame : Request → Request → Type 0
SameFrame r r' =
    (r'.first_line ≡ r.first_line)
    × (r'.total_parse_complete ≡ r.total_parse_complete)
    × (r'.message_body ≡ r.message_body)

abbrev RoundFrame : Request → Round → Type 0
RoundFrame r (finished o) = SameFrame r (after o)
RoundFrame r (continues r') =
    SameFrame r r' × (r'.headers_parse_complete ≡ r.headers_parse_complete)

pub header_round-frame : (r : Request) → RoundFrame r (header_round r)
unfolding header_round add_header set_content_length
header_round-frame r = ground arith

pub set_headers_loop-frame : (f : ℕ) (r : Request) → SameFrame r (after (set_headers_loop f r))
unfolding set_headers_loop
set_headers_loop-frame zero r = (refl, refl, refl)
set_headers_loop-frame (suc f) r = elim (Round-cases (header_round r)) [
  | inl (o, e) ↦ rw (e, set_headers_loop) (rw e at (header_round-frame r))
  | inr (r', e) ↦
      let (frame, _) = rw e at (header_round-frame r) in
      let (x, y, z) = set_headers_loop-frame f r' in
      rw (e, set_headers_loop) (x ∙ frame.0, y ∙ frame.1, z ∙ frame.2)
]

pub set_headers-finished :
    (r : Request) (o : Outcome Request) → header_round r ≡ finished o → set_headers r ≡ o
unfolding set_headers set_headers_loop
set_headers-finished r o e = rw (e, set_headers_loop)

pub set_headers-continues :
    (r r' : Request) → header_round r ≡ continues r' → set_headers r ≡ set_headers r'
unfolding set_headers set_headers_loop
set_headers-continues r r' e =
    rw (e, set_headers_loop)
      (set_headers_loop-fuel (length r.buf) (suc (length r'.buf)) r' (header_round-shrinks r r' e)
        (omega arith))

-- What the loop makes of a buffer that more text follows, in terms of what it made of the buffer:
-- an end of the headers or an exception is not undone, and where it stopped for want of a line end
-- it goes on.
abbrev pub Resumes : Text → Request → Outcome Request → Type 0
Resumes s r (threw e r') = set_headers (receive s r) ≡ threw e (receive s r')
Resumes s r (returned r') =
    ((r'.headers_parse_complete ≡ true) × (set_headers (receive s r) ≡ returned (receive s r')))
    ⊎ ((r'.headers_parse_complete ≡ false)
        × (set_headers (receive s r) ≡ set_headers (receive s r')))

pub round_none : (r : Request) → find line_end r.buf ≡ none → header_round r ≡ finished (returned r)
unfolding header_round
round_none r e = rw (e, header_round)

pub set_headers_loop-none :
    (f : ℕ) (r : Request) → find line_end r.buf ≡ none → set_headers_loop (suc f) r ≡ returned r
unfolding set_headers_loop
set_headers_loop-none f r e = rw (round_none r e, set_headers_loop)

Resumes-finished :
    (s : Text) (r : Request) (p : ℕ) (o : Outcome Request)
    → find line_end r.buf ≡ some p
    → header_round r ≡ finished o
    → Resumes s r o
Resumes-finished s r p (threw x r') e h =
    set_headers-finished (receive s r) _ (rw (round_at-receive s r p e, h))
Resumes-finished s r p (returned r') e h = inl (
  round_at_complete r r' p e h,
  set_headers-finished (receive s r) _ (rw (round_at-receive s r p e, h)),
)

Resumes-continues :
    (s : Text) (r r' : Request) (o : Outcome Request)
    → set_headers (receive s r) ≡ set_headers (receive s r')
    → Resumes s r' o
    → Resumes s r o
Resumes-continues s r r' (threw x q) e h = e ∙ h
Resumes-continues s r r' (returned q) e (inl (c, h)) = inl (c, e ∙ h)
Resumes-continues s r r' (returned q) e (inr (c, h)) = inr (c, e ∙ h)

pub set_headers_loop-Resumes :
    (f : ℕ) (s : Text) (r : Request)
    → r.headers_parse_complete ≡ false
    → length r.buf < f
    → Resumes s r (set_headers_loop f r)
unfolding set_headers_loop
set_headers_loop-Resumes zero s r c h = absurd (omega arith)
set_headers_loop-Resumes (suc f) s r c h = elim (Option-cases (find line_end r.buf)) [
  | inl e ↦ rw (round_none r e, set_headers_loop) (inr (c, refl))
  | inr (p, e) ↦ elim (Round-cases (header_round r)) [
    | inl (o, k) ↦ rw (k, set_headers_loop) (Resumes-finished s r p o e k)
    | inr (r', k) ↦
        rw (k, set_headers_loop)
          (Resumes-continues s r r' (set_headers_loop f r')
            (set_headers-continues (receive s r) (receive s r') (rw (round_at-receive s r p e, k)))
            (set_headers_loop-Resumes f s r' ((rw k at (header_round-frame r)).1 ∙ c)
              (omega (arith, header_round-shrinks r r' k))))
  ]
]
