-- ===== src/SimpleHttp/Request/Messages.antt =====
-- A well-formed request is parsed into its parts.
use cpp_programming.Base.{
  ℕ, suc, ◌^◌, ◌<◌, ◌≡◌, refl, ap, ◌∙◌, true, false, some, [], ◌∷◌, ◌++◌, arith, leb, length,
  is_empty, All, returned,
}
use cpp_programming.Text.{Text, find, to_unsigned, to_string}
use cpp_programming.Text.Find.{Lacks, find-Lacks, take-length, drop-length, drop-drop}
use cpp_programming.Text.Numbers.{stoi-to_string}
use cpp_programming.SimpleHttp.Trim.{trim}
use cpp_programming.SimpleHttp.Request.{
  Headers, lookup, assign, Request, continues, header_round, content_length_header, new, add_header,
  set_content_length, set_first_line, set_headers, parse_message_body, append,
}
use cpp_programming.SimpleHttp.Request.Loop.{set_headers-finished, set_headers-continues}
use cpp_programming.SimpleHttp.Request.Cases.{with_body, parse_request-early, append-open}

-- "name: value".
pub header_line : Text × Text → Text
header_line (k, v) = k ++ 58 ∷ 32 ∷ v

pub render_headers : Headers → Text → Text
unfolding header_line
render_headers [] body = 13 ∷ 10 ∷ body
render_headers (h ∷ hs) body = header_line h ++ 13 ∷ 10 ∷ render_headers hs body

-- The bytes of a request with this first line, these headers and this body.
pub render : Text → Headers → Text → Text
unfolding render_headers
render first hs body = first ++ 13 ∷ 10 ∷ render_headers hs body

-- The map of the headers in the order in which they come.
unfoldable pub assign_all : Headers → Headers → Headers
assign_all [] m = m
assign_all ((k, v) ∷ hs) m = assign_all hs (assign k v m)

-- A header that stays one line and is cut at its colon.
abbrev pub IsHeader : Text × Text → Type 0
IsHeader (k, v) = Lacks 58 k × Lacks 13 k × Lacks 13 v × (trim (32 ∷ v) ≡ v)

Lacks-append : (c : ℕ) (s t : Text) → Lacks c s → Lacks c t → Lacks c (s ++ t)
Lacks-append c [] t hs ht = ht
Lacks-append c (d ∷ s) t hs ht = (hs.0, Lacks-append c s t hs.1 ht)

header_line-Lacks : (k v : Text) → Lacks 13 k → Lacks 13 v → Lacks 13 (header_line (k, v))
unfolding header_line
header_line-Lacks k v hk hv = Lacks-append 13 k (58 ∷ 32 ∷ v) hk (refl, (refl, hv))

add_header-header_line :
    (k v : Text) (r : Request)
    → IsHeader (k, v)
    → add_header (header_line (k, v)) r ≡ returned (record r { headers = assign k v r.headers })
unfolding add_header header_line
add_header-header_line k v r h =
    rw (find-Lacks 58 [] k (32 ∷ v) h.0, add_header)
      (rw (take-length k (58 ∷ 32 ∷ v), drop-drop (length k) 1 (k ++ 58 ∷ 32 ∷ v))
        (rw (drop-length k (58 ∷ 32 ∷ v), h.3)))

-- Text on the line, behind which the line ends.
abbrev at_line : Text → Text → Request → Request
at_line l t r = record r { buf = l ++ 13 ∷ 10 ∷ t }

header_round-line :
    (l t : Text) (m : Headers) (r : Request)
    → Lacks 13 l
    → is_empty l ≡ false
    → ((b : Text)
        → add_header l (record r { buf = b }) ≡ returned (record r { buf = b; headers = m }))
    → header_round (at_line l t r) ≡ continues (record r { buf = t; headers = m })
unfolding header_round
header_round-line [] t m r h e a = cc
header_round-line (c ∷ l) t m r h e a =
    rw (find-Lacks 13 (10 ∷ []) (c ∷ l) t h, header_round)
      (rw (take-length l (13 ∷ 10 ∷ t), a ((c ∷ l) ++ 13 ∷ 10 ∷ t), header_round)
        (rw (drop-drop (suc (length l)) 2 ((c ∷ l) ++ 13 ∷ 10 ∷ t))
          (rw (drop-length l (13 ∷ 10 ∷ t)))))

header_line-filled : (k v : Text) → is_empty (header_line (k, v)) ≡ false
unfolding header_line
header_line-filled [] v = refl
header_line-filled (c ∷ k) v = refl

set_headers-render_headers :
    (hs : Headers) (body : Text) (r : Request)
    → All IsHeader hs
    → set_headers (record r { buf = render_headers hs body })
      ≡ set_content_length (record r {
        buf = body;
        headers = assign_all hs r.headers;
        headers_parse_complete = true;
      })
unfolding render_headers assign_all
set_headers-render_headers [] body r h =
    set_headers-finished (record r { buf = 13 ∷ 10 ∷ body }) _ (unfold header_round find in refl)
set_headers-render_headers ((k, v) ∷ hs) body r h =
    set_headers-continues (at_line (header_line (k, v)) (render_headers hs body) r)
      (record r { buf = render_headers hs body; headers = assign k v r.headers })
      (header_round-line (header_line (k, v)) (render_headers hs body) (assign k v r.headers) r
        (header_line-Lacks k v h.0.1 h.0.2) (header_line-filled k v)
        (λ b. add_header-header_line k v (record r { buf = b }) h.0))
    ∙ set_headers-render_headers hs body (record r { headers = assign k v r.headers }) h.1

set_first_line-render :
    (first t : Text)
    → Lacks 13 first
    → set_first_line (record new { buf = first ++ 13 ∷ 10 ∷ t })
      ≡ record new { buf = t; first_line = first }
unfolding set_first_line new
set_first_line-render first t h =
    rw (find-Lacks 13 (10 ∷ []) first t h, set_first_line)
      (rw (take-length first (13 ∷ 10 ∷ t), drop-drop (length first) 2 (first ++ 13 ∷ 10 ∷ t))
        (rw (drop-length first (13 ∷ 10 ∷ t))))

-- What the parser knows of a request at the end.
abbrev pub Parsed : Text → Headers → ℕ → Text → Request
Parsed first hs n body = record {
  buf = [];
  content_length = n;
  first_line = first;
  headers = assign_all hs [];
  message_body = body;
  headers_parse_complete = true;
  total_parse_complete = leb n (length body);
}

body-Parsed :
    (first : Text) (hs : Headers) (body : Text) (n : ℕ)
    → parse_message_body (record new {
      buf = body;
      content_length = n;
      first_line = first;
      headers = assign_all hs [];
      headers_parse_complete = true;
    })
      ≡ Parsed first hs n body
unfolding parse_message_body new
body-Parsed first hs body n = ground arith

set_content_length-to_string :
    (n : ℕ) (r : Request)
    → lookup content_length_header r.headers ≡ some (to_string n)
    → n < 2 ^ 31
    → set_content_length r ≡ returned (record r { content_length = n })
unfolding set_content_length to_unsigned
set_content_length-to_string n r e h =
    rw (e, set_content_length) (rw (stoi-to_string n h, set_content_length) (ground arith))

-- A new object that gets a well-formed request as a whole knows its first line, its headers, its
-- length and its body, and takes it for complete exactly when the body has the length that
-- Content-Length says or more.
pub append-render :
    (first : Text) (hs : Headers) (body : Text) (n : ℕ)
    → Lacks 13 first
    → All IsHeader hs
    → lookup content_length_header (assign_all hs []) ≡ some (to_string n)
    → n < 2 ^ 31
    → append (render first hs body) new ≡ returned (Parsed first hs n body)
unfolding render new
append-render first hs body n f h e b =
    let t = render_headers hs body in
    append-open (first ++ 13 ∷ 10 ∷ t) new refl
    ∙ parse_request-early (record new { buf = first ++ 13 ∷ 10 ∷ t }) refl
    ∙ ap (λ r. with_body (set_headers r)) (set_first_line-render first t f)
    ∙ ap with_body (set_headers-render_headers hs body (record new { first_line = first }) h)
    ∙ ap with_body (set_content_length-to_string n _ e b)
    ∙ ap returned (body-Parsed first hs body n)
