-- ===== src/SimpleHttp/Tests/Texts.antt =====
-- Small texts for the parser of requests and for the log.
use cpp_programming.Base.{
  ◌≡◌, refl, ◌⊎◌, inr, true, false, List, [], ◌∷◌, ◌++◌, arith, returned, after,
}
use cpp_programming.Text.{Text, find, to_string, stoi, decimal, to_unsigned}
use cpp_programming.SimpleHttp.Trim.{trim}
use cpp_programming.SimpleHttp.Request.{
  Request, Headers, append, lookup, assign, set_first_line, set_headers, set_headers_loop,
  header_round, add_header, set_content_length, parse_message_body, parse_request,
}
use cpp_programming.SimpleHttp.Request
use cpp_programming.SimpleHttp.Request.Chunks.{append-append}
use cpp_programming.SimpleHttp.Request.Messages.{append-render, assign_all, Parsed, render}
use cpp_programming.SimpleHttp.Request.Invariant.{
  append_all, append_all-IsParsed, IsParsed, Extends,
}
use cpp_programming.SimpleHttp.Request.Fuel.{append-Ends, Ends}
use cpp_programming.SimpleHttp.Logger.{
  Logger, call_all, call_all-written, expected, info, debug, set_level_to, error_word, debug_word,
}
use cpp_programming.SimpleHttp.Logger

call_all-written_example :
    (call_all
      (77 ∷ [])
      (debug ((97 ∷ []) ∷ []) ∷ set_level_to error_word ∷ info ((98 ∷ []) ∷ []) ∷ [])
      Logger.new).written
    ≡ []
      ++ expected
          (77 ∷ [])
          4
          (debug ((97 ∷ []) ∷ []) ∷ set_level_to error_word ∷ info ((98 ∷ []) ∷ []) ∷ [])
unfolding Logger.new
call_all-written_example =
    call_all-written (77 ∷ [])
      (debug ((97 ∷ []) ∷ []) ∷ set_level_to error_word ∷ info ((98 ∷ []) ∷ []) ∷ []) Logger.new

append-Ends_example : Ends (append (58 ∷ 13 ∷ 10 ∷ []) Request.new)
append-Ends_example = append-Ends (58 ∷ 13 ∷ 10 ∷ []) Request.new

-- "G\r\n" and then "\r\nxy".
abbrev opening : Request
opening = record Request.new { first_line = 71 ∷ [] }

append-append_example :
    append (13 ∷ 10 ∷ []) opening ≡ append ((71 ∷ 13 ∷ 10 ∷ []) ++ 13 ∷ 10 ∷ []) Request.new
unfolding Request.new append set_first_line set_headers set_headers_loop header_round find
    parse_message_body parse_request
append-append_example =
    append-append (71 ∷ 13 ∷ 10 ∷ []) (13 ∷ 10 ∷ []) Request.new opening (inr (λ e. cc)) refl refl

-- "Content-Length".
abbrev header_name : Text
header_name = 67 ∷ 111 ∷ 110 ∷ 116 ∷ 101 ∷ 110 ∷ 116 ∷ 45 ∷ 76 ∷ 101 ∷ 110 ∷ 103 ∷ 116 ∷ 104 ∷ []

abbrev headers : Headers
headers = (header_name, 49 ∷ []) ∷ []

append-render_example :
    append (render (71 ∷ []) headers (120 ∷ [])) Request.new
    ≡ returned (Parsed (71 ∷ []) headers 1 (120 ∷ []))
unfolding assign_all assign lookup to_string trim
append-render_example =
    append-render (71 ∷ []) headers (120 ∷ []) 1 (refl, tt)
      ((ground arith, ground arith, (refl, tt), refl), tt) refl (omega arith)

-- "G\r\n", then "Content-Length:2\r\n\r\nx", and later "y".
abbrev first_pieces : List Text
first_pieces = (71 ∷ 13 ∷ 10 ∷ []) ∷ (header_name ++ 58 ∷ 50 ∷ 13 ∷ 10 ∷ 13 ∷ 10 ∷ 120 ∷ []) ∷ []

abbrev half_body : Request
half_body = record {
  buf = [];
  content_length = 2;
  first_line = 71 ∷ [];
  headers = (header_name, 50 ∷ []) ∷ [];
  message_body = 120 ∷ [];
  headers_parse_complete = true;
  total_parse_complete = false;
}

append_all-IsParsed_example :
    IsParsed half_body
    × ((half_body.headers_parse_complete ≡ false)
        ⊎ Extends (121 ∷ []) half_body (after (append (121 ∷ []) half_body)))
unfolding Request.new append append_all set_first_line set_headers set_headers_loop header_round
    add_header set_content_length assign lookup find trim stoi decimal to_unsigned
    parse_message_body parse_request
append_all-IsParsed_example = append_all-IsParsed first_pieces (121 ∷ []) half_body refl
