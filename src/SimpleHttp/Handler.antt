-- ===== src/SimpleHttp/Handler.antt =====
-- simple_http/tcp_server/include/request_handler.h and the class HttpRequestHandler of
-- simple_http/http_server/src/http_request.cpp: the handler's own state. The callbacks that
-- write stand in Manager, since `write` is a function of the connection manager.
use cpp_programming.Base.{Bool, true, false, ◌||◌, [], ◌∷◌, ◌++◌, length, Outcome, returned, threw}
use cpp_programming.Text.{Text, to_string}
use cpp_programming.SimpleHttp.Request.{Request, append, all_received}
use cpp_programming.SimpleHttp.Request

pub record Handler : Type 0 where
  pub is_read_waiting : Bool
  pub is_write_waiting : Bool
  pub http_request : Request
  pub content_to_write : Text

-- The constructor.
unfoldable pub new : Handler
unfolding Request.new
new = record {
  is_read_waiting = true;
  is_write_waiting = false;
  http_request = Request.new;
  content_to_write = [];
}

abbrev pub is_waiting : Handler → Bool
is_waiting h = h.is_read_waiting || h.is_write_waiting

-- `httpRequest.Append(s)`.
unfoldable pub append_received_data : Text → Handler → Outcome Handler
append_received_data s h = elim (append s h.http_request) [
  | returned r ↦ returned (record h { http_request = r })
  | threw e r ↦ threw e (record h { http_request = r })
]

unfoldable pub check_data_integrity : Handler → Bool
check_data_integrity h = all_received h.http_request

-- "hello\r\n".
abbrev pub response_msg : Text
response_msg = 104 ∷ 101 ∷ 108 ∷ 108 ∷ 111 ∷ 13 ∷ 10 ∷ []

-- "HTTP/1.1 200 OK\r\n".
abbrev pub status_line : Text
status_line =
    72 ∷ 84 ∷ 84 ∷ 80 ∷ 47 ∷ 49 ∷ 46 ∷ 49 ∷ 32 ∷ 50 ∷ 48 ∷ 48 ∷ 32 ∷ 79 ∷ 75 ∷ 13 ∷ 10 ∷ []

-- "Context-Length: ", as the source spells it.
abbrev pub length_header : Text
length_header =
    67 ∷ 111 ∷ 110 ∷ 116 ∷ 101 ∷ 120 ∷ 116 ∷ 45 ∷ 76 ∷ 101 ∷ 110 ∷ 103 ∷ 116 ∷ 104 ∷ 58 ∷ 32 ∷ []

-- What `ReadCompleteCallback` puts together, whatever was received.
unfoldable pub response : Text
unfolding to_string
response =
    status_line
    ++ (length_header ++ to_string (length response_msg) ++ 13 ∷ 10 ∷ 13 ∷ 10 ∷ [])
    ++ response_msg
