-- ===== src/SimpleHttp/Logger.antt =====
-- simple_http/log/include/log.h and src/log.cpp: the class Logger. The log file and the standard
-- output get the same text, so one list of lines stands for both.
use cpp_programming.Base.{
  ℕ, ◌≡◌, refl, sym, Bool, true, false, Option, none, some, List, [], ◌∷◌, ◌++◌, append-nil,
  append_assoc, arith, ltb, leb, if◌then◌else◌,
}
use cpp_programming.Text.{Text, text_eq, text_eq_iff}

-- The levels of the enumeration, by their numbers.
abbrev pub level_error : ℕ
level_error = 0

abbrev pub level_warn : ℕ
level_warn = 1

abbrev pub level_info : ℕ
level_info = 2

abbrev pub level_debug : ℕ
level_debug = 3

abbrev pub level_always : ℕ
level_always = 4

pub record Logger : Type 0 where
  pub log_level : ℕ
  pub written : List Text

-- The constructor, for a log file that can be opened.
unfoldable pub new : Logger
new = record { log_level = level_always; written = [] }

-- `Log`: the arguments one after the other, as a line.
unfoldable pub join : List Text → Text
join [] = []
join (t ∷ ts) = t ++ join ts

unfoldable pub log : List Text → Logger → Logger
unfolding join
log args l = record l { written = l.written ++ join args ∷ [] }

unfoldable pub log_always : List Text → Logger → Logger
unfolding log
log_always args l = log args l

-- "[Info]", "[Warn]", "[Error]", "[Debug]".
abbrev pub info_tag : Text
info_tag = 91 ∷ 73 ∷ 110 ∷ 102 ∷ 111 ∷ 93 ∷ []

abbrev pub warn_tag : Text
warn_tag = 91 ∷ 87 ∷ 97 ∷ 114 ∷ 110 ∷ 93 ∷ []

abbrev pub error_tag : Text
error_tag = 91 ∷ 69 ∷ 114 ∷ 114 ∷ 111 ∷ 114 ∷ 93 ∷ []

abbrev pub debug_tag : Text
debug_tag = 91 ∷ 68 ∷ 101 ∷ 98 ∷ 117 ∷ 103 ∷ 93 ∷ []

unfoldable pub log_info : List Text → Logger → Logger
unfolding log
log_info args l = if ltb l.log_level level_info then l else log (info_tag ∷ args) l

unfoldable pub log_warn : List Text → Logger → Logger
unfolding log
log_warn args l = if ltb l.log_level level_warn then l else log (warn_tag ∷ args) l

unfoldable pub log_error : List Text → Logger → Logger
unfolding log
log_error args l = if ltb l.log_level level_error then l else log (error_tag ∷ args) l

unfoldable pub log_debug : List Text → Logger → Logger
unfolding log
log_debug args l = if ltb l.log_level level_debug then l else log (debug_tag ∷ args) l

-- "error", "warn", "info", "debug".
abbrev pub error_word : Text
error_word = 101 ∷ 114 ∷ 114 ∷ 111 ∷ 114 ∷ []

abbrev pub warn_word : Text
warn_word = 119 ∷ 97 ∷ 114 ∷ 110 ∷ []

abbrev pub info_word : Text
info_word = 105 ∷ 110 ∷ 102 ∷ 111 ∷ []

abbrev pub debug_word : Text
debug_word = 100 ∷ 101 ∷ 98 ∷ 117 ∷ 103 ∷ []

-- "SetLogLevel: ".
abbrev set_log_level_text : Text
set_log_level_text = 83 ∷ 101 ∷ 116 ∷ 76 ∷ 111 ∷ 103 ∷ 76 ∷ 101 ∷ 118 ∷ 101 ∷ 108 ∷ 58 ∷ 32 ∷ []

-- What the macros of log.h put in front: "[", the name that the compiler gives the function they
-- stand in (`__PRETTY_FUNCTION__`), and "] ".
abbrev pub function_prefix : Text → Text
function_prefix pretty_function = 91 ∷ (pretty_function ++ 93 ∷ 32 ∷ [])

-- The level that is set, and the line that says so whatever the level is. `LogAlways` is the macro.
unfoldable pub set_level : Text → ℕ → Text → Logger → Logger
unfolding log_always
set_level pretty_function n word l =
    log_always (function_prefix pretty_function ∷ (set_log_level_text ++ word) ∷ [])
      (record l { log_level = n })

-- The first argument: the name that the compiler gives `SetLogLevel`.
unfoldable pub set_log_level : Text → Text → Logger → Logger
unfolding set_level
set_log_level pretty_function s l =
    if text_eq s error_word
    then set_level pretty_function level_error error_word l
    else if text_eq s warn_word
    then set_level pretty_function level_warn warn_word l
    else if text_eq s info_word
    then set_level pretty_function level_info info_word l
    else if text_eq s debug_word
    then set_level pretty_function level_debug debug_word l
    else l

-- A call of one of the logging functions.
pub data Call : Type 0 where
  always info warn error debug : List Text → Call
  set_level_to : Text → Call

unfoldable pub call : Text → Call → Logger → Logger
unfolding log_always log_info log_warn log_error log_debug set_log_level
call pretty_function (always args) l = log_always args l
call pretty_function (info args) l = log_info args l
call pretty_function (warn args) l = log_warn args l
call pretty_function (error args) l = log_error args l
call pretty_function (debug args) l = log_debug args l
call pretty_function (set_level_to s) l = set_log_level pretty_function s l

unfoldable pub call_all : Text → List Call → Logger → Logger
unfolding call
call_all pretty_function [] l = l
call_all pretty_function (c ∷ cs) l = call_all pretty_function cs (call pretty_function c l)

-- The lines that calls should write, from a given level on: those whose level is at most the one
-- last set.
pub level_of : Text → Option ℕ
level_of s =
    if text_eq s error_word
    then some level_error
    else if text_eq s warn_word
    then some level_warn
    else if text_eq s info_word
    then some level_info
    else if text_eq s debug_word
    then some level_debug
    else none

abbrev line_of : Text → Call → List Text
line_of pretty_function (always args) = args
line_of pretty_function (info args) = info_tag ∷ args
line_of pretty_function (warn args) = warn_tag ∷ args
line_of pretty_function (error args) = error_tag ∷ args
line_of pretty_function (debug args) = debug_tag ∷ args
line_of pretty_function (set_level_to s) =
    function_prefix pretty_function ∷ (set_log_level_text ++ s) ∷ []

abbrev next_level : ℕ → Call → ℕ
next_level n (set_level_to s) = elim (level_of s) [ none ↦ n | some k ↦ k ]
next_level n (always args) = n
next_level n (info args) = n
next_level n (warn args) = n
next_level n (error args) = n
next_level n (debug args) = n

-- An unknown level is no call at all.
abbrev is_heard : ℕ → Call → Bool
is_heard n (set_level_to s) = elim (level_of s) [ none ↦ false | some k ↦ true ]
is_heard n (always args) = true
is_heard n (info args) = leb level_info n
is_heard n (warn args) = leb level_warn n
is_heard n (error args) = true
is_heard n (debug args) = leb level_debug n

pub expected : Text → ℕ → List Call → List Text
unfolding join
expected pretty_function n [] = []
expected pretty_function n (c ∷ cs) =
    let rest = expected pretty_function (next_level n c) cs in
    if is_heard n c then join (line_of pretty_function c) ∷ rest else rest

call_lem :
    (f : Text) (c : Call) (l : Logger)
    → ((call f c l).log_level ≡ next_level l.log_level c)
      × ((call f c l).written
          ≡ (if is_heard l.log_level c then l.written ++ join (line_of f c) ∷ [] else l.written))
unfolding call level_of join
call_lem f (always args) l = (refl, refl)
call_lem f (info args) l = ground arith
call_lem f (warn args) l = ground arith
call_lem f (error args) l = ground arith
call_lem f (debug args) l = ground arith
call_lem f (set_level_to s) l = ground (
  arith,
  text_eq_iff s error_word,
  text_eq_iff s warn_word,
  text_eq_iff s info_word,
  text_eq_iff s debug_word,
)

-- Whatever the calls of the member functions, the log holds the lines of those that the level in
-- force at the time lets through, in order, behind what it held before; a change of the level to
-- one of the four known ones writes its line, with the name of the function in front, always.
pub call_all-written :
    (f : Text) (cs : List Call) (l : Logger)
    → (call_all f cs l).written ≡ l.written ++ expected f l.log_level cs
unfolding call_all expected
call_all-written f [] l = sym (append-nil l.written)
call_all-written f (c ∷ cs) l =
    let (level, lines) = call_lem f c l in
    rw (call_all-written f cs (call f c l), level, lines)
      (ground (
        arith,
        append_assoc l.written (join (line_of f c) ∷ []) (expected f (next_level l.log_level c) cs),
      ))
