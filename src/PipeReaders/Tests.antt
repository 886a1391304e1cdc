-- ===== src/PipeReaders/Tests.antt =====
-- A pipe that gives "ab" and "c", and then ends.
use cpp_programming.Base.{true, false, ◌≡◌, refl, [], ◌∷◌, arith}
use cpp_programming.Base.Actions.{gives}
use cpp_programming.Text.{c_string}
use cpp_programming.Text.Literals.{codes}
use cpp_programming.Text.Calls.{got}
use cpp_programming.PipeReaders.Reading.{
  eof, eof_of, input_of, timed_out, Console, get_input, get_all_input,
}
use cpp_programming.PipeReaders.Rounds.{
  events, wait_failed, wait, each, on_events, level_round, select_round, ready,
}
use cpp_programming.PipeReaders.Endings.{at_end, get_all_input-report}

get_all_input-report_example :
    get_all_input
      (record { answers = got (codes "ab") ∷ got (codes "c") ∷ got [] ∷ []; printed = [] })
    ≡ gives tt (record { answers = []; printed = eof ∷ [] })
get_all_input-report_example =
    get_all_input-report (codes "ab" ∷ codes "c" ∷ []) at_end [] []
      ((omega arith, (refl, (refl, tt))), ((omega arith, (refl, tt)), tt))

abbrev pipe : Console
pipe = record { answers = got (codes "ab") ∷ got (codes "c") ∷ got [] ∷ []; printed = [] }

-- By level each event brings one read.
by_level :
    level_round (wait_failed 4 ∷ events (5 ∷ 5 ∷ 5 ∷ []) ∷ []) pipe
    ≡ gives tt (record {
      answers = [];
      printed = timed_out ∷ input_of 5 (codes "ab") ∷ input_of 5 (codes "c") ∷ eof_of 5 ∷ [];
    })
unfolding level_round wait on_events each get_input c_string
by_level = refl

by_select :
    select_round 5 6 (ready true false) pipe
    ≡ gives true
        (record { answers = got (codes "c") ∷ got [] ∷ []; printed = input_of 5 (codes "ab") ∷ [] })
unfolding select_round get_input c_string
by_select = refl
