-- ===== src/LearnGrpc/Client/Tests.antt =====
-- A Speak of the client that is started, closed and finished.
use cpp_programming.Base.{◌≡◌, refl, true, [], ◌∷◌, arith}
use cpp_programming.Base.Actions.{gives, state_of}
use cpp_programming.LearnGrpc.Event.{of_key, get_key, get_opt, set_opt}
use cpp_programming.LearnGrpc.Client.{
  speak, start_call, finish_call, writes_done, Pending, Call, release, acquire, speak_switch,
  speak_process, process, complete_round, new_call, speak_start, start, close,
}
use cpp_programming.LearnGrpc.Client.Courses.{
  ended, closing, Reach, begun, next, complete_round-gives, removed_idle,
}

abbrev started : Call
unfolding speak_start new_call
started = state_of (start speak 7 (new_call speak 7))

abbrev starting : Pending
starting = record { token = set_opt 0 (of_key 7 0); operation = start_call }

abbrev finishing : Pending
finishing = record { token = set_opt 1 (set_opt 0 (of_key 7 0)); operation = finish_call }

abbrev ending : Pending
ending = record { token = set_opt 4 (of_key 7 0); operation = writes_done }

abbrev running : Call
unfolding complete_round
running =
    state_of (complete_round true starting.token (record started { pending = finishing ∷ [] }))

abbrev closed : Call
unfolding close
closed = state_of (close running)

abbrev ended_writing : Call
unfolding complete_round
ended_writing =
    state_of (complete_round true ending.token (record closed { pending = finishing ∷ [] }))

abbrev finished : Call
unfolding complete_round
finished = state_of (complete_round true finishing.token (record ended_writing { pending = [] }))

trace : Reach speak 7 ended_writing
unfolding complete_round close speak_start acquire release new_call process speak_process
    speak_switch set_opt of_key get_key get_opt started running closed ended_writing finished
trace =
    next
      (next (next (begun started refl) (ended true [] (finishing ∷ []) starting running refl refl))
        (closing closed refl refl))
      (ended true (finishing ∷ []) [] ending ended_writing refl refl)

whole_trace : Reach speak 7 finished
unfolding complete_round close speak_start acquire release new_call process speak_process
    speak_switch set_opt of_key get_key get_opt started running closed ended_writing finished
whole_trace = next trace (ended true [] [] finishing finished refl refl)

complete_round-gives_example :
    (t : Call) × (complete_round true finishing.token (record ended_writing { pending = [] })
      ≡ gives tt t)
unfolding complete_round close speak_start acquire release new_call process speak_process
    speak_switch set_opt of_key get_key get_opt started running closed ended_writing finished
complete_round-gives_example =
    complete_round-gives speak 7 refl (omega arith) ended_writing true [] [] finishing trace refl

removed_idle_example : finished.pending ≡ []
unfolding complete_round close speak_start acquire release new_call process speak_process
    speak_switch set_opt of_key get_key get_opt started running closed ended_writing finished
removed_idle_example = removed_idle speak 7 refl (omega arith) finished whole_trace refl
