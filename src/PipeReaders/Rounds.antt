-- ===== src/PipeReaders/Rounds.antt =====
-- The loops of the functions `Run`.
use cpp_programming.Base.{
  ℕ, Bool, true, false, Option, none, some, List, [], ◌∷◌, if◌then◌else◌, ◌==◌, runtime_error,
  blocked,
}
use cpp_programming.Base.Actions.{give, raise, ◌>>=◌, ◌>>◌, when}
use cpp_programming.PipeReaders.Reading.{
  timed_out, call_failed, creat_failed, Act, print, get_input, get_all_input,
}

-- CreateFile, for the error of `creat`, if any, and Popen, for the descriptor that it leads to.
unfoldable pub create_file : Option ℕ → Act (Unit {0})
create_file none = give tt
create_file (some code) = print (creat_failed code)

unfoldable pub popen : Option ℕ → Act ℕ
popen none = raise runtime_error
popen (some fd) = give fd

-- The part of Run in front of the loop: the two descriptors.
unfoldable pub begin : Option ℕ → Option ℕ → Option ℕ → Option ℕ → Act (ℕ × ℕ)
unfolding create_file popen
begin file1 file2 pipe1 pipe2 = do
  create_file file1
  create_file file2
  fd1 ← popen pipe1
  fd2 ← popen pipe2
  give (fd1, fd2)

-- What `select` or `poll` gives: which of the two descriptors are ready, a timeout, or a failure.
pub data Reported : Type 0 where
  ready : Bool → Bool → Reported
  none_ready : Reported
  failed : ℕ → Reported

-- A round of the version with `select`, `false`: the loop ends.
unfoldable pub select_round : ℕ → ℕ → Reported → Act Bool
unfolding get_input
select_round fd1 fd2 (ready a b) = do when a (get_input fd1); when b (get_input fd2); give true
select_round fd1 fd2 (failed code) = do print (call_failed code); give false
select_round fd1 fd2 none_ready = do print timed_out; give true

-- A round of the version with `poll`.
unfoldable pub poll_round : ℕ → ℕ → Reported → Act Bool
unfolding get_input
poll_round fd1 fd2 (ready a b) = do when a (get_input fd1); when b (get_input fd2); give true
poll_round fd1 fd2 (failed code) = do print (call_failed code); give false
poll_round fd1 fd2 none_ready = do print timed_out; give true

-- EINTR.
abbrev pub eintr : ℕ
eintr = 4

-- What epoll_wait gives: descriptors, none of them at the end of the time, or its errno.
pub data Waited : Type 0 where
  events : List ℕ → Waited
  wait_failed : ℕ → Waited

-- Epoll::Wait: a call that is interrupted is made again.
unfoldable pub wait : List Waited → Act (List ℕ)
wait [] = raise blocked
wait (events fds ∷ answers) = give fds
wait (wait_failed code ∷ answers) =
    let again = wait answers in
    if code == eintr then (do print timed_out; again) else raise runtime_error

-- The loop over the events, with the GetInput of the version.
unfoldable pub each : (ℕ → Act (Unit {0})) → List ℕ → Act (Unit {0})
each f [] = give tt
each f (fd ∷ fds) = do f fd; each f fds

unfoldable pub on_events : (ℕ → Act (Unit {0})) → List ℕ → Act (Unit {0})
unfolding each
on_events f [] = print timed_out
on_events f (fd ∷ fds) = each f (fd ∷ fds)

-- A round of the versions with epoll, by level and by edge.
unfoldable pub level_round : List Waited → Act (Unit {0})
unfolding wait on_events get_input
level_round answers = do fds ← wait answers; on_events get_input fds

unfoldable pub edge_round : List Waited → Act (Unit {0})
unfolding wait on_events get_all_input
edge_round answers = do fds ← wait answers; on_events (λ fd. get_all_input) fds
