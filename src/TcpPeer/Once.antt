-- ===== src/TcpPeer/Once.antt =====
-- How often `Run` calls `Process`.
use cpp_programming.Base.{
  ℕ, ◌+◌, ◌≤◌, ◌≡◌, refl, subst, Bool, true, false, ◌&&◌, List, [], ◌∷◌, ◌++◌, arith, if◌then◌else◌,
  runtime_error, Result, ok, err,
}
use cpp_programming.Base.Actions.{Reply, gives, raises, give, raise, and_then, ◌>>◌, when, state_of}
use cpp_programming.Text.{Text, ℤ}
use cpp_programming.TcpPeer.CommandLine.{Config, set, set_loop, then_set, check_conflict}
use cpp_programming.TcpPeer.Run.{
  Call, open_socket, set_receive_size, set_send_size, listening, accepting, process_accepted,
  process_connected, type_e, binding, connecting, Outside, Act, log, is_minus_one, is_one, ended,
  checked, set_sizes, bind, connect, listen, process, run,
}

-- How often `Process` is called.
abbrev is_process : Call → ℕ
is_process process_accepted = 1
is_process process_connected = 1
is_process open_socket = 0
is_process set_receive_size = 0
is_process set_send_size = 0
is_process listening = 0
is_process accepting = 0
is_process type_e = 0
is_process (binding addr port) = 0
is_process (connecting addr port) = 0

unfoldable pub processes : List Call → ℕ
processes [] = 0
processes (c ∷ cs) = is_process c + processes cs

processes-snoc :
    (cs : List Call) (c : Call) → processes (cs ++ c ∷ []) ≡ processes cs + is_process c
unfolding processes
processes-snoc [] c = omega arith
processes-snoc (d ∷ cs) c = omega (arith, processes-snoc cs c)

-- The calls of `Process` by the end of an action, whichever way it ended.
abbrev AtMost {ℓ} : {A : Type ℓ} → ℕ → Reply (List Call) A → Type 0
AtMost n r = processes (state_of r) ≤ n

AtMost-bind {ℓ κ} :
    {A : Type ℓ} {B : Type κ} (n m : ℕ) (r : Reply (List Call) A) (f : A → Act B)
    → n ≤ m
    → AtMost n r
    → ((a : A) (cs : List Call) → processes cs ≤ n → AtMost m (f a cs))
    → AtMost m (and_then r f)
AtMost-bind n m (gives a cs) f l h k = k a cs h
AtMost-bind n m (raises e cs) f l h k = omega (arith, l, h)

log-AtMost :
    (n : ℕ) (c : Call) (cs : List Call) → processes cs + is_process c ≤ n → AtMost n (log c cs)
log-AtMost n c cs h = omega (arith, processes-snoc cs c, h)

raise_if-AtMost :
    (n : ℕ) (b : Bool) (cs : List Call)
    → processes cs ≤ n
    → AtMost {0} {A = Unit {0}} n ((if b then raise runtime_error else give tt) cs)
raise_if-AtMost n true cs h = h
raise_if-AtMost n false cs h = h

checked-AtMost :
    (o : Outside) (n : ℕ) (c : Call) (cs : List Call)
    → processes cs + is_process c ≤ n
    → AtMost n (checked o c cs)
unfolding checked
checked-AtMost o n c cs h =
    raise_if-AtMost n (is_minus_one (o.answer c)) (cs ++ c ∷ []) (log-AtMost n c cs h)

process-AtMost :
    (o : Outside) (n : ℕ) (c : Call) (cs : List Call)
    → processes cs + is_process c ≤ n
    → AtMost n (process o c cs)
unfolding process
process-AtMost o n c cs h = go (o.ending c)
  where
    go : (r : Result (Unit {0})) → AtMost n (ended r (cs ++ c ∷ []))
    go (ok u) = log-AtMost n c cs h
    go (err e) = log-AtMost n c cs h

bind-AtMost :
    (o : Outside) (n : ℕ) (addr : Text) (port : ℤ) (cs : List Call)
    → processes cs ≤ n
    → AtMost n (bind o addr port cs)
unfolding bind
bind-AtMost o n addr port cs h = go (o.is_address addr)
  where
    go :
        (b : Bool)
        → AtMost n ((if b then checked o (binding addr port) else raise runtime_error) cs)
    go true = checked-AtMost o n (binding addr port) cs (omega (arith, h))
    go false = h

connect-AtMost :
    (o : Outside) (n : ℕ) (addr : Text) (port : ℤ) (cs : List Call)
    → processes cs ≤ n
    → AtMost n (connect o addr port cs)
unfolding connect
connect-AtMost o n addr port cs h = go (o.is_address addr)
  where
    go :
        (b : Bool)
        → AtMost n ((if b then checked o (connecting addr port) else raise runtime_error) cs)
    go true = checked-AtMost o n (connecting addr port) cs (omega (arith, h))
    go false = h

listen-AtMost : (o : Outside) (n : ℕ) (cs : List Call) → processes cs ≤ n → AtMost n (listen o cs)
unfolding listen
listen-AtMost o n cs h =
    raise_if-AtMost n (is_one (o.answer listening)) (cs ++ listening ∷ [])
      (log-AtMost n listening cs (omega (arith, h)))

when-AtMost :
    (n : ℕ) (b : Bool) (f : Act (Unit {0})) (cs : List Call)
    → processes cs ≤ n
    → AtMost n (f cs)
    → AtMost n (when b f cs)
when-AtMost n true f cs h k = k
when-AtMost n false f cs h k = h

-- One of the two ends of `Run`.
abbrev accept_end : Outside → Act (Unit {0})
accept_end o = do checked o accepting; process o process_accepted

abbrev connect_end : Outside → Config → Act (Unit {0})
connect_end o config = do connect o config.dst_addr config.dst_port; process o process_connected

accept_end-AtMost : (o : Outside) (cs : List Call) → processes cs ≤ 0 → AtMost 1 (accept_end o cs)
accept_end-AtMost o cs h =
    AtMost-bind 0 1 (checked o accepting cs) (λ u. process o process_accepted) (omega arith)
      (checked-AtMost o 0 accepting cs (omega (arith, h)))
      (λ u ds k. process-AtMost o 1 process_accepted ds (omega (arith, k)))

connect_end-AtMost :
    (o : Outside) (config : Config) (cs : List Call)
    → processes cs ≤ 0
    → AtMost 1 (connect_end o config cs)
connect_end-AtMost o config cs h =
    AtMost-bind 0 1 (connect o config.dst_addr config.dst_port cs)
      (λ u. process o process_connected) (omega arith)
      (connect-AtMost o 0 config.dst_addr config.dst_port cs h)
      (λ u ds k. process-AtMost o 1 process_connected ds (omega (arith, k)))

-- The ends of `Run`, of which a checked configuration has one at most.
ends-AtMost :
    (o : Outside) (config : Config) (a c : Bool) (cs : List Call)
    → a && c ≡ false
    → processes cs ≤ 0
    → AtMost 1 ((do when a (accept_end o); when c (connect_end o config); log type_e) cs)
ends-AtMost o config true true cs e h = absurd cc
ends-AtMost o config true false cs e h =
    AtMost-bind 1 1 (accept_end o cs) (λ u. log type_e) (omega arith) (accept_end-AtMost o cs h)
      (λ u ds k. log-AtMost 1 type_e ds (omega (arith, k)))
ends-AtMost o config false c cs e h =
    AtMost-bind 1 1 (when c (connect_end o config) cs) (λ u. log type_e) (omega arith)
      (when-AtMost 1 c (connect_end o config) cs (omega (arith, h))
        (connect_end-AtMost o config cs h))
      (λ u ds k. log-AtMost 1 type_e ds (omega (arith, k)))

run-AtMost :
    (o : Outside) (config : Config)
    → config.accept && config.connect ≡ false
    → AtMost 1 (run o config [])
unfolding run set_sizes processes
run-AtMost o config e =
    AtMost-bind 0 1 (checked o open_socket []) _ (omega arith)
      (checked-AtMost o 0 open_socket [] (omega arith))
      (λ u cs h.
        let sized = cs ++ set_receive_size ∷ [] in
        let all = sized ++ set_send_size ∷ [] in
        let h' : processes all ≤ 0 =
          omega
            (arith, h, processes-snoc cs set_receive_size, processes-snoc sized set_send_size) in
        AtMost-bind 0 1 (when config.bind (bind o config.src_addr config.src_port) all) _
          (omega arith)
          (when-AtMost 0 config.bind (bind o config.src_addr config.src_port) all h'
            (bind-AtMost o 0 config.src_addr config.src_port all h'))
          (λ v ds k.
            AtMost-bind 0 1 (when config.listen (listen o) ds) _ (omega arith)
              (when-AtMost 0 config.listen (listen o) ds k (listen-AtMost o 0 ds k))
              (λ w es l. ends-AtMost o config config.accept config.connect es e l)))

set-conflict :
    (args : List Text) (c config : Config)
    → set args c ≡ ok config
    → config.accept && config.connect ≡ false
unfolding set
set-conflict args c config e = go (set_loop args c) e
  where
    checked_config :
        (d : Config) (b : Bool)
        → d.accept && d.connect ≡ b
        → (if b then err runtime_error else ok d) ≡ ok config
        → config.accept && config.connect ≡ false
    checked_config d true f q = absurd cc
    checked_config d false f q =
        let same : d ≡ config = cc in subst (λ x. x.accept && x.connect ≡ false) same f

    go :
        (r : Result Config)
        → then_set r check_conflict ≡ ok config
        → config.accept && config.connect ≡ false
    go (err x) q = absurd cc
    go (ok d) q = checked_config d (d.accept && d.connect) refl q

-- With a configuration that `set` accepts, `Run` calls `Process` once at most, whatever the calls
-- of the kernel return and whichever way it ends.
pub set-run :
    (o : Outside) (args : List Text) (c config : Config)
    → set args c ≡ ok config
    → processes (state_of (run o config [])) ≤ 1
set-run o args c config e = run-AtMost o config (set-conflict args c config e)
