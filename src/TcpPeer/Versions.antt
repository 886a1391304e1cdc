-- ===== src/TcpPeer/Versions.antt =====
-- The versions of `Process` with `poll` and with `select`, side by side.
use cpp_programming.Base.{
  ◌≡◌, refl, sym, ap, ◌∙◌, subst, Bool, true, false, ◌&&◌, not, Option, none, some, List, [], ◌∷◌,
  if◌then◌else◌, append-nil, All,
}
use cpp_programming.Base.Actions.{Reply, gives, raises, give, and_then}
use cpp_programming.TcpPeer.CommandLine.{Config}
use cpp_programming.TcpPeer.Peer.{Peer, write, shutdown_write, set_write_shutdown}
use cpp_programming.Base.Actions.{Gives}
use cpp_programming.TcpPeer.Typed.{Same, receive-Same}
use cpp_programming.TcpPeer.Rounds.{
  Ready, Events, Sets, receive, take_input, send_rest, poll_round, select_round, poll_rounds,
  select_rounds, poll_begin, select_begin, poll_process, select_process,
}

-- The sets that ask for the same events.
abbrev pub sets_of : Events → Sets
sets_of e = record { r_fd = e.pollin; r_input = true; w_fd = e.pollout; read_stop = not e.pollin }

abbrev pub opt_sets : Option Events → Option Sets
opt_sets none = none
opt_sets (some e) = some (sets_of e)

abbrev with_sets : Reply Peer (Option Events) → Reply Peer (Option Sets)
with_sets r = and_then r (λ o. give (opt_sets o))

not-not : (b : Bool) → not (not b) ≡ b
not-not true = refl
not-not false = refl

-- The end of a round, from the write on.
abbrev poll_tail : Bool → Reply Peer Bool → Reply Peer (Option Events)
poll_tail p r = and_then r (λ rest. give (some (record { pollin = p; pollout = rest })))

abbrev select_tail : Bool → Bool → Reply Peer Bool → Reply Peer (Option Sets)
select_tail f s r =
    and_then r
      (λ rest. give (some (record { r_fd = f; r_input = true; w_fd = rest; read_stop = s })))

tail_lem :
    (f s : Bool) (r : Reply Peer Bool) → not f ≡ s → select_tail f s r ≡ with_sets (poll_tail f r)
tail_lem f s (gives rest p) e =
    ap (λ x. gives (some (record { r_fd = f; r_input = true; w_fd = rest; read_stop = x })) p)
      (sym e)
tail_lem f s (raises x p) e = refl

-- The middle of a round, from the typed text on.
abbrev poll_middle : Ready → Bool → Bool → Reply Peer Bool → Reply Peer (Option Events)
poll_middle ready out f r =
    and_then r
      (λ on. if on then (λ p. poll_tail f (send_rest (out && ready.writable) p)) else give none)

abbrev select_middle : Ready → Bool → Bool → Bool → Reply Peer Bool → Reply Peer (Option Sets)
select_middle ready out f s r =
    and_then r
      (λ on. if on then (λ p. select_tail f s (send_rest (out && ready.writable) p)) else give none)

middle_lem :
    (ready : Ready) (out f s : Bool) (r : Reply Peer Bool)
    → not f ≡ s
    → select_middle ready out f s r ≡ with_sets (poll_middle ready out f r)
middle_lem ready out f s (gives true p) e = tail_lem f s (send_rest (out && ready.writable) p) e
middle_lem ready out f s (gives false p) e = refl
middle_lem ready out f s (raises x p) e = refl

round_reading :
    (ready : Ready) (out : Bool) (r : Reply Peer Bool)
    → and_then r (λ stop p. select_middle ready out (not stop) stop (take_input ready.typed p))
      ≡ with_sets
          (and_then r (λ stop p. poll_middle ready out (not stop) (take_input ready.typed p)))
round_reading ready out (gives stop p) =
    middle_lem ready out (not stop) stop (take_input ready.typed p) (not-not stop)
round_reading ready out (raises x p) = refl

-- A report without a hang-up or an error.
abbrev pub IsPlain : Ready → Type 0
IsPlain ready = (ready.hung_up ≡ false) × (ready.failed ≡ false) × (ready.input_ended ≡ false)

abbrev plain : Ready → Ready
plain ready = record ready { hung_up = false; failed = false; input_ended = false }

IsPlain-plain : (ready : Ready) → IsPlain ready → ready ≡ plain ready
IsPlain-plain ready h =
    ap (λ b. record ready { hung_up = b }) h.0
    ∙ ap (λ b. record ready { hung_up = false; failed = b }) h.1
    ∙ ap (λ b. record ready { hung_up = false; failed = false; input_ended = b }) h.2

-- With the same events asked for, a round with `select` does what one with `poll` does, and the
-- same events are asked for behind it.
plain_round :
    (ready : Ready) (e : Events) (p : Peer)
    → select_round (plain ready) (sets_of e) p ≡ with_sets (poll_round ready e p)
unfolding select_round poll_round receive
plain_round ready e p = go e.pollin
  where
    go :
        (b : Bool)
        → select_round (plain ready) (sets_of (record { pollin = b; pollout = e.pollout })) p
          ≡ with_sets (poll_round ready (record { pollin = b; pollout = e.pollout }) p)
    go true = round_reading ready e.pollout (receive (true && ready.readable) false p)
    go false = middle_lem ready e.pollout false true (take_input ready.typed p) refl

round_lem :
    (ready : Ready) (e : Events) (p : Peer)
    → IsPlain ready
    → select_round ready (sets_of e) p ≡ with_sets (poll_round ready e p)
round_lem ready e p h =
    ap (λ r. select_round r (sets_of e) p) (IsPlain-plain ready h) ∙ plain_round ready e p

-- The rounds behind one.
abbrev poll_then : List Ready → Reply Peer (Option Events) → Reply Peer Bool
poll_then rs r = and_then r (λ o. elim o [ none ↦ give true | some e ↦ poll_rounds rs e ])

abbrev select_then : List Ready → Reply Peer (Option Sets) → Reply Peer Bool
select_then rs r = and_then r (λ o. elim o [ none ↦ give true | some x ↦ select_rounds rs x ])

rounds_step :
    (rs : List Ready) (r : Reply Peer (Option Events))
    → ((e : Events) (p : Peer) → select_rounds rs (sets_of e) p ≡ poll_rounds rs e p)
    → select_then rs (with_sets r) ≡ poll_then rs r
rounds_step rs (gives none q) h = refl
rounds_step rs (gives (some f) q) h = h f q
rounds_step rs (raises x q) h = refl

rounds_lem :
    (rs : List Ready) (e : Events) (p : Peer)
    → All IsPlain rs
    → select_rounds rs (sets_of e) p ≡ poll_rounds rs e p
unfolding select_rounds poll_rounds
rounds_lem [] e p h = refl
rounds_lem (ready ∷ rs) e p h =
    ap (select_then rs) (round_lem ready e p h.0)
    ∙ rounds_step rs (poll_round ready e p) (λ f q. rounds_lem rs f q h.1)

send_nothing : (b : Bool) (p : Peer) → p.w ≡ [] → send_rest b p ≡ send_rest false p
unfolding send_rest write
send_nothing b p e =
    subst (λ q. send_rest b q ≡ send_rest false q) (ap (λ t. record p { w = t }) (sym e)) (go b)
  where
    go : (x : Bool) → send_rest x (record p { w = [] }) ≡ send_rest false (record p { w = [] })
    go true = ap (λ t. gives false (record p { w = []; sent = t })) (append-nil p.sent)
    go false = refl

-- A round in which nothing is typed, with and without POLLOUT, as long as there is nothing to send.
idle_round :
    (ready : Ready) (out : Bool) (p : Peer)
    → ready.typed ≡ false
    → p.w ≡ []
    → poll_round ready (record { pollin = true; pollout = out }) p
      ≡ poll_round ready (record { pollin = true; pollout = false }) p
unfolding poll_round take_input
idle_round ready out p e h =
    go (receive (true && ready.readable) false p) (receive-Same (true && ready.readable) false p)
  where
    middle :
        (stop typed : Bool) (q : Peer)
        → typed ≡ false
        → q.w ≡ []
        → poll_middle ready out stop (take_input typed q)
          ≡ poll_middle ready false stop (take_input typed q)
    middle stop false q x y = ap (poll_tail stop) (send_nothing (out && ready.writable) q y)
    middle stop true q x y = absurd cc

    go :
        (r : Reply Peer Bool)
        → Gives (λ _. Same p) r
        → and_then r (λ stop q. poll_middle ready out (not stop) (take_input ready.typed q))
          ≡ and_then r (λ stop q. poll_middle ready false (not stop) (take_input ready.typed q))
    go (gives stop q) s = middle (not stop) ready.typed q e (s.0 ∙ h)
    go (raises x q) s = refl

begun_lem :
    (rs : List Ready) (r : Reply Peer (Unit {0}))
    → All IsPlain rs
    → and_then
        (and_then r
          (λ u. give (record { r_fd = true; r_input = true; w_fd = false; read_stop = false })))
        (select_rounds rs)
      ≡ and_then
          (and_then r (λ u. give (record { pollin = true; pollout = false })))
          (poll_rounds rs)
begun_lem rs (gives u p) h = rounds_lem rs (record { pollin = true; pollout = false }) p h
begun_lem rs (raises x p) h = refl

-- With -r, if nothing is typed by the time of the first report and the kernel reports no hang-up and
-- no error, of the socket or of the standard input, the versions of `Process` with `select` and with
-- `poll` do the same, whatever else the kernel reports and answers: they read, print, send, shut
-- down and end alike, exceptions included.
pub select_process-poll_process :
    (config : Config) (first : Ready) (rs : List Ready) (p : Peer)
    → config.read ≡ true
    → first.typed ≡ false
    → p.w ≡ []
    → All IsPlain (first ∷ rs)
    → select_process config (first ∷ rs) p ≡ poll_process config (first ∷ rs) p
unfolding select_process poll_process select_begin poll_begin poll_rounds
select_process-poll_process config first rs p e f h k = go config.read config.write e
  where
    go :
        (rd wr : Bool)
        → rd ≡ true
        → select_process (record config { read = rd; write = wr }) (first ∷ rs) p
          ≡ poll_process (record config { read = rd; write = wr }) (first ∷ rs) p
    go false wr x = absurd cc
    go true false x =
        begun_lem (first ∷ rs) (and_then (shutdown_write p) (λ u. set_write_shutdown)) k
    go true true x =
        rounds_lem (first ∷ rs) (record { pollin = true; pollout = false }) p k
        ∙ ap (poll_then rs) (sym (idle_round first true p f h))
