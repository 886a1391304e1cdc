-- ===== src/TcpPeer/Typed.antt =====
-- What is typed, and what of it is to be sent.
use cpp_programming.Base.{
  ℕ, ◌≡◌, refl, sym, ap, ◌∙◌, subst, Bool, true, false, Option, none, some, List, [], ◌∷◌, ◌++◌,
  append_assoc, arith, if◌then◌else◌, Result, ok, err,
}
use cpp_programming.Base.Actions.{give, and_then, ◌>>◌}
use cpp_programming.Base.Actions.{Gives, Gives-bind}
use cpp_programming.Text.{Text}
use cpp_programming.Text.Literals.{codes}
use cpp_programming.Text.Calls.{SysRead}
use cpp_programming.TcpPeer.Peer.{
  Peer, print, Received, read_loop, read, keep_read, read_input, keep_input, shutdown,
  shutdown_answer, shutdown_read, shutdown_write, shutdown_both, set_write_shutdown, append_w,
  Command, exit_loop, stop_read, stop_write, stop_both, unwritten, plain, command_of, run_command,
}
use cpp_programming.TcpPeer.Rounds.{receive, print_received, take_input}

-- Whether the writing is shut down behind these texts, the last one first, and what of them is to
-- be sent: those that are no commands, up to the first one that shuts the writing down.
abbrev shut_by : Command → Bool → Bool
shut_by exit_loop before = before
shut_by stop_read before = before
shut_by stop_write before = true
shut_by stop_both before = true
shut_by unwritten before = before
shut_by plain before = before

unfoldable pub shut : Bool → List Text → Bool
unfolding command_of
shut b [] = b
shut b (r ∷ rs) = shut_by (command_of r) (shut b rs)

abbrev taken_by : Command → Bool → Text → Text → Text
taken_by exit_loop down before r = before
taken_by stop_read down before r = before
taken_by stop_write down before r = before
taken_by stop_both down before r = before
taken_by unwritten down before r = before
taken_by plain down before r = if down then before else before ++ r

unfoldable pub taken : Bool → List Text → Text
unfolding command_of shut
taken b [] = []
taken b (r ∷ rs) = taken_by (command_of r) (shut b rs) (taken b rs) r

-- What was sent and what is still to be sent are what was to be sent.
pub record Books (b : Bool) (p : Peer) : Type 0 where
  pub all_there : p.sent ++ p.w ≡ taken b p.typed
  pub is_shut : p.write_shutdown ≡ shut b p.typed

-- What a call leaves of this.
abbrev pub Same : Peer → Peer → Type 0
Same p q =
    (q.w ≡ p.w) × (q.write_shutdown ≡ p.write_shutdown) × (q.sent ≡ p.sent) × (q.typed ≡ p.typed)

pub Same-Books : (b : Bool) (p q : Peer) → Same p q → Books b p → Books b q
Same-Books b p q s h = record {
  all_there = rw (s.0, s.2, s.3) h.all_there;
  is_shut = rw (s.1, s.3) h.is_shut;
}

shutdown-Same : (p : Peer) → Gives (λ _. Same p) (shutdown p)
unfolding shutdown
shutdown-Same p = go p.shutdowns
  where
    go : (a : List (Option ℕ)) → Gives (λ _. Same p) (shutdown_answer a p)
    go [] = (refl, refl, refl, refl)
    go (none ∷ a) = (refl, refl, refl, refl)
    go (some code ∷ a) = tt

-- A shutdown with its message.
pub printed-Same : (s : Text) (p : Peer) → Gives (λ _. Same p) ((do print s; shutdown) p)
printed-Same s p = shutdown-Same (record p { printed = p.printed ++ s })

read-Same : (p : Peer) → Gives (λ _. Same p) (read p)
unfolding read
read-Same p = go (read_loop p.reads [])
  where
    go : (r : Result Received) → Gives (λ _. Same p) (keep_read p r)
    go (ok r) = (refl, refl, refl, refl)
    go (err e) = tt

print_received-Same : (r : Received) (p : Peer) → Gives (λ _. Same p) (print_received r p)
print_received-Same r p = ground arith

pub receive-Same : (b before : Bool) (p : Peer) → Gives (λ _. Same p) (receive b before p)
unfolding receive
receive-Same false before p = (refl, refl, refl, refl)
receive-Same true before p =
    Gives-bind (λ _. Same p) (read p) _
      (λ r q e.
        let a : Same p q = subst (Gives (λ _. Same p)) e (read-Same p) in
        Gives-bind (λ _. Same p) (print_received r q) _
          (λ u t f.
            let c : Same q t = subst (Gives (λ _. Same q)) f (print_received-Same r q) in
            (c.0 ∙ a.0, c.1 ∙ a.1, c.2 ∙ a.2, c.3 ∙ a.3)))

-- The books behind a text that was typed, for what is left of the rest.
typed-Books :
    (b : Bool) (r : Text) (c : Command) (p q : Peer)
    → command_of r ≡ c
    → q.typed ≡ r ∷ p.typed
    → q.sent ++ q.w ≡ taken_by c (shut b p.typed) (taken b p.typed) r
    → q.write_shutdown ≡ shut_by c (shut b p.typed)
    → Books b q
unfolding taken shut
typed-Books b r c p q e t a s = record {
  all_there =
      a ∙ ap (λ k. taken_by k (shut b p.typed) (taken b p.typed) r) (sym e) ∙ ap (taken b) (sym t);
  is_shut = s ∙ ap (λ k. shut_by k (shut b p.typed)) (sym e) ∙ ap (shut b) (sym t);
}

-- The state behind the read of a text.
abbrev heard : Text → List SysRead → Peer → Peer
heard r left p = record p { inputs = left; typed = r ∷ p.typed }

shutting-Books :
    (b down : Bool) (r s : Text) (c : Command) (p : Peer) (left : List SysRead)
    → command_of r ≡ c
    → Books b p
    → taken_by c (shut b p.typed) (taken b p.typed) r ≡ taken b p.typed
    → shut_by c (shut b p.typed) ≡ (if down then true else shut b p.typed)
    → Gives
        (λ _. Books b)
        ((do print s; shutdown; (if down then set_write_shutdown else give tt); give true)
          (heard r left p))
shutting-Books b down r s c p left e h t u =
    Gives-bind (λ _. Books b) (shutdown (record (heard r left p) { printed = p.printed ++ s })) _
      (λ _ q f.
        let a : Same (heard r left p) q =
          subst (Gives (λ _. Same (heard r left p))) f (printed-Same s (heard r left p)) in
        go down q a u)
  where
    go :
        (d : Bool) (q : Peer)
        → Same (heard r left p) q
        → shut_by c (shut b p.typed) ≡ (if d then true else shut b p.typed)
        → Gives
            (λ _. Books b)
            (and_then ((if d then set_write_shutdown else give tt) q) (λ _. give true))
    go true q a v =
        typed-Books b r c p (record q { write_shutdown = true }) e a.3
          (rw (a.0, a.2) (h.all_there ∙ sym t)) (sym v)
    go false q a v =
        typed-Books b r c p q e a.3 (rw (a.0, a.2) (h.all_there ∙ sym t)) (a.1 ∙ h.is_shut ∙ sym v)

command-Books :
    (b : Bool) (r : Text) (c : Command) (p : Peer) (left : List SysRead)
    → command_of r ≡ c
    → Books b p
    → Gives (λ _. Books b) (run_command c r (heard r left p))
unfolding run_command shutdown_read shutdown_write shutdown_both
command-Books b r exit_loop p left e h =
    typed-Books b r exit_loop p (heard r left p) e refl h.all_there h.is_shut
command-Books b r stop_read p left e h =
    shutting-Books b false r (codes "SHUT_RD\n") stop_read p left e h refl refl
command-Books b r stop_write p left e h =
    shutting-Books b true r (codes "SHUT_WR\n") stop_write p left e h refl refl
command-Books b r stop_both p left e h =
    shutting-Books b true r (codes "SHUT_RDWR\n") stop_both p left e h refl refl
command-Books b r unwritten p left e h = typed-Books b r unwritten p _ e refl h.all_there h.is_shut
command-Books b r plain p left e h = go p.write_shutdown refl
  where
    go :
        (d : Bool)
        → p.write_shutdown ≡ d
        → Gives
            (λ _. Books b)
            (and_then
              ((if d then print (codes "write is shutdown\n") else append_w r) (heard r left p))
              (λ _. give true))
    go true q =
        let down : shut b p.typed ≡ true = sym h.is_shut ∙ q in
        typed-Books b r plain p _ e refl (rw down h.all_there) h.is_shut
    go false q =
        let up : shut b p.typed ≡ false = sym h.is_shut ∙ q in
        typed-Books b r plain p _ e refl
          (rw up (sym (append_assoc p.sent p.w r) ∙ ap (λ t. t ++ r) h.all_there)) h.is_shut

pub take_input-Books : (b on : Bool) (p : Peer) → Books b p → Gives (λ _. Books b) (take_input on p)
unfolding take_input read_input
take_input-Books b false p h = h
take_input-Books b true p h = go (read_loop p.inputs [])
  where
    go :
        (r : Result Received)
        → Gives (λ _. Books b) (and_then (keep_input p r) (λ s. run_command (command_of s) s))
    go (ok r) = command-Books b r.text (command_of r.text) p r.left refl h
    go (err e) = tt
