-- ===== src/LearnGrpc/Handlers/Classes.antt =====
-- The classes of handlers react to the events that they wait for as Reactions says.
use cpp_programming.Base.{
  ℕ, ◌≡◌, refl, inl, inr, Bool, true, false, List, [], ◌∷◌, ◌++◌, arith, ◌==◌, if◌then◌else◌,
  ==_iff, Bool-cases,
}
use cpp_programming.Base.Actions.{give, ◌>>◌}
use cpp_programming.Base.Actions.{Gives, Gives-if}
use cpp_programming.Text.{Text}
use cpp_programming.Text.Literals.{codes}
use cpp_programming.LearnGrpc.Event.{Event, get_opt, set_opt}
use cpp_programming.LearnGrpc.Handlers.{
  opt_finish, opt_write, opt_read, Kind, hello, hello_again, goodbye, goodbye_again, greet, listen,
  speak, talk, Handler, ok_status, cancelled, Operation, request_call, write, read, finish_with,
  finish_call, Proactor, post, finished, process_unary, greeting, hello_process,
  hello_again_process, goodbye_process, goodbye_again_process, greet_process, write_front,
  write_or_finish, listen_process, speak_process, talk_process, process,
}
use cpp_programming.LearnGrpc.Handlers.Reactions.{
  writes, reads, answers, expected, waits_for, Reacts, Ends-set_opt, Concludes, received, continued,
  posts, ends, not_receive, finishes,
}

-- The options under which handlers of a kind wait.
unary_opt :
    (k : Kind) (op : Operation) (o : ℕ)
    → expected k op o ≡ true
    → answers k ≡ true
    → reads k ≡ false
    → (o == 1) ≡ false
    → (o == 2) ≡ true
unary_opt k (request_call j) o e a r n = ground arith
unary_opt k (write t) o e a r n = ground arith
unary_opt k read o e a r n = ground arith
unary_opt k (finish_with t x) o e a r n = ground arith
unary_opt k (finish_call ok_status) o e a r n = ground arith
unary_opt talk (finish_call cancelled) o e a r n = cc
unary_opt hello (finish_call cancelled) o e a r n = ground arith
unary_opt hello_again (finish_call cancelled) o e a r n = ground arith
unary_opt goodbye (finish_call cancelled) o e a r n = ground arith
unary_opt goodbye_again (finish_call cancelled) o e a r n = ground arith
unary_opt greet (finish_call cancelled) o e a r n = ground arith
unary_opt listen (finish_call cancelled) o e a r n = ground arith
unary_opt speak (finish_call cancelled) o e a r n = ground arith

listen_opt :
    (op : Operation) (o : ℕ)
    → expected listen op o ≡ true
    → (o == 1) ≡ false
    → (o == 3) ≡ false
    → (o == 2) ≡ true
listen_opt (request_call j) o e n m = ground arith
listen_opt (write t) o e n m = ground arith
listen_opt read o e n m = ground arith
listen_opt (finish_with t x) o e n m = ground arith
listen_opt (finish_call ok_status) o e n m = ground arith
listen_opt (finish_call cancelled) o e n m = ground arith

speak_opt :
    (op : Operation) (o : ℕ)
    → expected speak op o ≡ true
    → (o == 1) ≡ false
    → (o == 4) ≡ false
    → (o == 2) ≡ true
speak_opt (request_call j) o e n m = ground arith
speak_opt (write t) o e n m = ground arith
speak_opt read o e n m = ground arith
speak_opt (finish_with t x) o e n m = ground arith
speak_opt (finish_call ok_status) o e n m = ground arith
speak_opt (finish_call cancelled) o e n m = ground arith

module _ (event : Event) (h : Handler) (s : Proactor) (waiting : h.finish ≡ false) where
  unary-Reacts :
      (k : Kind) (response : Text) (is_ok : Bool) (op : Operation)
      → expected k op (get_opt event) ≡ true
      → h.kind ≡ k
      → answers k ≡ true
      → reads k ≡ false
      → Gives (Reacts event h s) (process_unary k response is_ok event h s)
  unfolding process_unary
  unary-Reacts k response true op fits e a r = elim (Bool-cases (get_opt event == 1)) [
    | inl o ↦ rw o (
        received event h s k _ e ((==_iff (get_opt event) 1).0 o) (λ t.
          posts event h waiting 2 (finish_with response ok_status) t (omega arith) (rw e a) refl))
    | inr o ↦
        rw (o, unary_opt k op (get_opt event) fits a r o)
          (finishes event h s waiting (not_receive (get_opt event) o))
  ]
  unary-Reacts k response false op fits e a r = elim (Bool-cases (get_opt event == 1)) [
    | inl o ↦
        rw o
          (received event h s k _ e ((==_iff (get_opt event) 1).0 o) (λ t. ends event h waiting t))
    | inr o ↦
        rw (o, unary_opt k op (get_opt event) fits a r o)
          (finishes event h s waiting (not_receive (get_opt event) o))
  ]

  -- The queue of responses grows; its front is written.
  write_front-append :
      (k : Kind) (ts : List Text) (u : Text) (us : List Text) (t : Proactor)
      → h.kind ≡ k
      → writes k ≡ true
      → Gives (Concludes event h t) (write_front event h (ts ++ u ∷ us) t)
  write_front-append k [] u us t e w = (
    Ends-set_opt event 3 (write u) (record h { responses = us }) t waiting (omega arith) (rw e w)
        refl,
    refl,
  )
  write_front-append k (v ∷ ts) u us t e w = (
    Ends-set_opt event 3 (write v) (record h { responses = ts ++ u ∷ us }) t waiting (omega arith)
        (rw e w) refl,
    refl,
  )

  write_or_finish-Concludes :
      (ts : List Text)
      → h.kind ≡ listen
      → Gives (Concludes event h s) (write_or_finish event h ts s)
  write_or_finish-Concludes [] e =
      posts event h waiting 2 (finish_call ok_status) s (omega arith) (rw e refl) refl
  write_or_finish-Concludes (t ∷ ts) e = write_front-append listen [] t ts s e refl

  listen-Reacts :
      (is_ok : Bool) (op : Operation)
      → expected listen op (get_opt event) ≡ true
      → h.kind ≡ listen
      → Gives (Reacts event h s) (listen_process is_ok event h s)
  unfolding listen_process
  listen-Reacts is_ok op fits e = elim (Bool-cases (get_opt event == 1)) [
    | inl o ↦ rw o (
        received event h s listen _ e ((==_iff (get_opt event) 1).0 o) (λ t.
          Gives-if (Concludes event h t) is_ok _ _ t
            (write_front-append listen h.responses (codes "aaa") (codes "bbb" ∷ codes "ccc" ∷ []) t
              e refl)
            (ends event h waiting t)))
    | inr o ↦ elim (Bool-cases (get_opt event == 3)) [
      | inl w ↦
          rw (o, w)
            (continued event h s
              ((if is_ok then write_or_finish event h h.responses else give (finished h)) s)
              (not_receive (get_opt event) o)
              (Gives-if (Concludes event h s) is_ok _ _ s (write_or_finish-Concludes h.responses e)
                (ends event h waiting s)))
      | inr w ↦
          rw (o, w, listen_opt op (get_opt event) fits o w)
            (finishes event h s waiting (not_receive (get_opt event) o))
    ]
  ]

  speak-Reacts :
      (is_ok : Bool) (op : Operation)
      → expected speak op (get_opt event) ≡ true
      → h.kind ≡ speak
      → Gives (Reacts event h s) (speak_process is_ok event h s)
  unfolding speak_process
  speak-Reacts is_ok op fits e = elim (Bool-cases (get_opt event == 1)) [
    | inl o ↦ rw o (
        received event h s speak _ e ((==_iff (get_opt event) 1).0 o) (λ t.
          Gives-if (Concludes event h t) is_ok _ _ t
            (posts event h waiting 4 read t (omega arith) (rw e refl) refl)
            (ends event h waiting t)))
    | inr o ↦ elim (Bool-cases (get_opt event == 4)) [
      | inl w ↦
          rw (o, w)
            (continued event h s
              ((if is_ok then (do post read event; give h) else (do
                post (finish_with (codes "OK.") ok_status) (set_opt opt_finish event)
                give h))
                s)
              (not_receive (get_opt event) o)
              (Gives-if (Concludes event h s) is_ok _ _ s
                ((
                  waits_for (record { token = event; operation = read }) waiting refl
                      (rw (e, w) refl) refl,
                  refl,
                ))
                (posts event h waiting 2 (finish_with (codes "OK.") ok_status) s (omega arith)
                  (rw e refl) refl)))
      | inr w ↦
          rw (o, w, speak_opt op (get_opt event) fits o w)
            (finishes event h s waiting (not_receive (get_opt event) o))
    ]
  ]

  talk-Reacts :
      (is_ok : Bool) → h.kind ≡ talk → Gives (Reacts event h s) (talk_process is_ok event h s)
  unfolding talk_process
  talk-Reacts is_ok e = elim (Bool-cases (get_opt event == 1)) [
    | inl o ↦ rw o (
        received event h s talk _ e ((==_iff (get_opt event) 1).0 o) (λ t.
          Gives-if (Concludes event h t) is_ok _ _ t
            (posts event h waiting 4 read t (omega arith) (rw e refl) refl)
            (ends event h waiting t)))
    | inr o ↦ elim (Bool-cases (get_opt event == 4)) [
      | inl w ↦
          rw (o, w)
            (continued event h s
              ((if is_ok
                  then (do post (write h.request.content) (set_opt opt_write event); give h)
                  else (do post (finish_call ok_status) (set_opt opt_finish event); give h))
                s)
              (not_receive (get_opt event) o)
              (Gives-if (Concludes event h s) is_ok _ _ s
                (posts event h waiting 3 (write h.request.content) s (omega arith) (rw e refl) refl)
                (posts event h waiting 2 (finish_call ok_status) s (omega arith) (rw e refl) refl)))
      | inr w ↦ elim (Bool-cases (get_opt event == 3)) [
        | inl v ↦
            rw (o, w, v)
              (continued event h s
                ((if is_ok
                    then (do post read (set_opt opt_read event); give h)
                    else (do post (finish_call cancelled) event; give h))
                  s)
                (not_receive (get_opt event) o)
                (Gives-if (Concludes event h s) is_ok _ _ s
                  (posts event h waiting 4 read s (omega arith) (rw e refl) refl)
                  ((
                    waits_for (record { token = event; operation = finish_call cancelled }) waiting
                        refl (rw (e, v) refl) refl,
                    refl,
                  ))))
        | inr v ↦ elim (Bool-cases (get_opt event == 2)) [
          | inl u ↦ rw (o, w, v, u) (finishes event h s waiting (not_receive (get_opt event) o))
          | inr u ↦ rw (o, w, v, u) (finishes event h s waiting (not_receive (get_opt event) o))
        ]
      ]
    ]
  ]

  -- Whatever the event, a handler that waits for it reacts as said, if no key is wanting.
  pub process-Reacts :
      (k : Kind) (is_ok : Bool) (op : Operation)
      → h.kind ≡ k
      → expected k op (get_opt event) ≡ true
      → Gives (Reacts event h s) (process k is_ok event h s)
  unfolding process hello_process hello_again_process goodbye_process goodbye_again_process
      greet_process
  process-Reacts hello b op e f =
      unary-Reacts hello (greeting (codes "Hello, ") h.request) b op f e refl refl
  process-Reacts hello_again b op e f =
      unary-Reacts hello_again (greeting (codes "Hello, ") h.request) b op f e refl refl
  process-Reacts goodbye b op e f =
      unary-Reacts goodbye (greeting (codes "Goodbye, ") h.request) b op f e refl refl
  process-Reacts goodbye_again b op e f =
      unary-Reacts goodbye_again (greeting (codes "Goodbye, ") h.request) b op f e refl refl
  process-Reacts greet b op e f = unary-Reacts greet (codes "Me too!") b op f e refl refl
  process-Reacts listen b op e f = listen-Reacts b op f e
  process-Reacts speak b op e f = speak-Reacts b op f e
  process-Reacts talk b op e f = talk-Reacts b e
