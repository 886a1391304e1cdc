-- ===== src/IocpServer/Completions.antt =====
-- What the end of an operation does to its context, and what is then still to be sent back.
use cpp_programming.Base.{
  ℕ, zero, suc, ◌+◌, ◌-◌, ◌%◌, ◌^◌, ◌≤◌, ◌<◌, ◌≡◌, refl, sym, ap, ◌∙◌, subst, ◌≢◌, inl, inr, false,
  Option, none, some, [], ◌∷◌, ◌++◌, append-nil, append_assoc, arith, ltb, ◌==◌, if◌then◌else◌,
  Bool-cases, length, take, drop,
}
use cpp_programming.Base.Actions.{Reply, gives, give, ◌>>◌}
use cpp_programming.Base.Maps.{lookup}
use cpp_programming.Text.{Text}
use cpp_programming.IocpServer.Contexts.{
  option_send, option_recv, ClientContext, is_recv, is_send, Operation, sending, receiving, Port,
  store, remove_client_context, get_client_context,
}
use cpp_programming.IocpServer.Port.{
  posted, process, packet, on_context, recv_completed, send_completed, send_next,
}
use cpp_programming.IocpServer.Steps.{slice}
use cpp_programming.IocpServer.Slices.{slice_split, take_all}
use cpp_programming.IocpServer.Lines.{Sets, Sets_key, posted-Sets, remove-Sets}

pub record IsValid (id : ℕ) (c : ClientContext) : Type 0 where
  pub has_id : c.id ≡ id
  pub no_wake : id ≢ 1
  pub small : id < 2 ^ 32
  pub full : length c.buffer ≡ 4096

-- The operation is the one that the context expects, and stays within the buffer.
abbrev pub Expects : ClientContext → Operation → Type 0
Expects c (sending off len) =
    (c.last_option ≡ option_send)
    × (off ≡ c.number_of_bytes_sent)
    × (c.number_of_bytes_sent + len ≡ c.number_of_bytes_to_send)
    × (c.number_of_bytes_to_send ≤ 4096)
    × (1 ≤ len)
Expects c (receiving off len) = (c.last_option ≡ option_recv) × (off ≡ 0) × (len ≡ 4096)

-- What of the buffer is still to be sent.
abbrev pub unsent : ClientContext → Operation → Text
unsent c (sending off len) = slice off len c
unsent c (receiving off len) = []

abbrev pub Begins : Text → Text → Type 0
Begins e h = (rest : Text) × (e ++ rest ≡ h)

-- The context and the operation of a key, by what its client sent and what it got back.
abbrev pub Line : ℕ → Text → Text → Option ClientContext → Option Operation → Type 0
Line id h e none none = Begins e h
Line id h e none (some op) = ⊥
Line id h e (some c) none = IsValid id c × Begins e h
Line id h e (some c) (some op) = IsValid id c × Expects c op × (e ++ unsent c op ≡ h)

pub Line-Begins :
    (id : ℕ) (h e : Text) (c : Option ClientContext) (op : Option Operation)
    → Line id h e c op
    → Begins e h
Line-Begins id h e none none l = l
Line-Begins id h e none (some op) l = absurd l
Line-Begins id h e (some c) none l = l.1
Line-Begins id h e (some c) (some op) l = (unsent c op, l.2)

-- A call returns, and its key is as such a line says.
abbrev pub Turns : ℕ → Text → Text → Port → Reply Port (Unit {0}) → Type 0
Turns id h e s r =
    (t : Port) × (r ≡ gives tt t)
    × (c : Option ClientContext) × (op : Option Operation) × Sets id c op s t
    × Line id h e c op

pub posted-Turns :
    (id : ℕ) (h e : Text) (c : ClientContext) (op : Operation) (answer : Option ℕ) (s : Port)
    → lookup id s.pending ≡ none
    → Line id h e (some c) (some op)
    → Turns id h e s ((do store c; posted c.id op answer) s)
posted-Turns id h e c op answer s p l =
    let k = (l.0).has_id in
    let (t, r, a) = posted-Sets c op answer s (ap (λ i. lookup i s.pending) k ∙ p) in
    elim a [
      | inl b ↦ (t, r, some c, some op, Sets_key c.id id (some c) (some op) s t k b, l)
      | inr b ↦ (t, r, none, none, Sets_key c.id id none none s t k b, (unsent c op, l.2))
    ]

remove-Turns :
    (id : ℕ) (h e : Text) (c : ClientContext) (s : Port)
    → lookup id s.contexts ≡ some c
    → lookup id s.pending ≡ none
    → Begins e h
    → Turns id h e s (remove_client_context id s)
remove-Turns id h e c s m p b = let (t, r, a) = remove-Sets id c s m p in (t, r, none, none, a, b)

process_empty :
    (id : ℕ) (answer : Option ℕ) (s : Port)
    → id ≢ 1
    → process (packet id 0) answer s ≡ remove_client_context id s
unfolding process
process_empty id answer s n = let e : (id == 1) ≡ false = ground (arith, n) in rw (process, e) refl

process_found :
    (id n : ℕ) (answer : Option ℕ) (c : ClientContext) (s : Port)
    → id ≢ 1
    → n ≢ 0
    → lookup id s.contexts ≡ some c
    → process (packet id n) answer s ≡ on_context n answer (some c) s
unfolding process get_client_context
process_found id n answer c s a b m =
    let e : (id == 1) ≡ false = ground (arith, a) in
    let f : (n == 0) ≡ false = ground (arith, b) in rw (process, e, f, m) refl

on_context_recv :
    (n : ℕ) (answer : Option ℕ) (c : ClientContext) (s : Port)
    → c.last_option ≡ option_recv
    → on_context n answer (some c) s ≡ recv_completed n answer c s
unfolding on_context
on_context_recv n answer c s e =
    ap
      (λ o.
        (if is_recv o
            then recv_completed n answer c
            else if is_send o
            then send_completed n answer c
            else give tt)
          s)
      e

on_context_send :
    (n : ℕ) (answer : Option ℕ) (c : ClientContext) (s : Port)
    → c.last_option ≡ option_send
    → on_context n answer (some c) s ≡ send_next ((c.number_of_bytes_sent + n) % 2 ^ 32) answer c s
unfolding on_context send_completed
on_context_send n answer c s e =
    ap
      (λ o.
        (if is_recv o
            then recv_completed n answer c
            else if is_send o
            then send_completed n answer c
            else give tt)
          s)
      e

-- The bytes that have come are posted to be sent back.
pub process_arrived :
    (id : ℕ) (h e bytes : Text) (c : ClientContext) (answer : Option ℕ) (s : Port)
    → IsValid id c
    → c.last_option ≡ option_recv
    → lookup id s.contexts ≡ some c
    → lookup id s.pending ≡ none
    → length bytes ≤ 4096
    → take (length bytes) c.buffer ≡ bytes
    → e ≡ h
    → Turns id (h ++ bytes) e s (process (packet id (length bytes)) answer s)
unfolding recv_completed
process_arrived id h e [] c answer s v o m p b f g =
    subst (Turns id (h ++ []) e s) (sym (process_empty id answer s v.no_wake))
      (remove-Turns id (h ++ []) e c s m p ([], ap (λ t. t ++ []) g))
process_arrived id h e (x ∷ bytes) c answer s v o m p b f g =
    let all = x ∷ bytes in
    let n = length all in
    subst (Turns id (h ++ all) e s)
      (sym
        (process_found id n answer c s v.no_wake (omega arith) m ∙ on_context_recv n answer c s o))
      (posted-Turns id (h ++ all) e
        (record c {
          last_option = option_send;
          number_of_bytes_to_send = n;
          number_of_bytes_sent = 0;
          wsa_len = n;
        })
        (sending 0 n) answer s p
        (
          record { has_id = v.has_id; no_wake = v.no_wake; small = v.small; full = v.full },
          (refl, refl, omega arith, b, omega arith),
          ap (λ t. e ++ t) f ∙ ap (λ t. t ++ all) g,
        ))

-- The rest of the bytes is posted, or the next receive.
send_next-Turns :
    (id off n len : ℕ) (h e : Text) (c : ClientContext) (answer : Option ℕ) (s : Port)
    → IsValid id c
    → Expects c (sending off len)
    → lookup id s.pending ≡ none
    → n ≤ len
    → 1 ≤ n
    → e ++ slice off len c ≡ h
    → Turns id h
        (e ++ take n (slice off len c))
        s
        (send_next (c.number_of_bytes_sent + n) answer c s)
unfolding send_next
send_next-Turns id off n len h e c answer s v x p b o g =
    let sent = c.number_of_bytes_sent + n in
    let m = c.number_of_bytes_to_send - sent in
    let e' = e ++ take n (slice off len c) in
    elim (Bool-cases (ltb sent c.number_of_bytes_to_send)) [
      | inl l ↦
          let less : sent < c.number_of_bytes_to_send = ground (arith, l) in
          let w = record c { last_option = option_send; number_of_bytes_sent = sent } in
          rw l (
            posted-Turns id h e' w (sending sent m) answer s p (
              record { has_id = v.has_id; no_wake = v.no_wake; small = v.small; full = v.full },
              (refl, refl, omega (arith, less), x.3, omega (arith, less)),
              append_assoc e _ _
                  ∙ ap (λ t. e ++ t)
                      (subst (λ k. take n (slice k len c) ++ slice sent m c ≡ slice k len c)
                        (sym x.1)
                        (slice_split c.number_of_bytes_sent n m len c.buffer
                          (omega (arith, x.2, b, less))))
                  ∙ g,
            ))
      | inr l ↦
          let most : c.number_of_bytes_to_send ≤ sent = ground (arith, l) in
          let same : n ≡ len = omega (arith, x.2, b, most) in
          let w = record c { last_option = option_recv; number_of_bytes_sent = sent } in
          rw l (
            posted-Turns id h e' w (receiving 0 (length c.buffer)) answer s p (
              record { has_id = v.has_id; no_wake = v.no_wake; small = v.small; full = v.full },
              (refl, refl, v.full),
              append-nil e'
                  ∙ ap (λ k. e ++ take k (slice off len c)) same
                  ∙ ap (λ t. e ++ t) (take_all len (drop off c.buffer))
                  ∙ g,
            ))
    ]

-- Some of the bytes have been sent.
pub process_departed :
    (id off n len : ℕ) (h e : Text) (c : ClientContext) (answer : Option ℕ) (s : Port)
    → IsValid id c
    → Expects c (sending off len)
    → lookup id s.contexts ≡ some c
    → lookup id s.pending ≡ none
    → n ≤ len
    → e ++ slice off len c ≡ h
    → Turns id h (e ++ take n (slice off len c)) s (process (packet id n) answer s)
process_departed id off zero len h e c answer s v x m p b g =
    subst (Turns id h (e ++ []) s) (sym (process_empty id answer s v.no_wake)) (
      remove-Turns id h (e ++ []) c s m p
        (slice off len c, ap (λ t. t ++ slice off len c) (append-nil e) ∙ g))
process_departed id off (suc n) len h e c answer s v x m p b g =
    let sent = c.number_of_bytes_sent in
    let small : (sent + suc n) % 2 ^ 32 ≡ sent + suc n = omega (arith, x.2, x.3, b) in
    subst (Turns id h (e ++ take (suc n) (slice off len c)) s)
      (sym (
        process_found id (suc n) answer c s v.no_wake (omega arith) m
        ∙ on_context_send (suc n) answer c s x.0
        ∙ ap (λ k. send_next k answer c s) small))
      (send_next-Turns id off (suc n) len h e c answer s v x p b (omega arith) g)
