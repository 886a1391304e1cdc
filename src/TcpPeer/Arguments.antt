-- ===== src/TcpPeer/Arguments.antt =====
-- The command line for some options.
use cpp_programming.Base.{
  ℕ, ◌^◌, ◌<◌, ◌≡◌, refl, ap, ◌∙◌, true, ◌&&◌, if◌then◌else◌, runtime_error, none, some, List, [],
  ◌∷◌, ◌++◌, All, ok, err,
}
use cpp_programming.Text.{Text, pos, to_string}
use cpp_programming.Text.Literals.{codes}
use cpp_programming.Text.Numbers.{stoi-to_string}
use cpp_programming.TcpPeer.CommandLine.{
  Config, flag_of, Operands, on_flag, set_src, set_dst, then_set, set_loop, check_conflict, set,
}

-- An option of the usage text.
pub data Opt : Type 0 where
  opt_listen opt_accept opt_read opt_write : Opt
  opt_bind opt_connect : Text → ℕ → Opt

-- How it is written, with any text behind the letter.
abbrev pub words : Text → Opt → List Text
words t opt_listen = (codes "-l" ++ t) ∷ []
words t opt_accept = (codes "-a" ++ t) ∷ []
words t opt_read = (codes "-r" ++ t) ∷ []
words t opt_write = (codes "-w" ++ t) ∷ []
words t (opt_bind addr port) = (codes "-b" ++ t) ∷ addr ∷ to_string port ∷ []
words t (opt_connect addr port) = (codes "-c" ++ t) ∷ addr ∷ to_string port ∷ []

unfoldable pub render : List (Text × Opt) → List Text
render [] = []
render ((t, o) ∷ os) = words t o ++ render os

abbrev pub apply : Opt → Config → Config
apply opt_listen c = record c { listen = true }
apply opt_accept c = record c { accept = true }
apply opt_read c = record c { read = true }
apply opt_write c = record c { write = true }
apply (opt_bind addr port) c = record c { src_addr = addr; src_port = pos port; bind = true }
apply (opt_connect addr port) c = record c { dst_addr = addr; dst_port = pos port; connect = true }

unfoldable pub apply_all : List (Text × Opt) → Config → Config
apply_all [] c = c
apply_all ((t, o) ∷ os) c = apply_all os (apply o c)

-- The port fits an `int`.
abbrev pub Fits : Text × Opt → Type 0
Fits (t, opt_listen) = Unit
Fits (t, opt_accept) = Unit
Fits (t, opt_read) = Unit
Fits (t, opt_write) = Unit
Fits (t, opt_bind addr port) = port < 2 ^ 31
Fits (t, opt_connect addr port) = port < 2 ^ 31

set_loop-cons :
    (x : Text) (rest : List Text) (c : Config)
    → (o : Operands) × (set_loop (x ∷ rest) c ≡ on_flag (flag_of x) c (set_loop rest) o)
unfolding set_loop
set_loop-cons x [] c = (none, refl)
set_loop-cons x (addr ∷ []) c = (none, refl)
set_loop-cons x (addr ∷ port ∷ more) c = (some (addr, port, set_loop more), refl)

set_loop-render :
    (os : List (Text × Opt)) (c : Config)
    → All Fits os
    → set_loop (render os) c ≡ ok (apply_all os c)
unfolding set_loop flag_of render apply_all
set_loop-render [] c h = refl
set_loop-render ((t, opt_listen) ∷ os) c h =
    (set_loop-cons (codes "-l" ++ t) (render os) c).1 ∙ set_loop-render os (apply opt_listen c) h.1
set_loop-render ((t, opt_accept) ∷ os) c h =
    (set_loop-cons (codes "-a" ++ t) (render os) c).1 ∙ set_loop-render os (apply opt_accept c) h.1
set_loop-render ((t, opt_read) ∷ os) c h =
    (set_loop-cons (codes "-r" ++ t) (render os) c).1 ∙ set_loop-render os (apply opt_read c) h.1
set_loop-render ((t, opt_write) ∷ os) c h =
    (set_loop-cons (codes "-w" ++ t) (render os) c).1 ∙ set_loop-render os (apply opt_write c) h.1
set_loop-render ((t, opt_bind addr port) ∷ os) c h =
    ap (λ r. then_set (set_src addr c r) (set_loop (render os))) (stoi-to_string port h.0)
    ∙ set_loop-render os (apply (opt_bind addr port) c) h.1
set_loop-render ((t, opt_connect addr port) ∷ os) c h =
    ap (λ r. then_set (set_dst addr c r) (set_loop (render os))) (stoi-to_string port h.0)
    ∙ set_loop-render os (apply (opt_connect addr port) c) h.1

-- Options written one behind the other, each with any text behind its letter, and each port below
-- 2^31 in decimal, set what they ask for, in their order; `set` then throws exactly if both -a and
-- -c were among them.
pub set-render :
    (os : List (Text × Opt)) (c : Config)
    → All Fits os
    → set (render os) c ≡ (
        if (apply_all os c).accept && (apply_all os c).connect
        then err runtime_error
        else ok (apply_all os c))
unfolding set
set-render os c h = ap (λ r. then_set r check_conflict) (set_loop-render os c h)
