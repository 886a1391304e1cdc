-- ===== src/TcpPeer/CommandLine.antt =====
-- The class Config: what the arguments of the command line set.
use cpp_programming.Base.{
  ℕ, Bool, true, false, ◌&&◌, Option, none, some, List, [], ◌∷◌, ◌==◌, if◌then◌else◌, runtime_error,
  undefined, exit_status, Result, ok, err,
}
use cpp_programming.Text.{Text, ℤ, pos, stoi}
use cpp_programming.Text.Literals.{codes}

pub record Config : Type 0 where
  pub dst_addr : Text
  pub dst_port : ℤ
  pub src_addr : Text
  pub src_port : ℤ
  pub listen : Bool
  pub accept : Bool
  pub connect : Bool
  pub bind : Bool
  pub read : Bool
  pub write : Bool

-- Config::Config.
unfoldable pub new_config : Config
new_config = record {
  dst_addr = codes "127.0.0.1";
  dst_port = pos 10001;
  src_addr = codes "0.0.0.0";
  src_port = pos 10000;
  listen = false;
  accept = false;
  connect = false;
  bind = false;
  read = false;
  write = false;
}

pub data Flag : Type 0 where
  flag_h flag_r flag_w flag_l flag_a flag_b flag_c flag_other : Flag

-- The tests of the first two bytes of an argument, the second of which may be the NUL at its end.
abbrev pub flag_bytes : ℕ → ℕ → Flag
flag_bytes a b =
    if a == 45
    then (if b == 104
        then flag_h
        else if b == 114
        then flag_r
        else if b == 119
        then flag_w
        else if b == 108
        then flag_l
        else if b == 97
        then flag_a
        else if b == 98
        then flag_b
        else if b == 99
        then flag_c
        else flag_other)
    else flag_other

-- `none`: the argument is empty, and the second byte lies behind it.
unfoldable pub flag_of : Text → Option Flag
flag_of [] = none
flag_of (a ∷ []) = some (flag_bytes a 0)
flag_of (a ∷ b ∷ s) = some (flag_bytes a b)

abbrev pub set_src : Text → Config → Result ℤ → Result Config
set_src addr c (ok port) = ok (record c { src_addr = addr; src_port = port; bind = true })
set_src addr c (err e) = err e

abbrev pub set_dst : Text → Config → Result ℤ → Result Config
set_dst addr c (ok port) = ok (record c { dst_addr = addr; dst_port = port; connect = true })
set_dst addr c (err e) = err e

abbrev pub then_set : Result Config → (Config → Result Config) → Result Config
then_set (ok c) f = f c
then_set (err e) f = err e

-- The two arguments behind one, with what is done for those after them; `none`: there are fewer.
abbrev pub Operands : Type 0
Operands = Option (Text × Text × (Config → Result Config))

abbrev pub with_operands :
    (Text → Config → Result ℤ → Result Config) → Config → Operands → Result Config
with_operands f c none = err runtime_error
with_operands f c (some (addr, port, more)) = then_set (f addr c (stoi port)) more

-- The branches of the loop, with what is done for the arguments behind the flag.
abbrev pub on_flag : Option Flag → Config → (Config → Result Config) → Operands → Result Config
on_flag none c rest operands = err undefined
on_flag (some flag_h) c rest operands = err (exit_status 0)
on_flag (some flag_r) c rest operands = rest (record c { read = true })
on_flag (some flag_w) c rest operands = rest (record c { write = true })
on_flag (some flag_l) c rest operands = rest (record c { listen = true })
on_flag (some flag_a) c rest operands = rest (record c { accept = true })
on_flag (some flag_b) c rest operands = with_operands set_src c operands
on_flag (some flag_c) c rest operands = with_operands set_dst c operands
on_flag (some flag_other) c rest operands = err runtime_error

-- The loop of `set`, over the arguments behind the name of the program.
unfoldable pub set_loop : List Text → Config → Result Config
unfolding flag_of
set_loop [] c = ok c
set_loop (x ∷ []) c = on_flag (flag_of x) c (set_loop []) none
set_loop (x ∷ addr ∷ []) c = on_flag (flag_of x) c (set_loop (addr ∷ [])) none
set_loop (x ∷ addr ∷ port ∷ more) c =
    on_flag (flag_of x) c (set_loop (addr ∷ port ∷ more)) (some (addr, port, set_loop more))

-- The test behind the loop.
abbrev pub check_conflict : Config → Result Config
check_conflict c = if c.accept && c.connect then err runtime_error else ok c

-- Config::set.
unfoldable pub set : List Text → Config → Result Config
unfolding set_loop
set args c = then_set (set_loop args c) check_conflict
