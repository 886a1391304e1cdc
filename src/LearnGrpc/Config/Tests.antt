-- ===== src/LearnGrpc/Config/Tests.antt =====
-- The client's file, with a comment and a port that is no number.
use cpp_programming.Base.{
  ℕ, ◌≡◌, refl, Bool, true, ◌&&◌, not, List, [], ◌∷◌, ◌++◌, map, arith, ◌==◌, if◌then◌else◌, after,
}
use cpp_programming.Text.{Text, stoi, decimal}
use cpp_programming.Text.Find.{Lacks}
use cpp_programming.Text.Literals.{codes}
use cpp_programming.SimpleHttp.Trim.{trim, trim-spaces}
use cpp_programming.LearnGrpc.Config.{
  Boost, log_info, log_debug, client_init, client_set_config, parse_log_level, set_item,
  load_config_file,
}
use cpp_programming.LearnGrpc.Config.Files.{
  Laws, IsSetting, Line, setting, comment, text_of, set_all, load_config_file-set_all,
}

abbrev in_front : ℕ → List Text → List Text
in_front c [] = (c ∷ []) ∷ []
in_front c (t ∷ ts) = (c ∷ t) ∷ ts

unfoldable split : Text → List Text
split [] = [] ∷ []
split (c ∷ s) = let rest = split s in if 61 == c then [] ∷ rest else in_front c rest

split-Lacks : (t : Text) → Lacks 61 t → split t ≡ t ∷ []
unfolding split
split-Lacks [] h = refl
split-Lacks (c ∷ t) h = rw (split, h.0, split-Lacks t h.1) refl

split-append : (x y : Text) → Lacks 61 x → Lacks 61 y → split (x ++ 61 ∷ y) ≡ x ∷ y ∷ []
unfolding split
split-append [] y h k = rw (split, split-Lacks y k) refl
split-append (c ∷ x) y h k = rw (split, h.0, split-append x y h.1 k) refl

abbrev boost : Boost
boost = record { trim = trim; split = split }

boost-Laws : Laws boost
boost-Laws = record { trim_spaces = trim-spaces; split_one = split-Lacks; split_two = split-append }

abbrev file : List Line
file =
    record {
      before = codes " ";
      entry = setting (codes "log.level") (codes " ") (codes "  ") (codes "DEBUG");
      behind = [];
    }
    ∷ record { before = []; entry = comment (codes " a=b"); behind = codes "  " }
    ∷ record {
      before = [];
      entry = setting (codes "grpc.server.port") [] (codes " ") (codes "x");
      behind = [];
    }
    ∷ record {
      before = [];
      entry = setting (codes "grpc.server.host") [] [] (codes "a");
      behind = [];
    }
    ∷ []

abbrev lacks : Text → Bool
lacks [] = true
lacks (c ∷ s) = not (61 == c) && lacks s

lacks-Lacks : (t : Text) → lacks t ≡ true → Lacks 61 t
lacks-Lacks [] h = tt
lacks-Lacks (c ∷ t) h = ground (arith, lacks-Lacks t)

level_pair : IsSetting (codes "log.level") (codes "DEBUG")
level_pair = (
  (refl, refl),
  (refl, refl),
  lacks-Lacks (codes "log.level") refl,
  lacks-Lacks (codes "DEBUG") refl,
  refl,
  refl,
  refl,
)

port_pair : IsSetting (codes "grpc.server.port") (codes "x")
port_pair = (
  (refl, refl),
  (refl, refl),
  lacks-Lacks (codes "grpc.server.port") refl,
  lacks-Lacks (codes "x") refl,
  refl,
  refl,
  refl,
)

host_pair : IsSetting (codes "grpc.server.host") (codes "a")
host_pair = (
  (refl, refl),
  (refl, refl),
  lacks-Lacks (codes "grpc.server.host") refl,
  lacks-Lacks (codes "a") refl,
  refl,
  refl,
  refl,
)

load_config_file-set_all_example :
    load_config_file boost client_set_config (map text_of file) (client_init log_info)
    ≡ after (set_all boost boost-Laws client_set_config file (client_init log_info))
load_config_file-set_all_example =
    load_config_file-set_all boost boost-Laws client_set_config file (client_init log_info) (
      ((refl, tt), tt, (((refl, tt), (refl, (refl, tt))), level_pair)),
      (
        (tt, (refl, (refl, tt)), (refl, refl)),
        ((tt, tt, ((tt, (refl, tt)), port_pair)), ((tt, tt, ((tt, tt), host_pair)), tt)),
      ),
    )

-- The port is no number: the host behind it is not read.
file_lem :
    after (set_all boost boost-Laws client_set_config file (client_init log_info))
    ≡ record (client_init log_info) { log_level = log_debug; level = log_debug }
unfolding set_all client_set_config client_init set_item parse_log_level stoi decimal
file_lem = refl
