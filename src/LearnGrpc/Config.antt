-- ===== src/LearnGrpc/Config.antt =====
-- learn_grpc/hello_world/src: the classes AbstractConfig (lib/config), ClientConfig (client/config)
-- and ServerConfig (server/config).
pub mod Files
mod Tests
use cpp_programming.Base.{
  ℕ, Bool, true, false, ◌||◌, List, [], ◌∷◌, ◌==◌, if◌then◌else◌, is_empty, Outcome, returned,
  threw, ◌>>=◌, after, Result, ok, err,
}
use cpp_programming.Text.{Text, text_eq, ℤ, pos, stoi}
use cpp_programming.Text.Literals.{codes}

-- What the program uses of boost: `trim`, and `split` at equals signs.
pub record Boost : Type 0 where
  pub trim : Text → Text
  pub split : Text → List Text

abbrev pub starts_comment : Text → Bool
starts_comment [] = false
starts_comment (c ∷ s) = c == 35

-- A configuration, with what `setConfig` does with a name and a value.
module _ {ℓ} {C : Type ℓ} (b : Boost) (set_config : Text → Text → C → Outcome C) where
  abbrev pub set_pair : List Text → C → Outcome C
  set_pair [] c = returned c
  set_pair (k ∷ []) c = returned c
  set_pair (k ∷ v ∷ []) c = set_config (b.trim k) (b.trim v) c
  set_pair (k ∷ v ∷ w ∷ ws) c = returned c

  abbrev pub load_trimmed : Text → C → Outcome C
  load_trimmed line c =
      if starts_comment line || is_empty line then returned c else set_pair (b.split line) c

  -- A round of the loop of loadConfigFile.
  unfoldable pub load_line : Text → C → Outcome C
  load_line line c = load_trimmed (b.trim line) c

  unfoldable pub load_lines : List Text → C → Outcome C
  unfolding load_line
  load_lines [] c = returned c
  load_lines (line ∷ lines) c = load_line line c >>= load_lines lines

  -- AbstractConfig::loadConfigFile, for the lines that `getline` gives; what is thrown is caught.
  unfoldable pub load_config_file : List Text → C → C
  unfolding load_lines
  load_config_file lines c = after (load_lines lines c)

pub data LogLevel : Type 0 where
  log_debug log_info log_warn log_error : LogLevel

-- utils::ParseLogLevel and utils::StringToBool.
unfoldable pub parse_log_level : Text → LogLevel
parse_log_level s =
    if text_eq s (codes "DEBUG")
    then log_debug
    else if text_eq s (codes "INFO")
    then log_info
    else if text_eq s (codes "WARN")
    then log_warn
    else if text_eq s (codes "ERROR")
    then log_error
    else log_info

unfoldable pub string_to_bool : Text → Bool
string_to_bool s = text_eq s (codes "true")

abbrev pub keep_item {ℓ κ} : {C : Type ℓ} {A : Type κ} → (A → C) → C → Result A → Outcome C
keep_item f c (ok a) = returned (f a)
keep_item f c (err e) = threw e c

-- SET_CONFIG: the item is set if the name is its own, and what the parser throws goes on.
unfoldable pub set_item {ℓ κ} :
    {C : Type ℓ} {A : Type κ} → Text → Text → Result A → (A → C) → C → Outcome C
set_item item k parsed f c = if text_eq k item then keep_item f c parsed else returned c

-- `level`: that of the logger.
pub record ClientConfig : Type 0 where
  pub log_level : LogLevel
  pub server_host : Text
  pub server_port : ℤ
  pub async : Bool
  pub request_count : ℤ
  pub threadpool_size : ℤ
  pub polling_interval : ℤ
  pub level : LogLevel

-- ClientConfig::initConfig, with the logger's level of its own.
unfoldable pub client_init : LogLevel → ClientConfig
client_init level = record {
  log_level = log_info;
  server_host = codes "localhost";
  server_port = pos 50051;
  async = false;
  request_count = pos 3;
  threadpool_size = pos 8;
  polling_interval = pos 500;
  level = level;
}

-- ClientConfig::setConfig.
unfoldable pub client_set_config : Text → Text → ClientConfig → Outcome ClientConfig
unfolding parse_log_level string_to_bool set_item
client_set_config k v c0 =
    set_item (codes "log.level") k (ok (parse_log_level v))
      (λ l. record c0 { log_level = l; level = l }) c0
    >>= (λ c. set_item (codes "grpc.server.host") k (ok v) (λ t. record c { server_host = t }) c)
    >>= (λ c. set_item (codes "grpc.server.port") k (stoi v) (λ n. record c { server_port = n }) c)
    >>= (λ c.
        set_item (codes "grpc.client.async") k (ok (string_to_bool v)) (λ b. record c { async = b })
          c)
    >>= (λ c.
        set_item (codes "grpc.client.async.request.count") k (stoi v)
          (λ n. record c { request_count = n }) c)
    >>= (λ c.
        set_item (codes "grpc.client.async.threadpool.size") k (stoi v)
          (λ n. record c { threadpool_size = n }) c)
    >>= (λ c.
        set_item (codes "grpc.client.async.polling.interval.milliseconds") k (stoi v)
          (λ n. record c { polling_interval = n }) c)

pub record ServerConfig : Type 0 where
  pub log_level : LogLevel
  pub server_port : ℤ
  pub async : Bool
  pub threadpool_size : ℤ
  pub polling_interval : ℤ
  pub level : LogLevel

-- ServerConfig::initConfig and ServerConfig::setConfig.
unfoldable pub server_init : LogLevel → ServerConfig
server_init level = record {
  log_level = log_info;
  server_port = pos 50051;
  async = false;
  threadpool_size = pos 8;
  polling_interval = pos 500;
  level = level;
}

unfoldable pub server_set_config : Text → Text → ServerConfig → Outcome ServerConfig
unfolding parse_log_level string_to_bool set_item
server_set_config k v c0 =
    set_item (codes "log.level") k (ok (parse_log_level v))
      (λ l. record c0 { log_level = l; level = l }) c0
    >>= (λ c. set_item (codes "grpc.server.port") k (stoi v) (λ n. record c { server_port = n }) c)
    >>= (λ c.
        set_item (codes "grpc.server.async") k (ok (string_to_bool v)) (λ b. record c { async = b })
          c)
    >>= (λ c.
        set_item (codes "grpc.server.async.threadpool.size") k (stoi v)
          (λ n. record c { threadpool_size = n }) c)
    >>= (λ c.
        set_item (codes "grpc.server.async.polling.interval.milliseconds") k (stoi v)
          (λ n. record c { polling_interval = n }) c)
