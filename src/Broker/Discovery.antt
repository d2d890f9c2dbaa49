-- ===== src/Broker/Discovery.antt =====
-- `discover_brokers` and `select_broker` of host/rp86/broker.py. What reading a registry file gave,
-- and what the broker that it names answered to a hello, are given with each file.
use package.text.Mathlib.Text.{◌==◌ as str_eq}
use pi86_rp.Common.{
  ℕ, String, ◌≡◌, refl, Bool, true, false, ◌&&◌, Option, none, some, List, [], ◌∷◌, ◌++◌, ◌==◌,
  if◌then◌else◌, guard, ◌>>=◌, ◌>>◌, Error, value_error, runtime_error, key_error, os_error, Result,
  ok, err,
}
pub mod Distinct

pub record BrokerRecord : Type 0 where
  pub device_id : String
  pub tcp_port : ℕ
  pub udp_port : ℕ
  pub pid : ℕ
  pub processor : String

-- The values of the keys that `from_dict` reads.
pub record RegistryFile : Type 0 where
  pub version : Option ℕ
  pub device_id : Option String
  pub tcp_port : Option ℕ
  pub udp_port : Option ℕ
  pub pid : Option ℕ
  pub processor : Option String

abbrev value_at {ℓ} : {A : Type ℓ} → String → Option A → Result A
value_at key none = err (key_error key)
value_at key (some a) = ok a

abbrev has_version : Option ℕ → Bool
has_version none = false
has_version (some version) = version == 1

unfoldable pub from_dict : RegistryFile → Result BrokerRecord
from_dict file = do
  guard (has_version file.version) (value_error "unsupported broker registry version" [])
  device_id ← value_at "device_id" file.device_id
  tcp_port ← value_at "tcp_port" file.tcp_port
  udp_port ← value_at "udp_port" file.udp_port
  pid ← value_at "pid" file.pid
  processor ← value_at "processor" file.processor
  ok (record {
    device_id = device_id;
    tcp_port = tcp_port;
    udp_port = udp_port;
    pid = pid;
    processor = processor;
  })

unfoldable pub as_dict : BrokerRecord → RegistryFile
as_dict r = record {
  version = some 1;
  device_id = some r.device_id;
  tcp_port = some r.tcp_port;
  udp_port = some r.udp_port;
  pid = some r.pid;
  processor = some r.processor;
}

-- What is read back from a registry file is what was written.
pub from_dict-as_dict : (r : BrokerRecord) → from_dict (as_dict r) ≡ ok r
unfolding from_dict as_dict
from_dict-as_dict r = refl

-- `ok` and `device_id` of a reply.
abbrev pub HelloReply : Type 0
HelloReply = Bool × Option String

-- A registry file, and the answer of its broker.
abbrev pub Found : Type 0
Found = Result RegistryFile × Result HelloReply

abbrev pub same_identity : BrokerRecord → BrokerRecord → Bool
same_identity r q = str_eq r.device_id q.device_id && (r.tcp_port == q.tcp_port)

-- `identity in seen`: the identities seen are those of the records.
unfoldable pub is_seen : BrokerRecord → List BrokerRecord → Bool
is_seen r [] = false
is_seen r (q ∷ records) = if same_identity r q then true else is_seen r records

abbrev pub is_answer : BrokerRecord → HelloReply → Bool
is_answer r (accepted, none) = false
is_answer r (accepted, some device_id) = accepted && str_eq device_id r.device_id

-- The exceptions that skip a file.
unfoldable pub is_skipped : Error → Bool
is_skipped (value_error text numbers) = true
is_skipped (runtime_error text numbers) = true
is_skipped (key_error key) = true
is_skipped (os_error text) = true
is_skipped other = false

-- The `try` block for one file: the records behind it.
unfoldable pub try_file : List BrokerRecord → Found → Result (List BrokerRecord)
unfolding from_dict is_seen
try_file records (file, reply) = do
  entry ← file
  r ← from_dict entry
  if is_seen r records
      then ok records
      else (do answer ← reply; ok (if is_answer r answer then records ++ r ∷ [] else records))

unfoldable pub skip_errors :
    List BrokerRecord → Result (List BrokerRecord) → Result (List BrokerRecord)
unfolding is_skipped
skip_errors records (ok after) = ok after
skip_errors records (err e) = if is_skipped e then ok records else err e

unfoldable pub discover_loop : List BrokerRecord → List Found → Result (List BrokerRecord)
unfolding try_file skip_errors
discover_loop records [] = ok records
discover_loop records (f ∷ files) =
    skip_errors records (try_file records f) >>= λ after. discover_loop after files

unfoldable pub discover_brokers : List Found → Result (List BrokerRecord)
unfolding discover_loop
discover_brokers files = discover_loop [] files

unfoldable pub matches : String → List BrokerRecord → List BrokerRecord
matches device_id [] = []
matches device_id (r ∷ records) =
    let rest = matches device_id records in if str_eq r.device_id device_id then r ∷ rest else rest

unfoldable pub choose : List BrokerRecord → Result (Option BrokerRecord)
choose [] = ok none
choose (r ∷ []) = ok (some r)
choose (r ∷ q ∷ records) = err (runtime_error "multiple RP86 brokers are active" [])

unfoldable pub select_broker : List BrokerRecord → Option String → Result (Option BrokerRecord)
unfolding matches choose
select_broker records none = choose records
select_broker records (some device_id) =
    if str_eq device_id "" then choose records else choose (matches device_id records)
