-- ===== src/StartWorkload/Exchange.antt =====
-- `_exchange` of host/rp86/start_workload.py: one request through the broker.
use pi86_rp.Common.{
  ℕ, String, Bool, true, false, Option, ◌==◌, if◌then◌else◌, Bytes, ◌>>=◌, Error, value_error,
  runtime_error, key_error, os_error, Result, ok, err,
}
use pi86_rp.Protocol.{status_ok, encode, decode, Message}

-- Why there is no reply: an exception, or the text that the source makes, with what it quotes.
pub data Fault : Type 0 where
  raised : Error → Fault
  reported : Option String → Fault
  rejected : ℕ → Fault

-- What the broker answers: `ok`, `error`, and the bytes that `reply_hex` spells.
pub record RpcReply : Type 0 where
  pub accepted : Bool
  pub error : Option String
  pub reply : Result Bytes

pub data Exchanged : Type 0 where
  replied : Message → Exchanged
  failed : Fault → Exchanged

-- OSError, RuntimeError, ValueError and KeyError.
unfoldable pub is_exchange_error : Error → Bool
is_exchange_error (value_error text numbers) = true
is_exchange_error (runtime_error text numbers) = true
is_exchange_error (key_error key) = true
is_exchange_error (os_error text) = true
is_exchange_error other = false

-- What comes of the broker's answer, inside the `try` block.
unfoldable pub read_reply : Result RpcReply → Result Exchanged
read_reply answer = do
  result ← answer
  if result.accepted
      then (do
        bytes ← result.reply
        reply ← decode bytes
        ok (if reply.status == status_ok then replied reply else failed (rejected reply.status)))
      else ok (failed (reported result.error))

unfoldable pub catch_exchange : Result Exchanged → Result Exchanged
unfolding is_exchange_error
catch_exchange (ok e) = ok e
catch_exchange (err e) = if is_exchange_error e then ok (failed (raised e)) else err e

module _ {W : Type 0} (rpc : Bytes → W → Result RpcReply × W) where
  abbrev pub call_with : Result Bytes → W → Result RpcReply × W
  call_with (ok bytes) w = rpc bytes w
  call_with (err e) w = (err e, w)

  -- `_exchange`
  unfoldable pub exchange : Message → W → Result Exchanged × W
  unfolding read_reply catch_exchange
  exchange request w =
      let (answer, after) = call_with (encode request) w in
      (catch_exchange (read_reply answer), after)
