-- ===== src/Client.antt =====
-- What the clients of the request channel share: the state that a session keeps between requests,
-- and the texts of failures. The exchange of one request is a parameter of both clients.
use text.Mathlib.Text.{◌==◌ as str_eq}
use pi86_rp.Common.{String, Option, none, some, if◌then◌else◌, Error, Result}
use pi86_rp.Protocol.{Message}
use pi86_rp.Sequence.{RequestSequence}
use pi86_rp.Runtime.{WorkloadRuntimeState}

-- A failure's text, and the exception whose text it quotes.
abbrev pub Failure : Type 0
Failure = String × Option Error

-- `W` is whatever the exchange acts on: the device, the wire, the clock.
pub record Client (W : Type 0) : Type 0 where
  pub world : W
  pub sequence : RequestSequence
  pub state : WorkloadRuntimeState

-- `RequestExchange`: the reply or `None`, the latency, and the error or `None`, or an exception.
abbrev pub Exchange : Type 0 → Type 0 → Type 0
Exchange W L = Message → W → Result (Option Message × L × Option String) × W

-- `error or text`
unfoldable pub or_text : Option String → String → Failure
or_text none text = (text, none)
or_text (some error) text = (if str_eq error "" then text else error, none)
