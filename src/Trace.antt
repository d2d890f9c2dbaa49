-- ===== src/Trace.antt =====
-- tools/ia16_lab/trace.py: WatchRange, and TraceRecorder without its text output; RegisterState of
-- tools/ia16_lab/machine.py. Two functions are parameters: `hex4`, the format `04X` of an integer,
-- and `resolve`, the look-up of the symbol table that the recorder was given.
use pi86_rp.Common.{
  ℕ, zero, suc, ◌+◌, ◌-◌, ◌*◌, max, String, Bool, true, false, ◌&&◌, ◌||◌, Option, List, [], ◌∷◌,
  ◌++◌, ltb, leb, ◌==◌, if◌then◌else◌, length, value_error, Result, ok, err,
}
pub mod Bounded

pub record WatchRange : Type 0 where
  pub start : ℕ
  pub end : ℕ
  pub label : Option String

unfoldable pub new_watch_range : ℕ → ℕ → Option String → Result WatchRange
new_watch_range start end label =
    if ltb start end
    then ok (record { start = start; end = end; label = label })
    else err (value_error "watch range must satisfy 0 <= start < end" [])

unfoldable pub overlaps : WatchRange → ℕ → ℕ → Bool
overlaps watch address size = ltb address watch.end && ltb watch.start (address + max size 1)

pub record RegisterState : Type 0 where
  pub ax : ℕ
  pub bx : ℕ
  pub cx : ℕ
  pub dx : ℕ
  pub si : ℕ
  pub di : ℕ
  pub bp : ℕ
  pub sp : ℕ
  pub cs : ℕ
  pub ds : ℕ
  pub es : ℕ
  pub ss : ℕ
  pub ip : ℕ
  pub flags : ℕ

pub record InstructionTrace : Type 0 where
  pub address : ℕ
  pub size : ℕ
  pub registers : RegisterState
  pub symbol : Option String

pub record MemoryTrace : Type 0 where
  pub kind : String
  pub address : ℕ
  pub size : ℕ
  pub value : ℕ
  pub registers : RegisterState
  pub segment_candidates : List (String × String)
  pub symbol : Option String

pub data Event : Type 0 where
  executed : InstructionTrace → Event
  accessed : MemoryTrace → Event

pub record TraceRecorder : Type 0 where
  pub watches : List WatchRange
  pub max_events : ℕ
  pub events : List Event
  pub dropped : ℕ

unfoldable pub new_recorder : List WatchRange → ℕ → Result TraceRecorder
new_recorder watches zero = err (value_error "max_events must be positive" [])
new_recorder watches (suc n) =
    ok (record { watches = watches; max_events = suc n; events = []; dropped = 0 })

unfoldable pub any_overlaps : List WatchRange → ℕ → ℕ → Bool
unfolding overlaps
any_overlaps [] address size = false
any_overlaps (watch ∷ watches) address size =
    overlaps watch address size || any_overlaps watches address size

unfoldable pub interested : TraceRecorder → ℕ → ℕ → Bool
interested r address size =
    (if length r.watches == 0 then true else false) || any_overlaps r.watches address size

unfoldable pub append_event : TraceRecorder → Event → TraceRecorder
append_event r event =
    if leb r.max_events (length r.events)
    then record r { dropped = r.dropped + 1 }
    else record r { events = r.events ++ event ∷ [] }

module _ (hex4 : ℕ → String) where
  -- A candidate is the name of a segment register and the offset from it.
  unfoldable pub candidate : ℕ → String → ℕ → List (String × String)
  candidate address name segment =
      if leb (segment * 16) address && leb (address - segment * 16) 0xFFFF
      then (name, hex4 (address - segment * 16)) ∷ []
      else []

  unfoldable pub segment_candidates_of : ℕ → RegisterState → List (String × String)
  segment_candidates_of address state =
      candidate address "DS" state.ds
      ++ candidate address "ES" state.es
      ++ candidate address "SS" state.ss
      ++ candidate address "CS" state.cs

-- One call of a recorder.
pub data Call : Type 0 where
  instruction : ℕ → ℕ → RegisterState → Call
  memory : String → ℕ → ℕ → ℕ → RegisterState → Call

module _ (hex4 : ℕ → String) (resolve : ℕ → Option String) where
  unfoldable pub event_of : Call → Event
  event_of (instruction address size registers) =
      executed
        record { address = address; size = size; registers = registers; symbol = resolve address }
  event_of (memory kind address size value registers) = accessed record {
    kind = kind;
    address = address;
    size = size;
    value = value;
    registers = registers;
    segment_candidates = segment_candidates_of hex4 address registers;
    symbol = resolve address;
  }

  unfoldable pub watched : TraceRecorder → Call → Bool
  unfolding interested
  watched r (instruction address size registers) = interested r address size
  watched r (memory kind address size value registers) = interested r address size

  -- `instruction` and `memory` of the recorder.
  unfoldable pub record_call : TraceRecorder → Call → TraceRecorder
  unfolding event_of watched append_event
  record_call r call = if watched r call then append_event r (event_of call) else r

  unfoldable pub record_calls : TraceRecorder → List Call → TraceRecorder
  unfolding record_call
  record_calls r [] = r
  record_calls r (call ∷ calls) = record_calls (record_call r call) calls
