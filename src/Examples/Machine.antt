-- ===== src/Examples/Machine.antt =====
-- A trace of a binary at concrete inputs.
use pi86_rp.Common.{ℕ, String, ◌≡◌, refl, Option, none, List, [], ◌∷◌, ok}
use pi86_rp.Trace.{
  overlaps, new_recorder, any_overlaps, interested, append_event, candidate, segment_candidates_of,
  watched, record_call, record_calls, WatchRange, RegisterState, TraceRecorder, Call, instruction,
  memory,
}
use pi86_rp.Trace.Bounded.{Kept, record_calls-Kept}

abbrev code_range : List WatchRange
code_range = record { start = 0x100; end = 0x104; label = none } ∷ []

abbrev zeroed : RegisterState
zeroed = record {
  ax = 0;
  bx = 0;
  cx = 0;
  dx = 0;
  si = 0;
  di = 0;
  bp = 0;
  sp = 0;
  cs = 0;
  ds = 0x10;
  es = 0;
  ss = 0;
  ip = 0;
  flags = 0;
}

abbrev recorder : TraceRecorder
recorder = record { watches = code_range; max_events = 1; events = []; dropped = 0 }

-- The first call ends before the range, and the last one meets the full recorder.
abbrev calls : List Call
calls = instruction 0xFE 2 zeroed ∷ instruction 0xFF 2 zeroed ∷ memory "READ" 0x103 1 7 zeroed ∷ []

abbrev no_format : ℕ → String
no_format n = ""

abbrev no_symbols : ℕ → Option String
no_symbols address = none

one_dropped : (record_calls no_format no_symbols recorder calls).dropped ≡ 1
unfolding record_calls record_call watched interested any_overlaps overlaps append_event
one_dropped = refl

in_four_segments :
    segment_candidates_of no_format 0x103 zeroed
    ≡ ("DS", "") ∷ ("ES", "") ∷ ("SS", "") ∷ ("CS", "") ∷ []
unfolding segment_candidates_of candidate
in_four_segments = refl

start_recorder : new_recorder code_range 1 ≡ ok recorder
unfolding new_recorder
start_recorder = refl

record_calls-Kept_example : Kept no_format no_symbols code_range 1 recorder calls
record_calls-Kept_example =
    record_calls-Kept no_format no_symbols code_range 1 recorder calls start_recorder
