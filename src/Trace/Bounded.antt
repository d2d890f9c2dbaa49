-- ===== src/Trace/Bounded.antt =====
-- A recorder keeps the first events that it is interested in, and counts the others.
use mathlib.Core.Path.{subst}
use pi86_rp.Common.{
  ℕ, zero, suc, ◌+◌, ◌-◌, ◌≤◌, ◌<◌, String, ◌≡◌, refl, sym, ap, ◌∙◌, ◌⊎◌, inl, inr, Option, List,
  [], ◌∷◌, ◌++◌, append-nil, append_assoc, arith, if◌then◌else◌, Bool-cases, length, take,
  length-append, take-append_exact, take_all, ok,
}
use pi86_rp.Trace.{
  new_recorder, interested, append_event, event_of, watched, record_call, record_calls, WatchRange,
  Event, TraceRecorder, Call, instruction, memory,
}

unfoldable append_events : TraceRecorder → List Event → TraceRecorder
append_events r [] = r
append_events r (event ∷ events) = append_events (append_event r event) events

-- What a recorder becomes when it is given more events.
unfoldable after_events : TraceRecorder → List Event → TraceRecorder
after_events r events = record r {
  events = take r.max_events (r.events ++ events);
  dropped = r.dropped + (length r.events + length events - r.max_events);
}

room_cases : (a b : ℕ) → (a ≤ b) ⊎ (b < a)
room_cases a b = omega arith

append_event_full :
    (r : TraceRecorder) (event : Event)
    → r.max_events ≤ length r.events
    → append_event r event ≡ record r { dropped = r.dropped + 1 }
unfolding append_event
append_event_full r event h = ground arith

append_event_room :
    (r : TraceRecorder) (event : Event)
    → length r.events < r.max_events
    → append_event r event ≡ record r { events = r.events ++ event ∷ [] }
unfolding append_event
append_event_room r event h = ground arith

sum_step :
    {held more limit : ℕ} (lost given : ℕ)
    → more ≡ held + 1
    → held < limit
    → lost + (more + given - limit) ≡ lost + (held + suc given - limit)
sum_step lost given hm h = omega arith

same_recorder :
    (r : TraceRecorder) {kept kept' : List Event} {lost lost' : ℕ}
    → kept ≡ kept'
    → lost ≡ lost'
    → record r { events = kept; dropped = lost } ≡ record r { events = kept'; dropped = lost' }
same_recorder r hk hl = cc

after_events-append_event :
    (r : TraceRecorder) (event : Event) (events : List Event)
    → length r.events ≤ r.max_events
    → after_events (append_event r event) events ≡ after_events r (event ∷ events)
unfolding after_events
after_events-append_event r event events h = elim (room_cases r.max_events (length r.events)) [
  | inl full ↦
      ap (λ s. after_events s events) (append_event_full r event full)
      ∙ same_recorder r
          (take-append_exact r.max_events r.events events (omega arith)
            ∙ sym (take-append_exact r.max_events r.events (event ∷ events) (omega arith)))
          (omega arith)
  | inr room ↦
      ap (λ s. after_events s events) (append_event_room r event room)
      ∙ same_recorder r (ap (take r.max_events) (append_assoc r.events (event ∷ []) events))
          (sum_step _ _ (length-append r.events (event ∷ [])) room)
]

within : {held more limit : ℕ} → more ≡ held + 1 → held < limit → more ≤ limit
within hm h = omega arith

append_event-length :
    (r : TraceRecorder) (event : Event)
    → length r.events ≤ r.max_events
    → length (append_event r event).events ≤ (append_event r event).max_events
unfolding append_event
append_event-length r event h = elim (room_cases r.max_events (length r.events)) [
  | inl full ↦ rw (append_event_full r event full) h
  | inr room ↦
      rw (append_event_room r event room) (within (length-append r.events (event ∷ [])) room)
]

append_events-after_events :
    (events : List Event) (r : TraceRecorder)
    → length r.events ≤ r.max_events
    → append_events r events ≡ after_events r events
unfolding append_events after_events
append_events-after_events [] r h =
    same_recorder r
      (sym (ap (take r.max_events) (append-nil r.events) ∙ take_all r.max_events r.events h))
      (omega arith)
append_events-after_events (event ∷ events) r h =
    append_events-after_events events (append_event r event) (append_event-length r event h)
    ∙ after_events-append_event r event events h

no_offset : (m n : ℕ) → 0 + (0 + m - n) ≡ m - n
no_offset m n = omega arith

module _ (hex4 : ℕ → String) (resolve : ℕ → Option String) where
  -- The events of the calls that a recorder with these watches is interested in.
  unfoldable pub wanted : TraceRecorder → List Call → List Event
  wanted r [] = []
  wanted r (call ∷ calls) =
      if watched hex4 resolve r call
      then event_of hex4 resolve call ∷ wanted r calls
      else wanted r calls

  watched-append_event :
      (r : TraceRecorder) (event : Event) (call : Call)
      → watched hex4 resolve (append_event r event) call ≡ watched hex4 resolve r call
  unfolding watched interested append_event
  watched-append_event r event (instruction address size registers) = ground arith
  watched-append_event r event (memory kind address size value registers) = ground arith

  wanted-append_event :
      (r : TraceRecorder) (event : Event) (calls : List Call)
      → wanted (append_event r event) calls ≡ wanted r calls
  unfolding wanted
  wanted-append_event r event [] = refl
  wanted-append_event r event (call ∷ calls) =
      rw (watched-append_event r event call, wanted-append_event r event calls) refl

  record_calls-append_events :
      (calls : List Call) (r : TraceRecorder)
      → record_calls hex4 resolve r calls ≡ append_events r (wanted r calls)
  unfolding record_calls record_call wanted append_events
  record_calls-append_events [] r = refl
  record_calls-append_events (call ∷ calls) r = elim (Bool-cases (watched hex4 resolve r call)) [
    | inl heard ↦ rw heard (
        record_calls-append_events calls (append_event r (event_of hex4 resolve call))
        ∙ ap (append_events _) (wanted-append_event r (event_of hex4 resolve call) calls))
    | inr unheard ↦ rw unheard (record_calls-append_events calls r)
  ]

  -- The events are the first `n` that the watches ask for, and the others are counted.
  abbrev pub Kept : List WatchRange → ℕ → TraceRecorder → List Call → Type 0
  Kept watches n r calls =
      ((record_calls hex4 resolve r calls).events ≡ take n (wanted r calls))
      × ((record_calls hex4 resolve r calls).dropped ≡ length (wanted r calls) - n)
      × ((record_calls hex4 resolve r calls).watches ≡ watches)
      × ((record_calls hex4 resolve r calls).max_events ≡ n)

  empty-Kept :
      (watches : List WatchRange) (n : ℕ) (calls : List Call)
      → Kept watches n
          (record { watches = watches; max_events = n; events = []; dropped = 0 })
          calls
  unfolding after_events
  empty-Kept watches n calls =
      let r : TraceRecorder = record {
        watches = watches;
        max_events = n;
        events = [];
        dropped = 0;
      } in
      let e =
        record_calls-append_events calls r
        ∙ append_events-after_events (wanted r calls) r (omega arith) in
      (
        ap (λ s. s.events) e,
        ap (λ s. s.dropped) e ∙ no_offset (length (wanted r calls)) n,
        ap (λ s. s.watches) e,
        ap (λ s. s.max_events) e,
      )

  -- A new recorder that is given any calls keeps the first `max_events` of the events that its
  -- watches ask for, in their order, and `dropped` is the number of the others; the watches and
  -- the bound stay.
  pub record_calls-Kept :
      (watches : List WatchRange) (n : ℕ) (r : TraceRecorder) (calls : List Call)
      → new_recorder watches n ≡ ok r
      → Kept watches n r calls
  unfolding new_recorder
  record_calls-Kept watches zero r calls h = absurd (cc)
  record_calls-Kept watches (suc n) r calls h =
      subst (λ s. Kept watches (suc n) s calls) (cc) (empty-Kept watches (suc n) calls)
