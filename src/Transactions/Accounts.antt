-- ===== src/Transactions/Accounts.antt =====
-- What a transaction reports.
use mathlib.Core.Path.{subst}
use pi86_rp.Common.{
  ℕ, ◌+◌, String, ◌≡◌, refl, sym, ap, ◌∙◌, ◌⊎◌, inl, inr, true, Option, none, some, List, [], ◌∷◌,
  ◌++◌, append-nil, append_assoc, Error, arith, Bytes, length, raises_value_error, value_error,
  Result, ok, err,
}
use pi86_rp.Protocol.{Message}
use pi86_rp.Sequence.{advance_after}
use pi86_rp.Runtime.{update_from_payload, WorkloadRuntimeState}
use pi86_rp.Runtime.Status.{update_from_payload_cases}
use pi86_rp.Client.{Exchange, or_text, Client}
use pi86_rp.Transactions.{
  after_update, after_exchange, step, transact_loop, transact, WorkloadTransactionResult, success,
  failure, with_world,
}
use pi86_rp.Transactions.Rounds.{loop-stopped, loop-accepted}

update_known :
    (old : WorkloadRuntimeState) (payload : Bytes)
    → ((s : WorkloadRuntimeState) × (update_from_payload old payload ≡ ok s))
      ⊎ (raises_value_error (update_from_payload old payload) ≡ true)
update_known old payload = elim (update_from_payload_cases old payload) [
  | inl (s, e, _, _) ↦ inl (s, e)
  | inr e ↦ inr e
]

value_error_of :
    {A : Type 0} (r : Result A)
    → raises_value_error r ≡ true
    → (text : String) × (numbers : List ℕ) × (r ≡ err (value_error text numbers))
value_error_of (ok a) h = cc
value_error_of (err (value_error text numbers)) h = (text, numbers, refl)
value_error_of (err e) h = ground arith

module _ {W L : Type 0} (exchange : Exchange W L) (on_state_change : WorkloadRuntimeState → W → W)
    (on_activity : W → W) where
  -- The client behind a record whose reply is a status that was taken over.
  abbrev pub moved_on : Client W → Message → W → WorkloadRuntimeState → Client W
  moved_on client request world state = record {
    world = on_state_change state world;
    sequence = advance_after client.sequence request.sequence;
    state = state;
  }

  -- Every record got a reply, whose status could be read: the latencies, and the client behind.
  abbrev pub IsAccepted : Client W → List Message → List L → Client W → Type 0
  IsAccepted client [] latencies after = (latencies ≡ []) × (client ≡ after)
  IsAccepted client (request ∷ requests) latencies after =
      (reply : Message) × (latency : L) × (error : Option String) × (world : W)
      × (state : WorkloadRuntimeState) × (later : List L) × (exchange request client.world
          ≡ (ok (some reply, latency, error), world))
      × (update_from_payload client.state reply.payload ≡ ok state)
      × (latencies ≡ latency ∷ later)
      × IsAccepted (moved_on client request world state) requests later after

  -- What a call returns or raises, and the client behind it.
  abbrev pub Ended : Type 0
  Ended = Result (WorkloadTransactionResult L) × Client W

  -- The three ways in which a record ends a call. The exchange raised, it gave no reply, or its
  -- reply has a status that cannot be read.
  abbrev pub IsRaised : Client W → Message → Ended → Type 0
  IsRaised client request p =
      (e : Error) × (world : W) × (exchange request client.world ≡ (err e, world))
      × (p ≡ (err e, with_world client world))

  abbrev pub IsUnanswered : ℕ → ℕ → List L → Client W → Message → Ended → Type 0
  IsUnanswered count index latencies client request p =
      (latency : L) × (error : Option String) × (world : W) × (exchange request client.world
        ≡ (ok (none, latency, error), world))
      × (p ≡ (
        ok (failure count index (or_text error "workload exchange failed") latencies),
        with_world client world,
      ))

  abbrev pub IsUnreadable : ℕ → ℕ → List L → Client W → Message → Ended → Type 0
  IsUnreadable count index latencies client request p =
      (reply : Message) × (latency : L) × (error : Option String) × (world : W) × (text : String)
      × (numbers : List ℕ) × (exchange request client.world
          ≡ (ok (some reply, latency, error), world))
      × (update_from_payload client.state reply.payload ≡ err (value_error text numbers))
      × (p ≡ (
        ok (
            failure count index ("invalid status payload: ", some (value_error text numbers))
              (latencies ++ latency ∷ [])),
        record client { world = world; sequence = advance_after client.sequence request.sequence },
      ))

  abbrev pub IsStopped : ℕ → ℕ → List L → Client W → Message → Ended → Type 0
  IsStopped count index latencies client request p =
      IsRaised client request p
      ⊎ (IsUnanswered count index latencies client request p
          ⊎ IsUnreadable count index latencies client request p)

  -- An account of a call of `count` records, of which those from `index` on are left and the ones
  -- before took `earlier`.
  abbrev pub IsAccount : ℕ → ℕ → List L → Client W → List Message → Ended → Type 0
  IsAccount count index earlier client records p =
      ((latencies : List L) × (last : Client W) × IsAccepted client records latencies last
        × (p ≡ (
          ok (success count (earlier ++ latencies)),
          with_world last (on_activity last.world),
        )))
      ⊎ ((before : List Message) × (request : Message) × (rest : List Message) × (latencies : List
            L)
          × (middle : Client W) × (records ≡ before ++ request ∷ rest)
          × IsAccepted client before latencies middle
          × IsStopped count (index + length before) (earlier ++ latencies) middle request p)

  IsStopped-again :
      {count m n : ℕ} {xs ys : List L} {client : Client W} {request : Message} {p : Ended}
      → m ≡ n
      → xs ≡ ys
      → IsStopped count m xs client request p
      → IsStopped count n ys client request p
  IsStopped-again {count} {m} {n} {xs} {ys} {client} {request} {p} e f s =
      subst (λ zs. IsStopped count n zs client request p) f
        (subst (λ k. IsStopped count k xs client request p) e s)

  succeeded : ℕ → Client W → List L → Ended
  succeeded count last latencies =
      (ok (success count latencies), with_world last (on_activity last.world))

  -- One accepted record in front of what is accounted for.
  IsAccount-earlier :
      (count index : ℕ) (earlier : List L) (client : Client W) (request : Message)
      (requests : List Message) {reply : Message} {latency : L} {error : Option String} {world : W}
      {state : WorkloadRuntimeState} {p : Ended}
      → exchange request client.world ≡ (ok (some reply, latency, error), world)
      → update_from_payload client.state reply.payload ≡ ok state
      → IsAccount count
          (index + 1)
          (earlier ++ latency ∷ [])
          (moved_on client request world state)
          requests
          p
      → IsAccount count index earlier client (request ∷ requests) p
  unfolding succeeded
  IsAccount-earlier count index earlier client request requests {latency} x u
        (inl (latencies, last, accepted_all, e)) =
      inl (
        latency ∷ latencies,
        last,
        (_, latency, _, _, _, latencies, x, u, refl, accepted_all),
        e ∙ ap (succeeded count last) (append_assoc earlier (latency ∷ []) latencies),
      )
  IsAccount-earlier count index earlier client request requests {latency} x u
        (inr (before, ending, rest, latencies, middle, e, accepted_before, s)) =
      inr (
        request ∷ before,
        ending,
        rest,
        latency ∷ latencies,
        middle,
        ap (λ (ms : List Message). request ∷ ms) e,
        (_, latency, _, _, _, latencies, x, u, refl, accepted_before),
        IsStopped-again {client = middle} {request = ending} (omega arith)
            (append_assoc earlier (latency ∷ []) latencies) s,
      )

  -- The first record ends the call.
  IsAccount-now :
      (count index : ℕ) (earlier : List L) (client : Client W) (request : Message)
      (requests : List Message) {p : Ended}
      → IsStopped count index earlier client request p
      → IsAccount count index earlier client (request ∷ requests) p
  IsAccount-now count index earlier client request requests s = inr (
    [],
    request,
    requests,
    [],
    client,
    refl,
    (refl, refl),
    IsStopped-again {client = client} {request = request} (omega arith) (sym (append-nil earlier))
        s,
  )

  after_reply-IsAccount :
      (client : Client W) (count index : ℕ) (earlier : List L) (request : Message)
      (requests : List Message) (reply : Message) (latency : L) (error : Option String) (world : W)
      → ((state : WorkloadRuntimeState)
          → IsAccount count
              (index + 1)
              (earlier ++ latency ∷ [])
              (moved_on client request world state)
              requests
              (transact_loop exchange on_state_change on_activity
                (moved_on client request world state)
                count
                (index + 1)
                (earlier ++ latency ∷ [])
                requests))
      → exchange request client.world ≡ (ok (some reply, latency, error), world)
      → IsAccount count index earlier client (request ∷ requests) (
          transact_loop exchange on_state_change on_activity client count index earlier
            (request ∷ requests))
  unfolding step after_exchange after_update
  after_reply-IsAccount client count index earlier request requests reply latency error world ih x =
      elim (update_known client.state reply.payload) [
        | inl (state, u) ↦
            subst (IsAccount count index earlier client (request ∷ requests))
              (sym (
                loop-accepted exchange on_state_change on_activity client count index earlier
                  request requests (rw (x, u) refl)))
              (IsAccount-earlier count index earlier client request requests x u (ih state))
        | inr raised ↦
            let (text, numbers, u) =
              value_error_of (update_from_payload client.state reply.payload) raised in
            IsAccount-now count index earlier client request requests (
              inr (
                inr (
                  reply,
                  latency,
                  error,
                  world,
                  text,
                  numbers,
                  x,
                  u,
                  loop-stopped exchange on_state_change on_activity client count index earlier
                      request requests (rw (x, u) refl),
                )))
      ]

  after_answer-IsAccount :
      (client : Client W) (count index : ℕ) (earlier : List L) (request : Message)
      (requests : List Message) (answer : Result (Option Message × L × Option String) × W)
      → ((longer : List L) (next : Client W)
          → IsAccount count (index + 1) longer next requests (
              transact_loop exchange on_state_change on_activity next count
                (index + 1)
                longer
                requests))
      → exchange request client.world ≡ answer
      → IsAccount count index earlier client (request ∷ requests) (
          transact_loop exchange on_state_change on_activity client count index earlier
            (request ∷ requests))
  unfolding step after_exchange
  after_answer-IsAccount client count index earlier request requests (err e, world) ih x =
      IsAccount-now count index earlier client request requests (
        inl (
          e,
          world,
          x,
          loop-stopped exchange on_state_change on_activity client count index earlier request
              requests (rw x refl),
        ))
  after_answer-IsAccount client count index earlier request requests
        (ok (none, latency, error), world) ih x =
      IsAccount-now count index earlier client request requests (
        inr (
          inl (
            latency,
            error,
            world,
            x,
            loop-stopped exchange on_state_change on_activity client count index earlier request
                requests (rw x refl),
          )))
  after_answer-IsAccount client count index earlier request requests
        (ok (some reply, latency, error), world) ih x =
      after_reply-IsAccount client count index earlier request requests reply latency error world
        (λ state. ih (earlier ++ latency ∷ []) (moved_on client request world state)) x

  loop-IsAccount :
      (client : Client W) (count index : ℕ) (earlier : List L) (requests : List Message)
      → IsAccount count index earlier client requests
          (transact_loop exchange on_state_change on_activity client count index earlier requests)
  unfolding transact_loop succeeded
  loop-IsAccount client count index earlier [] =
      inl ([], client, (refl, refl), ap (succeeded count client) (sym (append-nil earlier)))
  loop-IsAccount client count index earlier (request ∷ requests) =
      after_answer-IsAccount client count index earlier request requests
        (exchange request client.world)
        (λ longer next. loop-IsAccount next count (index + 1) longer requests) refl

  -- A call of `transact` ends in one of two ways, where the callbacks raise nothing. Either every
  -- record is accepted, and the result has a latency for each. Or there is a first record that is
  -- not: if its exchange raises, the call raises that; if it has no reply, the result is a failure
  -- with its index from 1 and the latencies before it; if its status cannot be read, the result is a
  -- failure with its index and the latencies up to its own.
  pub transact-IsAccount :
      (client : Client W) (records : List Message)
      → IsAccount
          (length records)
          1
          []
          client
          records
          (transact exchange on_state_change on_activity client records)
  unfolding transact
  transact-IsAccount client records = loop-IsAccount client (length records) 1 [] records
