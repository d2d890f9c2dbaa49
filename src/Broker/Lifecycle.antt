-- ===== src/Broker/Lifecycle.antt =====
-- How a broker ends.
use mathlib.Core.Path.{subst}
use pi86_rp.Common.{
  sym, [], ◌≡◌, refl, ◌∙◌, if◌then◌else◌, Bool, false, none, ap, arith, Error, os_error,
  runtime_error, Result, ok, err,
}
use pi86_rp.Ownership.{release, LockFile, DeviceOwnership}
use pi86_rp.Broker.{
  state_value, transition, quiesce, finish, signal, join, after_finish, after_signal, after_quiesce,
  unregister, release_ownership, stop_broker, BrokerState, opening, owner_active, quiescing, fault,
  stopped, LoopState, no_loop, open_loop, closed_loop, DeviceBroker, Stopping,
}

-- The state in which a stop signals the loop.
abbrev pub state_quiet : BrokerState → BrokerState
state_quiet owner_active = quiescing
state_quiet fault = quiescing
state_quiet other = other

-- The state behind a stop: a broker that became the owner, or failed, is stopped; one that is
-- opening stays so.
abbrev pub state_after_stop : BrokerState → BrokerState
state_after_stop opening = opening
state_after_stop other = stopped

release-file : (o : DeviceOwnership) (os : LockFile) → (release o os).0 ≡ record { file = none }
unfolding release
release-file o os = ground arith

module _ {S : Type 0} where
  -- What a stop that ends well leaves: no lock of this broker, its audit and its queue.
  abbrev pub IsStopped : Bool → DeviceBroker S → LockFile → Stopping S → Type 0
  IsStopped registered b os (r, after, os') =
      (r ≡ ok tt)
      × (after.state ≡ state_after_stop b.state)
      × (after.registered ≡ registered)
      × (after.ownership ≡ record { file = none })
      × (os' ≡ (release b.ownership os).1)
      × (after.control_audit ≡ b.control_audit)
      × (after.requests ≡ b.requests)

  -- What an exception that leaves a stop leaves: the lock as it was.
  abbrev pub IsAbandoned : Error → BrokerState → DeviceBroker S → LockFile → Stopping S → Type 0
  IsAbandoned e state b os (r, after, os') =
      (r ≡ err e)
      × (after.state ≡ state)
      × (after.registered ≡ b.registered)
      × (after.ownership ≡ b.ownership)
      × (os' ≡ os)

  -- What a stop does whose loop can be signalled, by what unlinking the registry file does.
  abbrev pub Unlinks : Result (Unit {0}) → DeviceBroker S → LockFile → Stopping S → Type 0
  Unlinks (ok done) b os p = IsStopped false b os p
  Unlinks (err (os_error text)) b os p = IsStopped b.registered b os p
  Unlinks (err e) b os p = IsAbandoned e (state_after_stop b.state) b os p

  abbrev pub Stops : Result (Unit {0}) → LoopState → DeviceBroker S → LockFile → Stopping S → Type 0
  Stops unlinked no_loop b os p = Unlinks unlinked b os p
  Stops unlinked open_loop b os p = Unlinks unlinked b os p
  Stops unlinked closed_loop b os p =
      IsAbandoned (runtime_error "Event loop is closed" []) (state_quiet b.state) b os p

  -- The parts of a broker that a transition keeps.
  record IsMoved (state : BrokerState) (b after : DeviceBroker S) : Type 0 where
    reached : after.state ≡ state
    registered : after.registered ≡ b.registered
    ownership : after.ownership ≡ b.ownership
    audit : after.control_audit ≡ b.control_audit
    requests : after.requests ≡ b.requests

  abbrev in_state : DeviceBroker S → BrokerState → DeviceBroker S
  in_state b state = record b {
    state = state;
    snapshot = record b.snapshot { state = state_value state };
  }

  in_state-IsMoved : (b : DeviceBroker S) (state : BrokerState) → IsMoved state b (in_state b state)
  in_state-IsMoved b state = record {
    reached = refl;
    registered = refl;
    ownership = refl;
    audit = refl;
    requests = refl;
  }

  itself-IsMoved : (b : DeviceBroker S) (state : BrokerState) → b.state ≡ state → IsMoved state b b
  itself-IsMoved b state e = record {
    reached = e;
    registered = refl;
    ownership = refl;
    audit = refl;
    requests = refl;
  }

  quiesce-IsMoved :
      (b : DeviceBroker S) (state : BrokerState)
      → b.state ≡ state
      → (quiet : DeviceBroker S) × (quiesce b ≡ ok quiet)
        × (quiet.loop ≡ b.loop)
        × IsMoved (state_quiet state) b quiet
  unfolding transition state_value
  quiesce-IsMoved b opening e = (b, ground arith, refl, itself-IsMoved b opening e)
  quiesce-IsMoved b owner_active e =
      (in_state b quiescing, ground arith, refl, in_state-IsMoved b quiescing)
  quiesce-IsMoved b quiescing e = (b, ground arith, refl, itself-IsMoved b quiescing e)
  quiesce-IsMoved b fault e =
      (in_state b quiescing, ground arith, refl, in_state-IsMoved b quiescing)
  quiesce-IsMoved b stopped e = (b, ground arith, refl, itself-IsMoved b stopped e)

  finish-IsMoved :
      (b : DeviceBroker S) (state : BrokerState)
      → b.state ≡ state_quiet state
      → (done : DeviceBroker S) × (finish b ≡ ok done) × IsMoved (state_after_stop state) b done
  unfolding transition state_value
  finish-IsMoved b opening e = (b, ground arith, itself-IsMoved b opening e)
  finish-IsMoved b owner_active e = (in_state b stopped, ground arith, in_state-IsMoved b stopped)
  finish-IsMoved b quiescing e = (in_state b stopped, ground arith, in_state-IsMoved b stopped)
  finish-IsMoved b fault e = (in_state b stopped, ground arith, in_state-IsMoved b stopped)
  finish-IsMoved b stopped e = (b, ground arith, itself-IsMoved b stopped e)

  IsMoved-IsMoved :
      {state other : BrokerState} {b middle after : DeviceBroker S}
      → IsMoved other b middle
      → IsMoved state middle after
      → IsMoved state b after
  IsMoved-IsMoved m n = record {
    reached = n.reached;
    registered = n.registered ∙ m.registered;
    ownership = n.ownership ∙ m.ownership;
    audit = n.audit ∙ m.audit;
    requests = n.requests ∙ m.requests;
  }

  unregister-Unlinks :
      (unlinked : Result (Unit {0})) (b done : DeviceBroker S) (os : LockFile)
      → IsMoved (state_after_stop b.state) b done
      → Unlinks unlinked b os (unregister unlinked done os)
  unfolding unregister release_ownership
  unregister-Unlinks (ok _) b done os m = (
    refl,
    m.reached,
    refl,
    release-file done.ownership os,
    ap (λ o. (release o os).1) m.ownership,
    m.audit,
    m.requests,
  )
  unregister-Unlinks (err (os_error text)) b done os m = (
    refl,
    m.reached,
    m.registered,
    release-file done.ownership os,
    ap (λ o. (release o os).1) m.ownership,
    m.audit,
    m.requests,
  )
  unregister-Unlinks (err e) b done os m = (refl, m.reached, m.registered, m.ownership, refl)

  finish-Unlinks :
      (unlinked : Result (Unit {0})) (b quiet : DeviceBroker S) (os : LockFile)
      → IsMoved (state_quiet b.state) b quiet
      → Unlinks unlinked b os (after_finish unlinked quiet os (finish quiet))
  finish-Unlinks unlinked b quiet os q =
      let (done, e, m) = finish-IsMoved quiet b.state q.reached in
      subst (λ r. Unlinks unlinked b os (after_finish unlinked quiet os r)) (sym e)
        (unregister-Unlinks unlinked b done os (IsMoved-IsMoved q m))

  join-IsMoved :
      (ended : Bool) {state : BrokerState} {b quiet : DeviceBroker S}
      → IsMoved state b quiet
      → IsMoved state b (join ended quiet)
  unfolding join
  join-IsMoved ended {state} {b} {quiet} q =
      elim quiet.loop
        as (λ l. IsMoved state b (elim l [
          | open_loop ↦ record quiet { loop = if ended then closed_loop else open_loop }
          | other ↦ quiet
        ])) [
          | open_loop ↦ record {
            reached = q.reached;
            registered = q.registered;
            ownership = q.ownership;
            audit = q.audit;
            requests = q.requests;
          }
          | other ↦ q
        ]

  signal-Stops :
      (unlinked : Result (Unit {0})) (ended : Bool) (b quiet : DeviceBroker S) (os : LockFile)
      (loop : LoopState)
      → quiet.loop ≡ loop
      → IsMoved (state_quiet b.state) b quiet
      → Stops unlinked loop b os (after_signal unlinked ended quiet os (signal quiet.loop))
  unfolding signal
  signal-Stops unlinked ended b quiet os no_loop h q =
      subst (λ l. Unlinks unlinked b os (after_signal unlinked ended quiet os (signal l))) (sym h)
        (finish-Unlinks unlinked b (join ended quiet) os (join-IsMoved ended q))
  signal-Stops unlinked ended b quiet os open_loop h q =
      subst (λ l. Unlinks unlinked b os (after_signal unlinked ended quiet os (signal l))) (sym h)
        (finish-Unlinks unlinked b (join ended quiet) os (join-IsMoved ended q))
  signal-Stops unlinked ended b quiet os closed_loop h q =
      subst (λ l. Stops unlinked closed_loop b os (after_signal unlinked ended quiet os (signal l)))
        (sym h) (refl, q.reached, q.registered, q.ownership, refl)

  -- A stop of a broker whose loop is not closed ends well, whether its registry file is unlinked or
  -- an `OSError` keeps it: a broker that is not opening is stopped, the lock is released, and the
  -- audit and the queued exchanges stay. If the loop is closed, as behind an earlier stop or a thread
  -- that died, the stop raises a `RuntimeError` and releases nothing.
  -- Another exception of the unlinking leaves the stop too, before the release.
  pub stop_broker-Stops :
      (unlinked : Result (Unit {0})) (ended : Bool) (b : DeviceBroker S) (os : LockFile)
      → Stops unlinked b.loop b os (stop_broker unlinked ended b os)
  unfolding stop_broker
  stop_broker-Stops unlinked ended b os =
      let (quiet, e, same, q) = quiesce-IsMoved b b.state refl in
      subst (λ r. Stops unlinked b.loop b os (after_quiesce unlinked ended b os r)) (sym e)
        (signal-Stops unlinked ended b quiet os b.loop same q)
