-- ===== src/Examples/Processes.antt =====
-- Processes that contend for a device at concrete inputs.
use pi86_rp.Common.{ℕ, ◌≡◌, refl, none, some, ok}
use pi86_rp.Ownership.{flock, unlock, take_lock, acquire}
use pi86_rp.Ownership.Exclusion.{
  acquired, released, start, Reach-one_owner, Reach-released, System, acquires, Reach, here, next,
}

abbrev first_process : ℕ
first_process = 0

abbrev first_handle : ℕ
first_handle = 0

abbrev contended : System
contended = acquired (acquired start 0) 1

contended_reached : Reach start contended
contended_reached = next (next here (acquires start 0)) (acquires (acquired start 0) 1)

first_owns : (contended.owners first_process).file ≡ some first_handle
unfolding acquired acquire take_lock flock unlock
first_owns = refl

second_waits : (contended.owners 1).file ≡ none
unfolding acquired acquire take_lock flock unlock
second_waits = refl

Reach-one_owner_example : first_process ≡ first_process
Reach-one_owner_example =
    Reach-one_owner contended_reached first_process first_process first_handle first_handle
      first_owns first_owns

Reach-released_example :
    (acquire ((released contended first_process).owners 1) (released contended first_process).os).0
    ≡ ok tt
Reach-released_example = Reach-released contended_reached first_process 1 first_handle first_owns
