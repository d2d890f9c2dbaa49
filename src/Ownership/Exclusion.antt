-- ===== src/Ownership/Exclusion.antt =====
-- Processes that acquire and release a device in any order: at most one of them owns it.
use pi86_rp.Common.{
  ℕ, ◌<◌, ◌≡◌, refl, sym, ◌∙◌, inl, inr, none, some, arith, ◌==◌, if◌then◌else◌, ==_refl,
  Option-cases, ok,
}
use pi86_rp.Ownership.{flock, unlock, take_lock, acquire, release, LockFile, DeviceOwnership}

pub record System : Type 0 where
  pub owners : ℕ → DeviceOwnership
  pub os : LockFile

abbrev pub put : (ℕ → DeviceOwnership) → ℕ → DeviceOwnership → ℕ → DeviceOwnership
put owners i o j = if i == j then o else owners j

-- A call of process `i`.
unfoldable pub acquired : System → ℕ → System
acquired s i =
    let (_, o, os) = acquire (s.owners i) s.os in record { owners = put s.owners i o; os = os }

unfoldable pub released : System → ℕ → System
released s i =
    let (o, os) = release (s.owners i) s.os in record { owners = put s.owners i o; os = os }

pub data Step : System → System → Type 0 where
  acquires : (s : System) (i : ℕ) → Step s (acquired s i)
  releases : (s : System) (i : ℕ) → Step s (released s i)

pub data Reach (s : System) : System → Type 0 where
  here : Reach s s
  next : {t u : System} → Reach s t → Step t u → Reach s u

abbrev pub start : System
start = record {
  owners = λ i. record { file = none };
  os = record { locked_by = none; next_handle = 0 };
}

-- Whoever has a handle holds the lock with it, and nobody else has that handle.
pub record IsExclusive (s : System) : Type 0 where
  pub held :
      (i h : ℕ) → (s.owners i).file ≡ some h → (s.os.locked_by ≡ some h) × (h < s.os.next_handle)
  pub unique : (i j h : ℕ) → (s.owners i).file ≡ some h → (s.owners j).file ≡ some h → i ≡ j

start-IsExclusive : IsExclusive start
start-IsExclusive = record { held = λ i h e. cc; unique = λ i j h e f. cc }

acquired-IsExclusive : (s : System) (i : ℕ) → IsExclusive s → IsExclusive (acquired s i)
unfolding acquired acquire take_lock flock unlock
acquired-IsExclusive s i v = record {
  held = λ j h e. ground (arith, v.held j h, v.held i h);
  unique = λ j k h e f. ground (arith, v.unique j k h, v.held j h, v.held k h, v.held i h);
}

released-IsExclusive : (s : System) (i : ℕ) → IsExclusive s → IsExclusive (released s i)
unfolding released release unlock
released-IsExclusive s i v = record {
  held = λ j h e. ground (arith, v.held j h, v.held i h, v.unique i j h);
  unique = λ j k h e f. ground (arith, v.unique j k h);
}

Reach-IsExclusive : {s : System} → Reach start s → IsExclusive s
Reach-IsExclusive here = start-IsExclusive
Reach-IsExclusive (next r (acquires t i)) = acquired-IsExclusive t i (Reach-IsExclusive r)
Reach-IsExclusive (next r (releases t i)) = released-IsExclusive t i (Reach-IsExclusive r)

-- Whatever processes acquire and release the device, in whatever order, two that own it are one.
pub Reach-one_owner :
    {s : System}
    → Reach start s
    → (i j h k : ℕ) → (s.owners i).file ≡ some h
    → (s.owners j).file ≡ some k
    → i ≡ j
Reach-one_owner r i j h k e f =
    let v = Reach-IsExclusive r in
    let a = v.held i h e in
    let b = v.held j k f in
    let same : some h ≡ some k = sym a.0 ∙ b.0 in v.unique i j h e (f ∙ sym same)

others_idle :
    (s : System) (i j h : ℕ)
    → IsExclusive s
    → (s.owners i).file ≡ some h
    → ((released s i).owners j).file ≡ none
unfolding released release unlock
others_idle s i j h v e = elim (Option-cases (s.owners j).file) [
  | inl idle ↦ ground arith
  | inr (k, busy) ↦
      let a = v.held i h e in
      let b = v.held j k busy in
      let same : some k ≡ some h = sym b.0 ∙ a.0 in
      let one : i ≡ j = v.unique i j h e (busy ∙ same) in ground arith
]

unlocked :
    (s : System) (i h : ℕ)
    → (s.owners i).file ≡ some h
    → s.os.locked_by ≡ some h
    → (released s i).os.locked_by ≡ none
unfolding released release unlock
unlocked s i h e l = rw (e, l, ==_refl h) refl

acquire_free :
    (o : DeviceOwnership) (os : LockFile)
    → o.file ≡ none
    → os.locked_by ≡ none
    → (acquire o os).0 ≡ ok tt
unfolding acquire take_lock flock
acquire_free o os e l = rw (e, l) refl

-- When the owner of a device releases it, any process that asks next gets it.
pub Reach-released :
    {s : System}
    → Reach start s
    → (i j h : ℕ) → (s.owners i).file ≡ some h
    → (acquire ((released s i).owners j) (released s i).os).0 ≡ ok tt
Reach-released {s} r i j h e =
    let v = Reach-IsExclusive r in
    let idle = others_idle s i j h v e in
    acquire_free ((released s i).owners j) (released s i).os idle
      (unlocked s i h e (v.held i h e).0)
