-- ===== src/RwLock/Lifetime.antt =====
-- `rwl_init` and `rwl_destroy` of src/private/rwlock.c.
use myskl.Prelude.{
  ℕ, ◌+◌, ◌^◌, ◌<◌, ◌≡◌, ◌≢◌, refl, Bool, true, false, not, ◌==◌, ◌||◌, List, arith, ◌⊎◌, inl, inr,
  Bool-cases, if◌then◌else◌, length,
}
use myskl.RwLock.{
  Errno, ok, ebusy, is_ok, Pthread, RwLock, rwlock_valid, positive, nonzero, rwl_init, rwl_destroy,
}
use myskl.RwLock.System.{
  Phase, total, is_reading, is_writing, waits_to_read, waits_to_write, System, Reach, IsSignal,
  fine,
}
use myskl.RwLock.Counts.{total-sum, total-length}
use myskl.RwLock.Calls.{valid-true}
use myskl.RwLock.Exclusion.{initial, Reach-IsExact, IsExact, Reach-length}
use myskl.RwLock.Exact.{positive_lem}

-- A new lock: everything is initialised and nobody holds it or waits.
abbrev pub new_lock : RwLock
new_lock = record {
  mutex = true;
  read = true;
  write = true;
  valid = rwlock_valid;
  r_active = 0;
  w_active = 0;
  r_wait = 0;
  w_wait = 0;
}

-- Nothing of the lock is initialised.
pub record IsRaw (l : RwLock) : Type 0 where
  pub mutex : l.mutex ≡ false
  pub read : l.read ≡ false
  pub write : l.write ≡ false

is_ok-false : (e : Errno) → is_ok e ≡ false → e ≢ ok
unfolding is_ok
is_ok-false e h = ground arith

is_ok-true : (e : Errno) → e ≡ ok → is_ok e ≡ true
unfolding is_ok
is_ok-true e h = rw h refl

-- `rwl_init` of memory in which nothing is initialised, when the calls that destroy succeed, is
-- all or nothing: it returns 0 and the lock is a new one, or it returns an error, nothing is
-- initialised and the mark of a valid lock has not been set.
pub rwl_init_lem :
    (p : Pthread) (l : RwLock)
    → IsRaw l
    → p.mutex_destroy ≡ ok
    → p.read_destroy ≡ ok
    → let (e, l') = rwl_init p l in
      ((e ≡ ok) × (l' ≡ new_lock)) ⊎ ((e ≢ ok) × IsRaw l' × (l'.valid ≡ l.valid))
unfolding rwl_init
rwl_init_lem p l raw m r =
    let m' = is_ok-true p.mutex_destroy m in
    let r' = is_ok-true p.read_destroy r in
    elim (Bool-cases (is_ok p.mutex_init)) [
      | inr bad ↦ rw bad (
          inr (
            is_ok-false p.mutex_init bad,
            record { mutex = raw.mutex; read = raw.read; write = raw.write },
            refl,
          ))
      | inl mutex ↦ elim (Bool-cases (is_ok p.read_init)) [
        | inr bad ↦
            rw (mutex, bad, m')
              (inr (
                is_ok-false p.read_init bad,
                record { mutex = refl; read = raw.read; write = raw.write },
                refl,
              ))
        | inl read ↦ elim (Bool-cases (is_ok p.write_init)) [
          | inr bad ↦
              rw (mutex, read, bad, m', r')
                (inr (
                  is_ok-false p.write_init bad,
                  record { mutex = refl; read = refl; write = raw.write },
                  refl,
                ))
          | inl write ↦ rw (mutex, read, write) (inl (refl, refl))
        ]
      ]
    ]

-- What is left of a lock that has been destroyed.
abbrev pub destroyed : RwLock → RwLock
destroyed l = record l { valid = 0; mutex = false; read = false; write = false }

-- A thread that holds the lock or waits for it
abbrev pub is_busy : Phase → ℕ
is_busy p = (is_reading p + is_writing p) + (waits_to_read p + waits_to_write p)

abbrev has_holder : RwLock → Bool
has_holder l = positive l.r_active || nonzero l.w_active

abbrev has_waiter : RwLock → Bool
has_waiter l = nonzero l.r_wait || nonzero l.w_wait

module _ (l : RwLock) (valid : l.valid ≡ rwlock_valid) where
  rwl_destroy-busy : has_holder l || has_waiter l ≡ true → rwl_destroy fine l ≡ (ebusy, l)
  unfolding rwl_destroy is_ok
  rwl_destroy-busy e = elim (Bool-cases (has_holder l)) [
    | inl held ↦ rw (valid-true l valid, held)
    | inr none ↦ rw (valid-true l valid, none, rw none at e)
  ]

  rwl_destroy-free : has_holder l || has_waiter l ≡ false → rwl_destroy fine l ≡ (ok, destroyed l)
  unfolding rwl_destroy is_ok
  rwl_destroy-free e = elim (Bool-cases (has_holder l)) [
    | inl held ↦ absurd (ground arith)
    | inr none ↦ rw (valid-true l valid, none, rw none at e)
  ]

total-is_busy :
    (ps : List Phase)
    → total is_busy ps
      ≡ total is_reading ps
        + total is_writing ps
        + (total waits_to_read ps + total waits_to_write ps)
total-is_busy ps = omega (
  arith,
  total-sum (λ p. is_reading p + is_writing p) (λ p. waits_to_read p + waits_to_write p) ps,
  total-sum is_reading is_writing ps,
  total-sum waits_to_read waits_to_write ps,
)

IsExact-busy :
    (s : System)
    → IsExact s
    → length s.threads < 2 ^ 31
    → has_holder s.lock || has_waiter s.lock ≡ not (total is_busy s.threads == 0)
unfolding nonzero
IsExact-busy s k few = ground (
  arith,
  k.readers,
  k.writers,
  k.read_waits,
  k.write_waits,
  total-is_busy s.threads,
  total-length s.threads,
  positive_lem s.lock.r_active (omega (arith, k.readers, total-length s.threads)),
)

module _ {signal : List Phase → List Phase} (sig : IsSignal signal) (l : RwLock) where
  -- At any point of a run of fewer than 2 ^ 31 threads over a lock that `rwl_init` has made, when its
  -- calls of the threads library succeed, `rwl_destroy` returns EBUSY and leaves the lock as it is if
  -- some thread holds it or waits for it, and otherwise it returns 0 and destroys the lock.
  pub rwl_destroy_lem :
      {calm : Bool} {n : ℕ} {s : System}
      → n < 2 ^ 31
      → Reach signal calm (initial l n) s
      → rwl_destroy fine s.lock
        ≡ (if total is_busy s.threads == 0 then (ok, destroyed s.lock) else (ebusy, s.lock))
  rwl_destroy_lem {s} few r =
      let k = Reach-IsExact sig l few r in
      let busy = IsExact-busy s k (omega (arith, Reach-length sig l r)) in
      elim (Bool-cases (total is_busy s.threads == 0)) [
        | inl free ↦ rw free (rwl_destroy-free s.lock k.valid (rw free at busy))
        | inr some ↦ rw some (rwl_destroy-busy s.lock k.valid (rw some at busy))
      ]
