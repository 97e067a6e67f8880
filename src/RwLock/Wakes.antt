-- ===== src/RwLock/Wakes.antt =====
-- That no wake-up of the read-write lock of src/private/rwlock.c is lost.
use myskl.Prelude.{
  ℕ, zero, suc, ◌+◌, ◌^◌, ◌≤◌, ◌<◌, ◌≡◌, refl, sym, ap, true, false, List, [], ◌∷◌, ◌++◌, arith,
  inl, inr, length, map, length-append,
}
use myskl.RwLock.{
  RwLock, Wake, no_wake, signal_write, broadcast_read, Outcome, returns, waits, ok, nonzero,
  positive, rwl_readlock_woken, rwl_writelock_woken,
}
use myskl.RwLock.System.{
  Phase, total, is_reading, is_writing, waits_to_read, waits_to_write, sleeps_to_read,
  woken_to_write, System, Step, pick, Reach, here, later, IsSignal, after_wake, broadcast,
  unsignalled, fine,
}
use myskl.RwLock.Counts.{total-after_wake, total-length, total-signal, more-total, total-sum}
use myskl.RwLock.Calls.{is_held, rwl_readlock_woken-free, rwl_writelock_woken-free}
use myskl.RwLock.Owed.{Rested, Handed, Owed, Move-Owed}
use myskl.RwLock.Exclusion.{
  IsExact, initial, Reach-IsExact, Reach-length, total-idles, unsignalled-writing,
  unsignalled-waits_to_read, unsignalled-waits_to_write, Counts-subst, broadcast-waits_to_read,
}

abbrev Rest : List Phase → Type 0
Rest ps = Rested (total is_writing ps) (total sleeps_to_read ps)

abbrev Hand : List Phase → Type 0
Hand ps =
    Handed (total is_reading ps) (total is_writing ps) (total waits_to_read ps)
      (total waits_to_write ps) (total woken_to_write ps)

abbrev OwedAll : Wake → List Phase → Type 0
OwedAll no_wake ps = Rest ps × Hand ps
OwedAll signal_write ps = Rest ps
OwedAll broadcast_read ps = 0 < total waits_to_read ps

broadcast-sleeps_to_read : (p : Phase) → sleeps_to_read (broadcast p) ≡ 0
broadcast-sleeps_to_read p = ground arith

pub unsignalled-sleeps_to_read : (p : Phase) → sleeps_to_read (unsignalled p) ≡ sleeps_to_read p
unsignalled-sleeps_to_read p = ground arith

pub total-broadcast : (ps : List Phase) → total sleeps_to_read (map broadcast ps) ≡ 0
total-broadcast [] = refl
total-broadcast (p ∷ ps) = omega (arith, broadcast-sleeps_to_read p, total-broadcast ps)

sleeps-le : (p : Phase) → sleeps_to_read p ≤ waits_to_read p
sleeps-le p = ground arith

pub total-le : (ps : List Phase) → total sleeps_to_read ps ≤ total waits_to_read ps
total-le [] = omega arith
total-le (p ∷ ps) = omega (arith, sleeps-le p, total-le ps)

module _ {signal : List Phase → List Phase} (sig : IsSignal signal) where
  -- The wake pays what is owed.
  after_wake-paid :
      (w : Wake) (ps : List Phase)
      → OwedAll w ps
      → Rest (after_wake signal w ps) × Hand (after_wake signal w ps)
  after_wake-paid no_wake ps owed = owed
  after_wake-paid signal_write ps owed =
      let waiting = total-signal sig waits_to_write unsignalled-waits_to_write ps in
      let sleeping = total-signal sig sleeps_to_read unsignalled-sleeps_to_read ps in
      let writing = total-signal sig is_writing unsignalled-writing ps in
      (omega (arith, owed, sleeping, writing), hand waiting (total waits_to_write ps) refl)
    where
      hand :
          total waits_to_write (signal ps) ≡ total waits_to_write ps
          → (n : ℕ) → total waits_to_write ps ≡ n
          → Hand (signal ps)
      hand waiting zero e = omega arith
      hand waiting (suc n) e = omega (arith, sig.wakes ps (omega arith))
  after_wake-paid broadcast_read ps owed = (
    inr (total-broadcast ps),
    omega (
      arith,
      total-after_wake sig waits_to_read broadcast-waits_to_read unsignalled-waits_to_read
          broadcast_read ps,
    ),
  )

  OwedAll-more :
      (us : List Phase) (p : Phase) (vs : List Phase) (w : Wake)
      → let rest = λ (f : Phase → ℕ). total f us + total f vs in
        Owed
          (rest is_reading)
          (rest is_writing)
          (rest waits_to_read)
          (rest waits_to_write)
          (rest sleeps_to_read)
          (rest woken_to_write)
          w
          p
        → OwedAll w (us ++ p ∷ vs)
  OwedAll-more us p vs no_wake owed =
      let reading = more-total is_reading us p vs in
      let writing = more-total is_writing us p vs in
      let read_waits = more-total waits_to_read us p vs in
      let write_waits = more-total waits_to_write us p vs in
      let sleeping = more-total sleeps_to_read us p vs in
      let woken = more-total woken_to_write us p vs in
      (
        omega (arith, owed.0, writing, sleeping),
        omega (arith, owed.1, writing, reading, read_waits, write_waits, woken),
      )
  OwedAll-more us p vs signal_write owed =
      omega (arith, owed, more-total is_writing us p vs, more-total sleeps_to_read us p vs)
  OwedAll-more us p vs broadcast_read owed = omega (arith, owed, more-total waits_to_read us p vs)

  Step-paid :
      {s t : System}
      → Step signal true s t
      → length s.threads < 2 ^ 31
      → IsExact s
      → Rest s.threads × Hand s.threads
      → Rest t.threads × Hand t.threads
  Step-paid (pick us vs {p} {p'} {w} move) few k old =
      let reading = more-total is_reading us p vs in
      let writing = more-total is_writing us p vs in
      let read_waits = more-total waits_to_read us p vs in
      let write_waits = more-total waits_to_write us p vs in
      let sleeping = more-total sleeps_to_read us p vs in
      let woken = more-total woken_to_write us p vs in
      after_wake-paid w (us ++ p' ∷ vs) (
        OwedAll-more us p' vs w (
          Move-Owed _ _ _ _ _ _ move
            (omega (arith, total-length us, total-length vs, length-append us (p ∷ vs)))
            (omega (arith, total-le us, total-le vs))
            (Counts-subst (sym reading) (sym writing) (sym read_waits) (sym write_waits) k)
            (omega (arith, old.0, writing, sleeping))
            (omega (arith, old.1, writing, reading, read_waits, write_waits, woken))))

  module _ (l : RwLock) where
    Reach-paid :
        {n : ℕ} {s : System}
        → n < 2 ^ 31
        → Reach signal true (initial l n) s
        → Rest s.threads × Hand s.threads
    Reach-paid {n} few here = (
      inr (total-idles sleeps_to_read refl n),
      inr (inr (inl (total-idles waits_to_write refl n))),
    )
    Reach-paid few (later r step) =
        Step-paid step (omega (arith, Reach-length sig l r)) (Reach-IsExact sig l few r)
          (Reach-paid few r)

-- What a thread that has been woken gets from its wait.
abbrev pub resumed : Phase → RwLock → Outcome
resumed Phase.read_woken l = (rwl_readlock_woken fine l).0
resumed Phase.write_woken l = (rwl_writelock_woken fine l).0
resumed _ l = waits

-- A thread that has been woken
pub record IsWoken (ps : List Phase) (l : RwLock) : Type 0 where
  pub before : List Phase
  pub phase : Phase
  pub after : List Phase
  pub split : ps ≡ before ++ phase ∷ after
  pub gets : resumed phase l ≡ returns ok

module _ (l : RwLock) (to_read : resumed Phase.read_woken l ≡ returns ok)
    (to_write : resumed Phase.write_woken l ≡ returns ok) where
  next-IsWoken : (p : Phase) (ps : List Phase) → IsWoken ps l → IsWoken (p ∷ ps) l
  next-IsWoken p ps found = record {
    before = p ∷ found.before;
    phase = found.phase;
    after = found.after;
    split = ap (λ qs. p ∷ qs) found.split;
    gets = found.gets;
  }

  find-IsWoken :
      (ps : List Phase)
      → 0 < total waits_to_read ps + total woken_to_write ps
      → total sleeps_to_read ps ≡ 0
      → IsWoken ps l
  find-IsWoken [] waiting awake = absurd (omega arith)
  find-IsWoken (Phase.read_woken ∷ ps) waiting awake = record {
    before = [];
    phase = _;
    after = ps;
    split = refl;
    gets = to_read;
  }
  find-IsWoken (Phase.write_woken ∷ ps) waiting awake = record {
    before = [];
    phase = _;
    after = ps;
    split = refl;
    gets = to_write;
  }
  find-IsWoken (Phase.read_asleep ∷ ps) waiting awake = absurd (omega arith)
  find-IsWoken (Phase.idle ∷ ps) waiting awake =
      next-IsWoken _ ps (find-IsWoken ps (omega arith) (omega arith))
  find-IsWoken (Phase.reading ∷ ps) waiting awake =
      next-IsWoken _ ps (find-IsWoken ps (omega arith) (omega arith))
  find-IsWoken (Phase.writing ∷ ps) waiting awake =
      next-IsWoken _ ps (find-IsWoken ps (omega arith) (omega arith))
  find-IsWoken (Phase.write_asleep ∷ ps) waiting awake =
      next-IsWoken _ ps (find-IsWoken ps (omega arith) (omega arith))

not_held :
    (l : RwLock)
    → l.w_active ≡ 0
    → l.r_active ≡ 0
    → (nonzero l.w_active ≡ false) × (is_held l ≡ false)
unfolding nonzero positive
not_held l w r = (ground arith, ground arith)

module _ {signal : List Phase → List Phase} (sig : IsSignal signal) (l : RwLock) where
  -- No wake-up is lost: however fewer than 2 ^ 31 threads interleave the calls of a lock that
  -- `rwl_init` has made, with spurious wake-ups but no cancelled wait, when no thread has the lock and
  -- some thread waits for it, then there is a waiting thread that has been woken, and it gets the
  -- lock when it goes on.
  pub no_lost_wake :
      {n : ℕ} {s : System}
      → n < 2 ^ 31
      → Reach signal true (initial l n) s
      → total (λ p. is_reading p + is_writing p) s.threads ≡ 0
      → 0 < total (λ p. waits_to_read p + waits_to_write p) s.threads
      → IsWoken s.threads s.lock
  no_lost_wake {s} few r free waiting =
      let k = Reach-IsExact sig l few r in
      let (rest, hand) = Reach-paid sig l few r in
      let holds = total-sum is_reading is_writing s.threads in
      let waits = total-sum waits_to_read waits_to_write s.threads in
      let (may_read, may_write) =
        not_held s.lock (omega (arith, k.writers, holds)) (omega (arith, k.readers, holds)) in
      find-IsWoken s.lock (ap (λ o. o.0) (rwl_readlock_woken-free s.lock k.valid may_read))
        (ap (λ o. o.0) (rwl_writelock_woken-free s.lock k.valid may_write)) s.threads
        (omega (arith, hand, holds, waits)) (omega (arith, rest, holds))
