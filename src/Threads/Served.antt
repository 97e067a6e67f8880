-- ===== src/Threads/Served.antt =====
-- That no wake-up of the macros of include/private/skl_threads.h is lost.
use myskl.Prelude.{
  ℕ, ◌<◌, ◌≡◌, refl, ap, List, [], ◌∷◌, ◌++◌, arith, suc, zero, ◌+◌, ◌^◌, Bool-cases, ◌==◌, inl,
  inr,
}
use myskl.RwLock.System.{
  Phase, total, woken_to_write, waits_to_read, waits_to_write, sleeps_to_read, IsSignal, is_reading,
  is_writing,
}
use myskl.Threads.{Guards, Entry, enters, sleeps, reader_woken, writer_woken}
use myskl.RwLock.Counts.{total-sum}
use myskl.Threads.Guarded.{Shared}
use myskl.Threads.Entering.{closed-false, busy-false, reader_woken-open, writer_woken-free}
use myskl.Threads.Fairness.{initial, Reach, Reach-IsFair}

-- What a thread that has been woken gets from its wait.
abbrev pub resumed : Phase → Guards → Entry
resumed Phase.read_woken g = (reader_woken g).0
resumed Phase.write_woken g = (writer_woken g).0
resumed _ g = sleeps

-- A thread that has been woken and goes on
pub record IsServed (ps : List Phase) (g : Guards) : Type 0 where
  pub before : List Phase
  pub phase : Phase
  pub after : List Phase
  pub split : ps ≡ before ++ phase ∷ after
  pub gets : resumed phase g ≡ enters

abbrev woken_to_read : Phase → ℕ
woken_to_read Phase.read_woken = 1
woken_to_read _ = 0

module _ (g : Guards) (f : Phase → ℕ) (gets : (p : Phase) → 0 < f p → resumed p g ≡ enters) where
  find-IsServed : (ps : List Phase) → 0 < total f ps → IsServed ps g
  find-IsServed [] pos = absurd (omega arith)
  find-IsServed (p ∷ ps) pos = split (λ more. find-IsServed ps more) (f p) refl
    where
      split : (0 < total f ps → IsServed ps g) → (k : ℕ) → f p ≡ k → IsServed (p ∷ ps) g
      split later zero e =
          let found = later (omega arith) in
          record {
            before = p ∷ found.before;
            phase = found.phase;
            after = found.after;
            split = ap (λ qs. p ∷ qs) found.split;
            gets = found.gets;
          }
      split later (suc k) e = record {
        before = [];
        phase = p;
        after = ps;
        split = refl;
        gets = gets p (omega (arith, e));
      }

woken_to_read-gets :
    (g : Guards)
    → (reader_woken g).0 ≡ enters
    → (p : Phase) → 0 < woken_to_read p
    → resumed p g ≡ enters
woken_to_read-gets g e Phase.read_woken pos = e
woken_to_read-gets g e Phase.idle pos = absurd (omega arith)
woken_to_read-gets g e Phase.reading pos = absurd (omega arith)
woken_to_read-gets g e Phase.writing pos = absurd (omega arith)
woken_to_read-gets g e Phase.read_asleep pos = absurd (omega arith)
woken_to_read-gets g e Phase.write_asleep pos = absurd (omega arith)
woken_to_read-gets g e Phase.write_woken pos = absurd (omega arith)

woken_to_write-gets :
    (g : Guards)
    → (writer_woken g).0 ≡ enters
    → (p : Phase) → 0 < woken_to_write p
    → resumed p g ≡ enters
woken_to_write-gets g e Phase.write_woken pos = e
woken_to_write-gets g e Phase.idle pos = absurd (omega arith)
woken_to_write-gets g e Phase.reading pos = absurd (omega arith)
woken_to_write-gets g e Phase.writing pos = absurd (omega arith)
woken_to_write-gets g e Phase.read_asleep pos = absurd (omega arith)
woken_to_write-gets g e Phase.write_asleep pos = absurd (omega arith)
woken_to_write-gets g e Phase.read_woken pos = absurd (omega arith)

total-waits_to_read :
    (ps : List Phase) → total waits_to_read ps ≡ total sleeps_to_read ps + total woken_to_read ps
total-waits_to_read [] = omega arith
total-waits_to_read (p ∷ ps) = omega (arith, one p, total-waits_to_read ps)
  where
    one : (p : Phase) → waits_to_read p ≡ sleeps_to_read p + woken_to_read p
    one p = ground arith

module _ {L : Type 0} {signal : List Phase → List Phase} (sig : IsSignal signal) (g : Guards)
    (x : L) where
  -- No wake-up is lost: however fewer than 2 ^ 32 threads go through the macros around the
  -- operations, from the state that RW_INIT makes, with spurious wake-ups, when no thread is inside
  -- and some thread waits to get in, then there is a waiting thread that has been woken, and it gets
  -- in when it goes on.
  pub waiting-IsServed :
      {n : ℕ} {s : Shared L}
      → n < 2 ^ 32
      → Reach sig (initial sig g x n) s
      → total (λ p. is_reading p + is_writing p) s.threads ≡ 0
      → 0 < total (λ p. waits_to_read p + waits_to_write p) s.threads
      → IsServed s.threads s.guards
  waiting-IsServed {s} few run free waiting =
      let (k, (rest, hand)) = Reach-IsFair sig g x few run in
      let holds = total-sum is_reading is_writing s.threads in
      let waits = total-sum waits_to_read waits_to_write s.threads in
      elim (Bool-cases (total waits_to_write s.threads == 0)) [
        | inl none ↦
            let opened =
              reader_woken-open s.guards
                (closed-false s.guards (ground (arith, holds, k.writers, k.write_waits))) in
            find-IsServed s.guards woken_to_read
              (woken_to_read-gets s.guards (ap (λ o. o.0) opened)) s.threads
              (ground (arith, total-waits_to_read s.threads, rest, holds, waits))
        | inr some ↦
            let freed =
              writer_woken-free s.guards
                (busy-false s.guards (omega (arith, holds, k.readers, k.writers))) in
            find-IsServed s.guards woken_to_write
              (woken_to_write-gets s.guards (ap (λ o. o.0) freed)) s.threads
              (ground (arith, hand, holds))
      ]
