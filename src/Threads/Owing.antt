-- ===== src/Threads/Owing.antt =====
-- What the counters of include/private/skl_threads.h count, and what each atomic section of the
-- macros does for the threads that wait.
use myskl.Prelude.{ℕ, suc, ◌+◌, ◌^◌, ◌≤◌, ◌<◌, ◌≡◌, arith, ◌⊎◌, inl, inr, Bool-cases, subst}
use myskl.RwLock.{Wake, no_wake, signal_write, broadcast_read, nonzero, decr}
use myskl.RwLock.System.{
  Phase, is_reading, is_writing, waits_to_read, waits_to_write, sleeps_to_read, woken_to_write,
}
use myskl.RwLock.Counts.{more}
use myskl.RwLock.Exact.{nonzero-true, nonzero-false}
use myskl.Threads.{
  Guards, is_closed, is_busy, reader_enter, reader_woken, reader_exit, writer_enter, writer_woken,
  writer_exit,
}
use myskl.Threads.Guarded.{
  Move, read_enter, read_resume, read_exit, write_enter, write_resume, write_exit, entry,
}
use myskl.Threads.Entering.{
  incr_uint, decr_uint, is_closed-true, is_closed-false, is_busy-true, is_busy-false,
  reader_enter-closed, reader_enter-open, reader_woken-closed, reader_woken-open, writer_enter-busy,
  writer_enter-free, writer_woken-busy, writer_woken-free, reader_exit-waited, reader_exit-quiet,
  writer_exit-writer, writer_exit-readers, writer_exit-quiet,
}

-- `r` threads read, `w` write, `rw` wait to read and `ww` to write; and nobody writes, or one thread
-- does and nobody reads.
pub record Counted (g : Guards) (r w rw ww : ℕ) : Type 0 where
  pub readers : g.readers ≡ r
  pub writers : g.writers ≡ w
  pub read_waits : g.read_waiters ≡ rw
  pub write_waits : g.write_waiters ≡ ww
  pub alone : (w ≡ 0) ⊎ ((w ≡ 1) × (r ≡ 0))

-- No reader sleeps unless a thread writes or waits to.
abbrev pub Rested : ℕ → ℕ → ℕ → Type 0
Rested w ww asleep = (0 < w + ww) ⊎ (asleep ≡ 0)

-- If nobody is inside and a writer waits, then a writer has been woken.
abbrev pub Handed : ℕ → ℕ → ℕ → ℕ → Type 0
Handed r w ww woken = (0 < r + w) ⊎ ((ww ≡ 0) ⊎ (0 < woken))

-- What is owed when the wake is still to come.
abbrev pub Owed : Wake → ℕ → ℕ → ℕ → ℕ → ℕ → Type 0
Owed no_wake r w ww asleep woken = Rested w ww asleep × Handed r w ww woken
Owed signal_write r w ww asleep woken = Rested w ww asleep
Owed broadcast_read r w ww asleep woken = ww ≡ 0

-- The other threads: `a` read, `b` write, `c` wait to read, `d` to write, `e` readers sleep and `f`
-- writers have been woken.
module _ (a b c d e f : ℕ) where
  abbrev pub CountedWith : Guards → Phase → Type 0
  CountedWith g p =
      Counted g (more (is_reading p) a) (more (is_writing p) b) (more (waits_to_read p) c)
        (more (waits_to_write p) d)

  abbrev pub OwedWith : Wake → Phase → Type 0
  OwedWith wake p =
      Owed wake (more (is_reading p) a) (more (is_writing p) b) (more (waits_to_write p) d)
        (more (sleeps_to_read p) e) (more (woken_to_write p) f)

  abbrev pub Fair : Guards → Wake → Phase → Type 0
  Fair g wake p = CountedWith g p × OwedWith wake p

  module _ {g : Guards} (few : a + b + c + d + 1 < 2 ^ 32) where
    reader_enter-Fair :
        Fair g no_wake Phase.idle
        → Fair (reader_enter g).1 no_wake (entry Phase.reading Phase.read_asleep (reader_enter g).0)
    reader_enter-Fair (k, owed) = elim (Bool-cases (is_closed g)) [
      | inl closed ↦ rw (reader_enter-closed g closed) (
        record {
          readers = k.readers;
          writers = k.writers;
          read_waits =
              omega (arith, k.read_waits, incr_uint g.read_waiters (omega (arith, k.read_waits)));
          write_waits = k.write_waits;
          alone = k.alone;
        },
        (omega (arith, is_closed-true g closed, k.writers, k.write_waits), owed.1),
      )
      | inr opened ↦ rw (reader_enter-open g opened) (
        record {
          readers = omega (arith, k.readers, incr_uint g.readers (omega (arith, k.readers)));
          writers = k.writers;
          read_waits = k.read_waits;
          write_waits = k.write_waits;
          alone = omega (arith, is_closed-false g opened, k.writers);
        },
        (owed.0, omega arith),
      )
    ]

    reader_woken-Fair :
        Fair g no_wake Phase.read_woken
        → Fair (reader_woken g).1 no_wake (entry Phase.reading Phase.read_asleep (reader_woken g).0)
    reader_woken-Fair (k, owed) = elim (Bool-cases (is_closed g)) [
      | inl closed ↦
          rw (reader_woken-closed g closed)
            (k, (omega (arith, is_closed-true g closed, k.writers, k.write_waits), owed.1))
      | inr opened ↦ rw (reader_woken-open g opened) (
        record {
          readers = omega (arith, k.readers, incr_uint g.readers (omega (arith, k.readers)));
          writers = k.writers;
          read_waits = omega (
            arith,
            k.read_waits,
            decr_uint g.read_waiters (omega (arith, k.read_waits)) (omega (arith, k.read_waits)),
          );
          write_waits = k.write_waits;
          alone = omega (arith, is_closed-false g opened, k.writers);
        },
        (owed.0, omega arith),
      )
    ]

    writer_woken-Fair :
        CountedWith g Phase.write_woken
        → Rested b (suc d) e
        → Fair
            (writer_woken g).1
            no_wake
            (entry Phase.writing Phase.write_asleep (writer_woken g).0)
    writer_woken-Fair k rest = elim (Bool-cases (is_busy g)) [
      | inl busy ↦
          rw (writer_woken-busy g busy)
            (k, (rest, omega (arith, is_busy-true g busy, k.readers, k.writers)))
      | inr free ↦ rw (writer_woken-free g free) (
        record {
          readers = k.readers;
          writers = omega (arith, is_busy-false g free, k.writers);
          read_waits = k.read_waits;
          write_waits = omega (
            arith,
            k.write_waits,
            decr_uint g.write_waiters (omega (arith, k.write_waits)) (omega (arith, k.write_waits)),
          );
          alone = omega (arith, is_busy-false g free, k.readers, k.writers);
        },
        (omega arith, omega arith),
      )
    ]

    reader_exit-Fair :
        Fair g no_wake Phase.reading → Fair (reader_exit g).1 (reader_exit g).0 Phase.idle
    reader_exit-Fair (k, owed) =
        let left : Counted (record g { readers = decr g.readers }) a b c d = record {
          readers = omega (
            arith,
            k.readers,
            decr_uint g.readers (omega (arith, k.readers)) (omega (arith, k.readers)),
          );
          writers = k.writers;
          read_waits = k.read_waits;
          write_waits = k.write_waits;
          alone = omega (arith, k.alone);
        } in
        elim (Bool-cases (nonzero g.write_waiters)) [
          | inl waited ↦ rw (reader_exit-waited g waited) (left, owed.0)
          | inr quiet ↦
              rw (reader_exit-quiet g quiet)
                (left, (owed.0, omega (arith, k.write_waits, nonzero-false g.write_waiters quiet)))
        ]

    writer_enter-Fair :
        Fair g no_wake Phase.idle
        → Fair
            (writer_enter g).1
            no_wake
            (entry Phase.writing Phase.write_asleep (writer_enter g).0)
    writer_enter-Fair (k, owed) = elim (Bool-cases (is_busy g)) [
      | inl busy ↦ rw (writer_enter-busy g busy) (
        record {
          readers = k.readers;
          writers = k.writers;
          read_waits = k.read_waits;
          write_waits =
              omega
                (arith, k.write_waits, incr_uint g.write_waiters (omega (arith, k.write_waits)));
          alone = k.alone;
        },
        (omega arith, omega (arith, is_busy-true g busy, k.readers, k.writers)),
      )
      | inr free ↦ rw (writer_enter-free g free) (
        record {
          readers = k.readers;
          writers = omega (arith, is_busy-false g free, k.writers);
          read_waits = k.read_waits;
          write_waits = k.write_waits;
          alone = omega (arith, is_busy-false g free, k.readers, k.writers);
        },
        (omega arith, omega arith),
      )
    ]

    writer_exit-Fair :
        e ≤ c → Fair g no_wake Phase.writing → Fair (writer_exit g).1 (writer_exit g).0 Phase.idle
    writer_exit-Fair part (k, owed) =
        let left : Counted (record g { writers = 0 }) a b c d = record {
          readers = k.readers;
          writers = omega (arith, k.alone);
          read_waits = k.read_waits;
          write_waits = k.write_waits;
          alone = omega (arith, k.alone);
        } in
        elim (Bool-cases (nonzero g.write_waiters)) [
          | inl waited ↦
              rw (writer_exit-writer g waited)
                (left, omega (arith, k.write_waits, nonzero-true g.write_waiters waited))
          | inr quiet ↦ elim (Bool-cases (nonzero g.read_waiters)) [
            | inl readers ↦
                rw (writer_exit-readers g quiet readers)
                  (left, omega (arith, k.write_waits, nonzero-false g.write_waiters quiet))
            | inr none ↦ rw (writer_exit-quiet g quiet none) (
              left,
              (
                omega (arith, part, k.read_waits, nonzero-false g.read_waiters none),
                omega (arith, k.write_waits, nonzero-false g.write_waiters quiet),
              ),
            )
          ]
        ]

    pub Move-Fair :
        {g' : Guards} {p p' : Phase} {wake : Wake}
        → Move g p g' p' wake
        → e ≤ c
        → Fair g no_wake p
        → Fair g' wake p'
    Move-Fair read_enter part fair = reader_enter-Fair fair
    Move-Fair (read_resume p (inl e')) part fair =
        reader_woken-Fair (subst (Fair g no_wake) e' fair)
    Move-Fair (read_resume p (inr e')) part fair =
        let (k, owed) = subst (Fair g no_wake) e' fair in
        reader_woken-Fair (k, (omega (arith, owed.0), owed.1))
    Move-Fair read_exit part fair = reader_exit-Fair fair
    Move-Fair write_enter part fair = writer_enter-Fair fair
    Move-Fair (write_resume p (inl e')) part fair =
        let (k, owed) = subst (Fair g no_wake) e' fair in writer_woken-Fair k owed.0
    Move-Fair (write_resume p (inr e')) part fair =
        let (k, owed) = subst (Fair g no_wake) e' fair in writer_woken-Fair k owed.0
    Move-Fair write_exit part fair = writer_exit-Fair part fair
