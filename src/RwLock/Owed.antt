-- ===== src/RwLock/Owed.antt =====
-- What each atomic section of the read-write lock of src/private/rwlock.c does for the threads that
-- wait.
use myskl.Prelude.{
  ℕ, suc, ◌+◌, ◌^◌, ◌≤◌, ◌<◌, ◌≡◌, true, false, arith, ◌⊎◌, inl, inr, Bool-cases, ◌&&◌, ◌==◌, subst,
}
use myskl.RwLock.{
  RwLock, Wake, no_wake, signal_write, broadcast_read, decr, positive, nonzero, is_ok,
  rwl_readlock_woken, rwl_writelock_woken,
}
use myskl.RwLock.System.{
  Phase, Move, read_lock, read_trylock, read_unlock, write_lock, write_trylock, write_unlock,
  read_resume, write_resume, read_cancel, write_cancel, is_reading, is_writing, waits_to_read,
  waits_to_write, sleeps_to_read, woken_to_write, fine, entered,
}
use myskl.RwLock.Counts.{more}
use myskl.RwLock.Calls.{
  is_held, rwl_readlock-held, rwl_readlock-free, rwl_readlock_woken-held, rwl_readlock_woken-free,
  rwl_readtrylock-held, rwl_readtrylock-free, rwl_readunlock-last, rwl_readunlock-other,
  rwl_writelock-held, rwl_writelock-free, rwl_writelock_woken-held, rwl_writelock_woken-free,
  rwl_writetrylock-held, rwl_writetrylock-free, rwl_writeunlock-readers, rwl_writeunlock-writer,
  rwl_writeunlock-nobody,
}
use myskl.RwLock.Exact.{Counts, With, nonzero-true, positive_lem, decr_lem}

-- No reader sleeps unless a thread writes.
abbrev pub Rested : ℕ → ℕ → Type 0
Rested w asleep = (0 < w) ⊎ (asleep ≡ 0)

-- If nobody holds the lock and a writer waits, then a writer has been woken or a reader waits.
abbrev pub Handed : ℕ → ℕ → ℕ → ℕ → ℕ → Type 0
Handed r w rw ww woken = (0 < w) ⊎ ((0 < r) ⊎ ((ww ≡ 0) ⊎ (0 < woken + rw)))

module _ (a b c d e f : ℕ) where
  abbrev pub Rests : Phase → Type 0
  Rests p = Rested (more (is_writing p) b) (more (sleeps_to_read p) e)

  abbrev pub Hands : Phase → Type 0
  Hands p =
      Handed (more (is_reading p) a) (more (is_writing p) b) (more (waits_to_read p) c)
        (more (waits_to_write p) d) (more (woken_to_write p) f)

  -- What is owed when the wake is still to come.
  abbrev pub Owed : Wake → Phase → Type 0
  Owed no_wake p = Rests p × Hands p
  Owed signal_write p = Rests p
  Owed broadcast_read p = 0 < more (waits_to_read p) c

  read_resume-Owed :
      {l : RwLock}
      → a + b + c + d + 1 < 2 ^ 31
      → Counts l a b (suc c) d
      → Rested b e
      → Owed no_wake
          (entered Phase.idle Phase.reading Phase.read_asleep (rwl_readlock_woken fine l).0)
  unfolding is_ok
  read_resume-Owed {l} few k rest = elim (Bool-cases (nonzero l.w_active)) [
    | inl held ↦ rw (rwl_readlock_woken-held l k.valid held) (
      omega (arith, k.writers, nonzero-true l.w_active held),
      omega (arith, k.writers, nonzero-true l.w_active held),
    )
    | inr free ↦ rw (rwl_readlock_woken-free l k.valid free) (omega (arith, rest), omega arith)
  ]

  held-true :
      {l : RwLock} {rw ww : ℕ}
      → a + b + rw + ww < 2 ^ 31
      → Counts l a b rw ww
      → is_held l ≡ true
      → 0 < a + b
  unfolding nonzero
  held-true {l} few k held =
      ground (arith, k.writers, k.readers, positive_lem l.r_active (omega (arith, k.readers)))

  write_resume-Owed :
      {l : RwLock}
      → a + b + c + d + 1 < 2 ^ 31
      → Counts l a b c (suc d)
      → Rested b e
      → Owed no_wake
          (entered Phase.idle Phase.writing Phase.write_asleep (rwl_writelock_woken fine l).0)
  unfolding is_ok
  write_resume-Owed {l} few k rest = elim (Bool-cases (is_held l)) [
    | inl held ↦
        rw (rwl_writelock_woken-held l k.valid held)
          (rest, omega (arith, held-true (omega arith) k held))
    | inr free ↦ rw (rwl_writelock_woken-free l k.valid free) (omega arith, omega arith)
  ]

  pub Move-Owed :
      {l l' : RwLock} {p p' : Phase} {wake : Wake}
      → Move true l p l' p' wake
      → a + b + c + d + 1 < 2 ^ 31
      → e ≤ c
      → With a b c d l p
      → Rests p
      → Hands p
      → Owed wake p'
  unfolding is_ok
  Move-Owed {l} read_lock few part k rest hand = elim (Bool-cases (nonzero l.w_active)) [
    | inl held ↦ rw (rwl_readlock-held l k.valid held) (
      omega (arith, k.writers, nonzero-true l.w_active held),
      omega (arith, k.writers, nonzero-true l.w_active held),
    )
    | inr free ↦ rw (rwl_readlock-free l k.valid free) (rest, omega arith)
  ]
  Move-Owed {l} read_trylock few part k rest hand = elim (Bool-cases (nonzero l.w_active)) [
    | inl held ↦ rw (rwl_readtrylock-held l k.valid held) (rest, hand)
    | inr free ↦ rw (rwl_readtrylock-free l k.valid free) (rest, omega arith)
  ]
  Move-Owed {l} read_unlock few part k rest hand =
      elim (Bool-cases ((decr l.r_active == 0) && positive l.w_wait)) [
        | inl last ↦ rw (rwl_readunlock-last l k.valid last) rest
        | inr more ↦ rw (rwl_readunlock-other l k.valid more) (
          rest,
          ground (
            arith,
            k.readers,
            k.write_waits,
            decr_lem l.r_active (omega (arith, k.readers)) (omega (arith, k.readers)),
            positive_lem l.w_wait (omega (arith, k.write_waits)),
          ),
        )
      ]
  Move-Owed {l} write_lock few part k rest hand = elim (Bool-cases (is_held l)) [
    | inl held ↦
        rw (rwl_writelock-held l k.valid held) (rest, omega (arith, held-true (omega arith) k held))
    | inr free ↦ rw (rwl_writelock-free l k.valid free) (omega arith, omega arith)
  ]
  Move-Owed {l} write_trylock few part k rest hand = elim (Bool-cases (is_held l)) [
    | inl held ↦ rw (rwl_writetrylock-held l k.valid held) (rest, hand)
    | inr free ↦ rw (rwl_writetrylock-free l k.valid free) (omega arith, omega arith)
  ]
  Move-Owed {l} write_unlock few part k rest hand =
      let no_readers : positive l.r_wait ≡ false → c ≡ 0 =
        λ e. ground (arith, k.read_waits, positive_lem l.r_wait (omega (arith, k.read_waits))) in
      let no_writers : positive l.w_wait ≡ false → d ≡ 0 =
        λ e. ground (arith, k.write_waits, positive_lem l.w_wait (omega (arith, k.write_waits))) in
      elim (Bool-cases (positive l.r_wait)) [
        | inl readers ↦
            rw (rwl_writeunlock-readers l k.valid readers)
              (ground (arith, k.read_waits, positive_lem l.r_wait (omega (arith, k.read_waits))))
        | inr none ↦ elim (Bool-cases (positive l.w_wait)) [
          | inl writer ↦
              rw (rwl_writeunlock-writer l k.valid none writer) (omega (arith, no_readers none))
          | inr nobody ↦
              rw (rwl_writeunlock-nobody l k.valid none nobody)
                (omega (arith, no_readers none), omega (arith, no_writers nobody))
        ]
      ]
  Move-Owed (read_resume p (inl e')) few part k rest hand =
      read_resume-Owed few (subst (With a b c d _) e' k) (subst Rests e' rest)
  Move-Owed (read_resume p (inr e')) few part k rest hand =
      read_resume-Owed few (subst (With a b c d _) e' k) (omega (arith, subst Rests e' rest))
  Move-Owed (write_resume p (inl e')) few part k rest hand =
      write_resume-Owed few (subst (With a b c d _) e' k) (subst Rests e' rest)
  Move-Owed (write_resume p (inr e')) few part k rest hand =
      write_resume-Owed few (subst (With a b c d _) e' k) (subst Rests e' rest)
  Move-Owed (read_cancel p e loud) few part k rest hand = absurd (ground arith)
  Move-Owed (write_cancel p e loud) few part k rest hand = absurd (ground arith)
