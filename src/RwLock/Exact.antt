-- ===== src/RwLock/Exact.antt =====
-- What the integers of the read-write lock of src/private/rwlock.c count, and that each atomic
-- section keeps it so.
use myskl.Prelude.{
  ℕ, suc, ◌+◌, ◌^◌, ◌<◌, ◌≡◌, sym, ◌∙◌, Bool, true, false, arith, ◌⊎◌, inl, inr, ltb, ◌==◌, ◌&&◌,
  Bool-cases, subst,
}
use myskl.RwLock.{
  RwLock, rwlock_valid, incr, decr, positive, nonzero, rwl_readlock_woken, rwl_writelock_woken,
  rwl_readcleanup, rwl_writecleanup, is_ok, Wake,
}
use myskl.RwLock.System.{
  Phase, Move, read_lock, read_trylock, read_unlock, write_lock, write_trylock, write_unlock,
  read_resume, write_resume, read_cancel, write_cancel, is_reading, is_writing, waits_to_read,
  waits_to_write, fine, entered,
}
use myskl.RwLock.Counts.{more}
use myskl.RwLock.Calls.{
  is_held, rwl_readlock-held, rwl_readlock-free, rwl_readlock_woken-held, rwl_readlock_woken-free,
  rwl_readtrylock-held, rwl_readtrylock-free, rwl_readunlock-last, rwl_readunlock-other,
  rwl_writelock-held, rwl_writelock-free, rwl_writelock_woken-held, rwl_writelock_woken-free,
  rwl_writetrylock-held, rwl_writetrylock-free, rwl_writeunlock-readers, rwl_writeunlock-writer,
  rwl_writeunlock-nobody,
}

pub incr_lem : (n : ℕ) → n + 1 < 2 ^ 31 → incr n ≡ n + 1
unfolding incr
incr_lem n small = omega arith

pub decr_lem : (n : ℕ) → n < 2 ^ 31 → 0 < n → decr n + 1 ≡ n
unfolding decr
decr_lem n small pos = omega arith

pub positive_lem : (n : ℕ) → n < 2 ^ 31 → positive n ≡ ltb 0 n
unfolding positive
positive_lem n small = ground arith

-- The lock counts `r` readers and `w` writers that hold it, `rw` and `ww` that wait.
pub record Counts (l : RwLock) (r w rw ww : ℕ) : Type 0 where
  pub valid : l.valid ≡ rwlock_valid
  pub readers : l.r_active ≡ r
  pub writers : l.w_active ≡ w
  pub read_waits : l.r_wait ≡ rw
  pub write_waits : l.w_wait ≡ ww
  pub alone : (w ≡ 0) ⊎ ((w ≡ 1) × (r ≡ 0))

pub nonzero-true : (n : ℕ) → nonzero n ≡ true → 0 < n
unfolding nonzero
nonzero-true n e = ground arith

pub nonzero-false : (n : ℕ) → nonzero n ≡ false → n ≡ 0
unfolding nonzero
nonzero-false n e = ground arith

module _ {l : RwLock} {r w rw ww : ℕ} (few : r + w + rw + ww + 1 < 2 ^ 31)
    (k : Counts l r w rw ww) where
  read_waits : Counts (record l { r_wait = incr l.r_wait }) r w (suc rw) ww
  read_waits = record {
    valid = k.valid;
    readers = k.readers;
    writers = k.writers;
    read_waits = omega (arith, k.read_waits, incr_lem l.r_wait (omega (arith, k.read_waits)));
    write_waits = k.write_waits;
    alone = k.alone;
  }

  write_waits : Counts (record l { w_wait = incr l.w_wait }) r w rw (suc ww)
  write_waits = record {
    valid = k.valid;
    readers = k.readers;
    writers = k.writers;
    read_waits = k.read_waits;
    write_waits = omega (arith, k.write_waits, incr_lem l.w_wait (omega (arith, k.write_waits)));
    alone = k.alone;
  }

  reads :
      nonzero l.w_active ≡ false → Counts (record l { r_active = incr l.r_active }) (suc r) w rw ww
  reads free = record {
    valid = k.valid;
    readers = omega (arith, k.readers, incr_lem l.r_active (omega (arith, k.readers)));
    writers = k.writers;
    read_waits = k.read_waits;
    write_waits = k.write_waits;
    alone = inl (sym k.writers ∙ nonzero-false l.w_active free);
  }

  pub held-false : is_held l ≡ false → (w ≡ 0) × (r ≡ 0)
  held-false free = (
    sym k.writers ∙ nonzero-false l.w_active (ground arith),
    ground (arith, k.readers, positive_lem l.r_active (omega (arith, k.readers))),
  )

  writes : is_held l ≡ false → Counts (record l { w_active = 1 }) r (suc w) rw ww
  writes free =
      let (no_writer, no_reader) = held-false free in
      record {
        valid = k.valid;
        readers = k.readers;
        writers = omega arith;
        read_waits = k.read_waits;
        write_waits = k.write_waits;
        alone = inr (omega arith, no_reader);
      }

module _ {l : RwLock} {r w rw ww : ℕ} where
  stops_reading :
      r + w + rw + ww + 1 < 2 ^ 31
      → Counts l (suc r) w rw ww
      → Counts (record l { r_active = decr l.r_active }) r w rw ww
  stops_reading few k = record {
    valid = k.valid;
    readers = omega (
      arith,
      k.readers,
      decr_lem l.r_active (omega (arith, k.readers)) (omega (arith, k.readers)),
    );
    writers = k.writers;
    read_waits = k.read_waits;
    write_waits = k.write_waits;
    alone = omega (arith, k.alone);
  }

  stops_writing : Counts l r (suc w) rw ww → Counts (record l { w_active = 0 }) r w rw ww
  stops_writing k = record {
    valid = k.valid;
    readers = k.readers;
    writers = omega (arith, k.alone);
    read_waits = k.read_waits;
    write_waits = k.write_waits;
    alone = omega (arith, k.alone);
  }

  leaves_readers :
      r + w + rw + ww + 1 < 2 ^ 31 → Counts l r w (suc rw) ww → Counts (rwl_readcleanup l) r w rw ww
  unfolding rwl_readcleanup
  leaves_readers few k = record {
    valid = k.valid;
    readers = k.readers;
    writers = k.writers;
    read_waits = omega (
      arith,
      k.read_waits,
      decr_lem l.r_wait (omega (arith, k.read_waits)) (omega (arith, k.read_waits)),
    );
    write_waits = k.write_waits;
    alone = k.alone;
  }

  leaves_writers :
      r + w + rw + ww + 1 < 2 ^ 31
      → Counts l r w rw (suc ww)
      → Counts (rwl_writecleanup l) r w rw ww
  unfolding rwl_writecleanup
  leaves_writers few k = record {
    valid = k.valid;
    readers = k.readers;
    writers = k.writers;
    read_waits = k.read_waits;
    write_waits = omega (
      arith,
      k.write_waits,
      decr_lem l.w_wait (omega (arith, k.write_waits)) (omega (arith, k.write_waits)),
    );
    alone = k.alone;
  }

module _ (a b c d : ℕ) where
  -- What a thread in phase `p` and the others make of the lock.
  abbrev pub With : RwLock → Phase → Type 0
  With l p =
      Counts l (more (is_reading p) a) (more (is_writing p) b) (more (waits_to_read p) c)
        (more (waits_to_write p) d)

  read_resume-Counts :
      {l : RwLock}
      → a + b + c + d + 1 < 2 ^ 31
      → Counts l a b (suc c) d
      → With
          (rwl_readlock_woken fine l).1
          (entered Phase.idle Phase.reading Phase.read_asleep (rwl_readlock_woken fine l).0)
  unfolding is_ok rwl_readcleanup
  read_resume-Counts {l} few k = elim (Bool-cases (nonzero l.w_active)) [
    | inl held ↦ rw (rwl_readlock_woken-held l k.valid held) k
    | inr free ↦
        rw (rwl_readlock_woken-free l k.valid free)
          (reads (omega arith) (leaves_readers (omega arith) k) free)
  ]

  write_resume-Counts :
      {l : RwLock}
      → a + b + c + d + 1 < 2 ^ 31
      → Counts l a b c (suc d)
      → With
          (rwl_writelock_woken fine l).1
          (entered Phase.idle Phase.writing Phase.write_asleep (rwl_writelock_woken fine l).0)
  unfolding is_ok rwl_writecleanup
  write_resume-Counts {l} few k = elim (Bool-cases (is_held l)) [
    | inl held ↦ rw (rwl_writelock_woken-held l k.valid held) k
    | inr free ↦
        rw (rwl_writelock_woken-free l k.valid free)
          (writes (omega arith) (leaves_writers (omega arith) k) free)
  ]

  pub Move-Counts :
      {calm : Bool} {l l' : RwLock} {p p' : Phase} {wake : Wake}
      → Move calm l p l' p' wake
      → a + b + c + d + 1 < 2 ^ 31
      → With l p
      → With l' p'
  unfolding is_ok
  Move-Counts {l} read_lock few k = elim (Bool-cases (nonzero l.w_active)) [
    | inl held ↦ rw (rwl_readlock-held l k.valid held) (read_waits few k)
    | inr free ↦ rw (rwl_readlock-free l k.valid free) (reads few k free)
  ]
  Move-Counts {l} read_trylock few k = elim (Bool-cases (nonzero l.w_active)) [
    | inl held ↦ rw (rwl_readtrylock-held l k.valid held) k
    | inr free ↦ rw (rwl_readtrylock-free l k.valid free) (reads few k free)
  ]
  Move-Counts {l} read_unlock few k =
      elim (Bool-cases ((decr l.r_active == 0) && positive l.w_wait)) [
        | inl last ↦ rw (rwl_readunlock-last l k.valid last) (stops_reading few k)
        | inr more ↦ rw (rwl_readunlock-other l k.valid more) (stops_reading few k)
      ]
  Move-Counts {l} write_lock few k = elim (Bool-cases (is_held l)) [
    | inl held ↦ rw (rwl_writelock-held l k.valid held) (write_waits few k)
    | inr free ↦ rw (rwl_writelock-free l k.valid free) (writes few k free)
  ]
  Move-Counts {l} write_trylock few k = elim (Bool-cases (is_held l)) [
    | inl held ↦ rw (rwl_writetrylock-held l k.valid held) k
    | inr free ↦ rw (rwl_writetrylock-free l k.valid free) (writes few k free)
  ]
  Move-Counts {l} write_unlock few k = elim (Bool-cases (positive l.r_wait)) [
    | inl readers ↦ rw (rwl_writeunlock-readers l k.valid readers) (stops_writing k)
    | inr none ↦ elim (Bool-cases (positive l.w_wait)) [
      | inl writer ↦ rw (rwl_writeunlock-writer l k.valid none writer) (stops_writing k)
      | inr nobody ↦ rw (rwl_writeunlock-nobody l k.valid none nobody) (stops_writing k)
    ]
  ]
  Move-Counts (read_resume p (inl e)) few k = read_resume-Counts few (subst (With _) e k)
  Move-Counts (read_resume p (inr e)) few k = read_resume-Counts few (subst (With _) e k)
  Move-Counts (write_resume p (inl e)) few k = write_resume-Counts few (subst (With _) e k)
  Move-Counts (write_resume p (inr e)) few k = write_resume-Counts few (subst (With _) e k)
  Move-Counts (read_cancel p (inl e) loud) few k = leaves_readers few (subst (With _) e k)
  Move-Counts (read_cancel p (inr e) loud) few k = leaves_readers few (subst (With _) e k)
  Move-Counts (write_cancel p (inl e) loud) few k = leaves_writers few (subst (With _) e k)
  Move-Counts (write_cancel p (inr e) loud) few k = leaves_writers few (subst (With _) e k)
