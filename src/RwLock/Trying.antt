-- ===== src/RwLock/Trying.antt =====
-- `rwl_readtrylock` and `rwl_writetrylock` of src/private/rwlock.c against the calls that block.
use myskl.Prelude.{◌≡◌, refl, ◌⊎◌, inl, inr, Bool-cases}
use myskl.RwLock.{
  Errno, ok, ebusy, RwLock, rwlock_valid, Outcome, returns, waits, nonzero, rwl_readlock,
  rwl_readtrylock, rwl_writelock, rwl_writetrylock,
}
use myskl.RwLock.System.{fine}
use myskl.RwLock.Calls.{
  is_held, rwl_readlock-held, rwl_readlock-free, rwl_readtrylock-held, rwl_readtrylock-free,
  rwl_writelock-held, rwl_writelock-free, rwl_writetrylock-held, rwl_writetrylock-free,
}

-- Instead of a call that would block, `try` returns EBUSY and changes nothing; else it does the same.
abbrev pub Agrees : RwLock → Outcome × RwLock → Errno × RwLock → Type 0
Agrees l blocking try =
    ((blocking.0 ≡ waits) × (try ≡ (ebusy, l)))
    ⊎ ((blocking.0 ≡ returns ok) × (try ≡ (ok, blocking.1)))

-- On a valid lock, when the calls of the threads library succeed, `rwl_readtrylock` and
-- `rwl_writetrylock` return EBUSY and leave the lock as it is when `rwl_readlock`, or
-- `rwl_writelock`, would wait, and otherwise return 0 and do what that function does.
trylock-Agrees :
    (l : RwLock)
    → l.valid ≡ rwlock_valid
    → Agrees l (rwl_readlock fine l) (rwl_readtrylock fine l)
      × Agrees l (rwl_writelock fine l) (rwl_writetrylock fine l)
trylock-Agrees l valid = (
  elim (Bool-cases (nonzero l.w_active)) [
    | inl held ↦
        rw (rwl_readlock-held l valid held, rwl_readtrylock-held l valid held) (inl (refl, refl))
    | inr free ↦
        rw (rwl_readlock-free l valid free, rwl_readtrylock-free l valid free) (inr (refl, refl))
  ],
  elim (Bool-cases (is_held l)) [
    | inl held ↦
        rw (rwl_writelock-held l valid held, rwl_writetrylock-held l valid held) (inl (refl, refl))
    | inr free ↦
        rw (rwl_writelock-free l valid free, rwl_writetrylock-free l valid free) (inr (refl, refl))
  ],
)
