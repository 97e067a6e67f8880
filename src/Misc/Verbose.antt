-- ===== src/Misc/Verbose.antt =====
-- The switches of the verbose output in src/skl_misc.c, in a build without DBUG_OFF. The DBUG package
-- is a parameter: a state, the test DBUG_IS_ON of it, and what DEBUGGER_ON, DEBUGGER_OFF, DBUG_PUSH and
-- DBUG_END make of it.
use myskl.Prelude.{
  ℕ, Bool, true, false, not, Option, none, some, List, [], ◌∷◌, ◌≡◌, refl, if◌then◌else◌,
}

-- "d:t:L:F"
abbrev pub default_control : List ℕ
default_control = 100 ∷ 58 ∷ 116 ∷ 58 ∷ 76 ∷ 58 ∷ 70 ∷ []

-- The text that is pushed for `control`
unfoldable pub chosen_control : Option (List ℕ) → List ℕ
chosen_control none = default_control
chosen_control (some []) = default_control
chosen_control (some (c ∷ cs)) = c ∷ cs

module _ {S : Type 0} (is_on : S → Bool) (debug_on debug_off : S → S) (push : List ℕ → S → S)
    (end : S → S) where
  -- `MySKLCustomVerboseEnable`
  unfoldable pub custom_verbose_enable : Option (List ℕ) → S → Bool × S
  custom_verbose_enable control d =
      if not (is_on d) then (true, debug_on (push (chosen_control control) d)) else (false, d)

  -- `MySKLverboseEnable`
  unfoldable pub verbose_enable : S → Bool × S
  verbose_enable d = custom_verbose_enable none d

  -- `MySKLverboseDisable`
  unfoldable pub verbose_disable : S → Bool × S
  verbose_disable d = if is_on d then (true, end (debug_off d)) else (false, d)

  -- `MySKLverboseSuspend`
  unfoldable pub verbose_suspend : S → Bool × S
  verbose_suspend d = if is_on d then (true, debug_off d) else (false, d)

  -- `MySKLverboseResume`
  unfoldable pub verbose_resume : S → Bool × S
  verbose_resume d = if not (is_on d) then (true, debug_on d) else (false, d)

  -- Where DEBUGGER_ON and DEBUGGER_OFF do what the test tells of: after an enabling call that succeeds,
  -- suspending and resuming succeed, and a disabling call ends the debugging that was pushed; while it
  -- is suspended, the disabling call fails and ends nothing, and another enabling call pushes once
  -- more.
  verbose_lem :
      ((d : S) → is_on (debug_on d) ≡ true)
      → ((d : S) → is_on (debug_off d) ≡ false)
      → (control : Option (List ℕ)) (d : S) → is_on d ≡ false
      → let on = debug_on (push (chosen_control control) d) in
        let off = debug_off on in
        (custom_verbose_enable control d ≡ (true, on))
        × (verbose_suspend on ≡ (true, off))
        × (verbose_resume off ≡ (true, debug_on off))
        × (verbose_disable on ≡ (true, end off))
        × (verbose_disable off ≡ (false, off))
        × (verbose_enable off ≡ (true, debug_on (push default_control off)))
  unfolding custom_verbose_enable verbose_enable verbose_disable verbose_suspend verbose_resume
      chosen_control
  verbose_lem works stops control d is_off =
      let on = debug_on (push (chosen_control control) d) in
      let on' = works (push (chosen_control control) d) in
      let off' = stops on in
      (rw is_off refl, rw on' refl, rw off' refl, rw on' refl, rw off' refl, rw off' refl)
