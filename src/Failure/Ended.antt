-- ===== src/Failure/Ended.antt =====
-- The end of the process by `_sklFatal` and `_sklAssertFail` of src/private/skl_priv.c.
use myskl.Prelude.{◌≡◌, some, List, [], ◌∷◌, All, ◌>>=◌, false, ◌==◌, arith, ◌∙◌, sym, refl}
use myskl.Container.{
  Container, World, start_container, destroy_lists_container, free_lists_container, lc_none,
}
use myskl.Container.Stored.{IsStored}
use myskl.Container.Emptied.{
  Owned, IsOwned, AllApart, Emptied, places, free_lists_container-Emptied,
}
use myskl.Failure.{
  report, before_exit, assert_fail, fatal_error, aborts, exits, skl_assert_fail, skl_fatal,
}

module _ {D : Type 0} {w : World D} {c : Container} (qs : List (Owned D))
    (k : IsStored c (places qs)) (owned : All (IsOwned w) qs) (apart : AllApart qs) where
  destroyed :
      (w' : World D) × (destroy_lists_container c w ≡ some (start_container, w'))
      × Emptied w qs 1 w'
  unfolding free_lists_container
  destroyed =
      let (w', run, emptied) = free_lists_container-Emptied qs k owned apart in
      let full : (c.mode == lc_none) ≡ false = ground (arith, k.full) in
      (w', sym (rw full (refl)) ∙ run, emptied)

  -- Before the process ends by `exit` or by `abort`, each list of a container that holds just some
  -- well-formed lists that can be destroyed, share no memory and are all still there is destroyed with
  -- its nodes, and the array of the container is freed; the report comes first.
  ended-Emptied :
      (w' : World D) × (skl_fatal c w
        ≡ some (report ∷ before_exit ∷ fatal_error ∷ [], exits, start_container, w'))
      × (skl_assert_fail c w
          ≡ some (report ∷ before_exit ∷ assert_fail ∷ [], aborts, start_container, w'))
      × Emptied w qs 1 w'
  unfolding skl_fatal skl_assert_fail
  ended-Emptied =
      let (w', run, emptied) = destroyed in
      (w', rw (run, ◌>>=◌) refl, rw (run, ◌>>=◌) refl, emptied)
