-- ===== src/Failure.antt =====
-- src/private/skl_priv.c: the name of the version, and how the library ends the process. What is
-- printed is a list of pieces; the texts of the package are parameters.
pub mod Version
pub mod Ended
use myskl.Prelude.{
  ℕ, suc, zero, ◌+◌, Bool, Option, none, some, List, [], ◌∷◌, ◌++◌, length, ltb, if◌then◌else◌,
  ◌>>=◌,
}
use myskl.Container.{Container, World, destroy_lists_container}

-- `_CONST_CH_NUM`, `_BUFFSIZE`
abbrev pub const_ch_num : ℕ
const_ch_num = 1

abbrev pub buff_size : ℕ
buff_size = 32

-- What `snprintf` puts into a buffer: as many characters as there is room for
unfoldable pub cut : ℕ → List ℕ → List ℕ
cut zero cs = []
cut (suc n) [] = []
cut (suc n) (c ∷ cs) = c ∷ cut n cs

-- `_sklVersion`: the text and `version`. `has_snprintf` tells whether HAVE_SNPRINTF is defined, and
-- 45 is the character `-`.
unfoldable pub skl_version : Bool → List ℕ → List ℕ → Option (List ℕ) → List ℕ × Option (List ℕ)
skl_version has_snprintf package_name package_version (some buf) = (buf, some buf)
skl_version has_snprintf package_name package_version none =
    let whole = package_name ++ 45 ∷ package_version in
    let buf =
      if has_snprintf
      then cut 31 whole
      else if ltb (length package_name + const_ch_num + length package_version) buff_size
      then whole
      else [] in
    (buf, some buf)

-- The report, BEFORE_EXIT, and ASSERT_FAIL or FATAL_ERROR
pub data Printed : Type 0 where
  report before_exit assert_fail fatal_error : Printed

-- `abort ()`, `exit ( EXIT_FAILURE )`
pub data Ending : Type 0 where
  aborts exits : Ending

module _ {D : Type 0} where
  -- `_sklAssertFail`
  unfoldable pub skl_assert_fail :
      Container → World D → Option (List Printed × Ending × Container × World D)
  skl_assert_fail c w = do
    (c', w') ← destroy_lists_container c w
    some (report ∷ before_exit ∷ assert_fail ∷ [], aborts, c', w')

  -- `_sklFatal`
  unfoldable pub skl_fatal :
      Container → World D → Option (List Printed × Ending × Container × World D)
  skl_fatal c w = do
    (c', w') ← destroy_lists_container c w
    some (report ∷ before_exit ∷ fatal_error ∷ [], exits, c', w')
