-- ===== src/Paging/Tests.antt =====
-- Page tables of paging-linear-translate_py/paging-linear-translate.py, and the theorem about them
-- at a concrete one.
use os_tep.Prelude.{
  ℕ, ◌≡◌, refl, Bool, true, false, none, some, List, [], ◌∷◌, arith, ◌==◌, if◌then◌else◌,
}
use os_tep.Prelude.Fault.{ok}
use os_tep.Paging.{Table, no_pages, build, translate}
use os_tep.Paging.Frames.{translate_alone}

-- the second draw hits a frame that is used, the third leaves the page out
abbrev draws : List (Bool × ℕ)
draws = (true, 3) ∷ (true, 3) ∷ (false, 0) ∷ []

abbrev table : Table
table = record { used = λ w. if 3 == w then true else false; pt = some 3 ∷ none ∷ [] }

built : build draws 2 no_pages ≡ some table
unfolding build
built = refl

abbrev va : ℕ
va = 5

translates : translate 16 table va ≡ ok (some 53)
unfolding translate
translates = refl

not_valid : translate 16 table 20 ≡ ok none
unfolding translate
not_valid = refl

translate_alone_example : va ≡ va
translate_alone_example =
    translate_alone draws 2 16 table va va 53 (omega arith) built (omega arith) (omega arith)
      translates translates
