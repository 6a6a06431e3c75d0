-- ===== src/Segment/Tests.antt =====
-- Segments of segmenmation/segmentation.py, and the theorems about them at concrete registers.
use os_tep.Prelude.{ℕ, ◌<◌, ◌≡◌, refl, inl, some, arith}
use os_tep.Prelude.Fault.{ok}
use os_tep.Segment.{Segments, setup, translate, valid0, valid1}
use os_tep.Segment.Translate.{physical, AreApart, translate_injective, setup_overlap}

abbrev apart : Segments
apart = record { asize = 128; base0 = 0; len0 = 20; base1 = 492; len1 = 20 }

abbrev crossed : Segments
crossed = record { asize = 128; base0 = 30; len0 = 20; base1 = 20; len1 = 20 }

apart-AreApart : AreApart apart
apart-AreApart = inl (omega arith)

-- the first address of segment 1
abbrev top_page : ℕ
top_page = 108

goes_to : physical (translate apart top_page) ≡ some 492
unfolding translate
goes_to = refl

translate_injective_example : top_page ≡ top_page
translate_injective_example =
    translate_injective apart top_page top_page 492 apart-AreApart goes_to goes_to

setup_overlap_example :
    (setup crossed ≡ ok crossed)
    × (0 < 118)
    × (translate crossed 0 ≡ ok (valid0 30))
    × (translate crossed 118 ≡ ok (valid1 30))
setup_overlap_example =
    setup_overlap crossed (omega arith) (omega arith) (omega arith) (omega arith) (omega arith)
