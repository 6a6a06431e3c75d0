-- ===== src/Prelude/Sorted.antt =====
-- Python's `sorted` with a key, given by the comparison of the keys.
use os_tep.Prelude.{Bool, List, [], ◌∷◌, if◌then◌else◌}

-- `sorted` is stable: an element stays in front of the later ones with the same key.
module _ {ℓ} {A : Type ℓ} (before : A → A → Bool) where
  unfoldable pub insert_sorted : A → List A → List A
  insert_sorted b [] = b ∷ []
  insert_sorted b (c ∷ bs) = if before b c then b ∷ c ∷ bs else c ∷ insert_sorted b bs

  unfoldable pub sorted : List A → List A
  sorted [] = []
  sorted (b ∷ bs) = insert_sorted b (sorted bs)
