-- ===== src/Raid/Pieces.antt =====
-- The stripe loop of `enqueue45` (38-RAID/raid.py): how a write is cut into pieces.
use os_tep.Prelude.{
  ℕ, zero, suc, ◌+◌, ◌-◌, ◌*◌, ◌/◌, ◌≤◌, ◌<◌, ◌≡◌, sym, ap, ◌∙◌, List, [], ◌∷◌, ◌++◌, arith,
}
use native.Mathlib.Nat.{le-div_iff_mul-le, add-zero, zero-add, mod-lt, div-add-mod'}
use os_tep.Raid.{range, Piece, piece_end, pieces, request_pieces}

-- the blocks of the pieces, in order
pub piece_blocks : List Piece → List ℕ
piece_blocks [] = []
piece_blocks ((stripe, begin, end) ∷ ps) = range begin (end - begin) ++ piece_blocks ps

-- A piece is not empty and lies in its stripe.
abbrev pub AllInStripe : ℕ → List Piece → Type 0
AllInStripe stripe_size [] = Unit
AllInStripe stripe_size ((stripe, begin, end) ∷ ps) =
    ((stripe * stripe_size ≤ begin) × (begin < end) × (end ≤ stripe * stripe_size + stripe_size))
    × AllInStripe stripe_size ps

pub range-append : (s n m : ℕ) → range s (n + m) ≡ range s n ++ range (s + n) m
unfolding range
range-append s zero m = rw (zero-add, add-zero)
range-append s (suc n) m =
    let e : suc n + m ≡ suc (n + m) = omega arith in
    let f : s + suc n ≡ s + 1 + n = omega arith in
    rw (e, f) (ap (λ (l : List ℕ). s ∷ l) (range-append (s + 1) n m))

-- The blocks from `begin` on end in the last of the stripes that are left.
abbrev Fits : ℕ → ℕ → ℕ → ℕ → ℕ → Type 0
Fits stripe_size zero stripe begin left = left ≡ 0
Fits stripe_size (suc count) stripe begin left =
    (stripe * stripe_size ≤ begin)
    × (begin < stripe * stripe_size + stripe_size)
    × ((stripe + count) * stripe_size < begin + left)
    × (begin + left ≤ (stripe + count) * stripe_size + stripe_size)
    × (0 < left)

module _ (stripe_size : ℕ) where
  piece_end_last :
      (stripe begin left : ℕ)
      → stripe * stripe_size ≤ begin
      → begin + left ≤ stripe * stripe_size + stripe_size
      → piece_end stripe_size stripe begin left ≡ begin + left
  unfolding piece_end
  piece_end_last stripe begin left lo hi = ground arith

  piece_end_full :
      (stripe begin left : ℕ)
      → stripe * stripe_size ≤ begin
      → stripe * stripe_size + stripe_size ≤ begin + left
      → piece_end stripe_size stripe begin left ≡ stripe * stripe_size + stripe_size
  unfolding piece_end
  piece_end_full stripe begin left lo hi = ground arith

  -- One piece in front of pieces that hold the rest.
  piece_cons :
      (stripe begin left end : ℕ) (ps : List Piece)
      → stripe * stripe_size ≤ begin
      → begin < end
      → end ≤ stripe * stripe_size + stripe_size
      → end ≤ begin + left
      → (piece_blocks ps ≡ range end (left - (end - begin))) × AllInStripe stripe_size ps
      → (piece_blocks ((stripe, begin, end) ∷ ps) ≡ range begin left)
        × AllInStripe stripe_size ((stripe, begin, end) ∷ ps)
  unfolding piece_blocks
  piece_cons stripe begin left end ps lo lt hi fits h =
      let start : begin + (end - begin) ≡ end = omega arith in
      let size : end - begin + (left - (end - begin)) ≡ left = omega arith in
      let join = range-append begin (end - begin) (left - (end - begin)) in
      (
        ap (λ (l : List ℕ). range begin (end - begin) ++ l) h.0
            ∙ ap (λ (e : ℕ). range begin (end - begin) ++ range e (left - (end - begin)))
                (sym start)
            ∙ sym join
            ∙ ap (range begin) size,
        ((lo, lt, hi), h.1),
      )

  next_stripe :
      (stripe count : ℕ) → (stripe + suc count) * stripe_size ≡ (stripe + 1 + count) * stripe_size
  next_stripe stripe count = ap (λ (n : ℕ). n * stripe_size) (omega arith)

  pieces_lem :
      (count stripe begin left : ℕ)
      → Fits stripe_size count stripe begin left
      → (piece_blocks (pieces stripe_size count stripe begin left) ≡ range begin left)
        × AllInStripe stripe_size (pieces stripe_size count stripe begin left)
  unfolding piece_blocks pieces range
  pieces_lem zero stripe begin left h = (rw h, tt)
  pieces_lem (suc zero) stripe begin left h =
      let end = piece_end_last stripe begin left h.0 (grind arith) in
      piece_cons stripe begin left _ [] h.0 (omega arith) (grind arith) (omega arith)
        (pieces_lem zero (stripe + 1) _ _ (omega arith))
  pieces_lem (suc (suc count)) stripe begin left h =
      let end = piece_end_full stripe begin left h.0 (grind arith) in
      let next : (stripe + 1) * stripe_size ≡ stripe * stripe_size + stripe_size = grind arith in
      let far : stripe * stripe_size + stripe_size ≤ (stripe + suc count) * stripe_size =
        grind arith in
      let e = piece_end stripe_size stripe begin left in
      let left' = left - (e - begin) in
      piece_cons stripe begin left e (pieces stripe_size (suc count) (stripe + 1) e left') h.0
        (omega arith) (omega arith) (omega arith)
        (pieces_lem (suc count) (stripe + 1) e left' (omega (arith, next_stripe stripe count)))

  -- With stripes of at least one block, a write of at least one block is cut into pieces that hold
  -- its blocks, each once and in order; no piece is empty or reaches over an end of its stripe.
  pub request_pieces_lem :
      0 < stripe_size
      → (addr size : ℕ) → 0 < size
      → (piece_blocks (request_pieces stripe_size addr size) ≡ range addr size)
        × AllInStripe stripe_size (request_pieces stripe_size addr size)
  unfolding request_pieces
  request_pieces_lem pos addr size h =
      let first = addr / stripe_size in
      let last = (addr + size - 1) / stripe_size in
      let a = div-add-mod' addr stripe_size in
      let b = div-add-mod' (addr + size - 1) stripe_size in
      let a' = mod-lt addr pos in
      let b' = mod-lt (addr + size - 1) pos in
      let ordered : first ≤ last = (le-div_iff_mul-le pos).1 (omega arith) in
      let e : last + 1 - first ≡ suc (last - first) = omega arith in
      let f : first + (last - first) ≡ last = omega arith in
      rw e (
        pieces_lem (suc (last - first)) first addr size
          (omega (arith, ap (λ (n : ℕ). n * stripe_size) f)))
