-- ===== src/Disk/Angle.antt =====
-- The rotation in 37-Hard_Disk_Drivers/disk.py: how many ticks the disk takes to come close to an
-- angle.
use os_tep.Prelude.{
  ℕ_discrete, dec_lt, ℕ, ◌+◌, ◌-◌, ◌*◌, ◌/◌, ◌≤◌, ◌<◌, ◌≡◌, refl, sym, ap, ◌∙◌, ◌≢◌, ◌⊎◌, inl, inr,
  Bool, true, false, arith, ltb, leb, if◌then◌else◌,
}
use native.Mathlib.Nat.{mul-le-mul_right, div-add-mod', mod-lt}

-- The positions of the disk are the multiples of `r` below `full`, and there are `n`.
pub record IsCircle (r full n : ℕ) : Type 0 where
  pub rotates : 0 < r
  pub covers : full ≤ n * r
  pub tight : n * r < full + r

lt_of_mul : (a b r : ℕ) → a * r < b * r → a < b
lt_of_mul a b r h = elim (dec_lt a b) [
  | yes k ↦ k
  | no k ↦ let le : b ≤ a = omega arith in absurd (omega (arith, mul-le-mul_right r le))
]

-- the angle after a tick
abbrev pub turned : ℕ → ℕ → ℕ → ℕ
turned r full a = if leb full (a + r) then 0 else a + r

abbrev pub close : ℕ → ℕ → ℕ → Bool
close r a t = ltb (if ltb t a then a - t else t - a) r

-- ticks from position `k` to position `m`, at least one
abbrev pub ahead : ℕ → ℕ → ℕ → ℕ
ahead n k m = if ltb k m then m - k else m + n - k

-- Position `k` is the angle `a`, position `m` is the last one up to the angle `t`.
pub record Wait (r full n a t w : ℕ) : Type 0 where
  pub k : ℕ
  pub m : ℕ
  pub here : a ≡ k * r
  pub k_lt : k < n
  pub below : m * r ≤ t
  pub above : t < m * r + r
  pub m_lt : m < n
  pub ticks : w ≡ ahead n k m

abbrev pub IsAngle : ℕ → ℕ → ℕ → Type 0
IsAngle r n a = (k : ℕ) × (a ≡ k * r) × (k < n)

module _ (r full n : ℕ) (c : IsCircle r full n) where
  some_position : 0 < full → 0 < n
  some_position h = elim (dec_lt 0 n) [
    | yes k ↦ k
    | no k ↦
        let z : n ≡ 0 = omega arith in
        let e : n * r ≡ 0 = rw z (omega arith) in absurd (omega (arith, c.covers))
  ]

  pub IsAngle-zero : 0 < full → IsAngle r n 0
  IsAngle-zero h = (0, omega arith, some_position h)

  -- a target below the full circle has a position
  pub Wait-exists :
      (a t : ℕ) → IsAngle r n a → t < full → (w : ℕ) × Wait r full n a t w × (0 < w) × (w ≤ n)
  Wait-exists a t (k, e, lt) h =
      let d = div-add-mod' t r in
      let s = mod-lt t c.rotates in
      let m_lt = lt_of_mul (t / r) n r (omega (arith, c.covers)) in
      (
        ahead n k (t / r),
        record {
          k = k;
          m = t / r;
          here = e;
          k_lt = lt;
          below = omega (arith, d);
          above = omega (arith, d, s);
          m_lt = m_lt;
          ticks = refl;
        },
        ground (arith, m_lt),
        ground (arith, m_lt),
      )

  -- the next position
  turned_next : (a k : ℕ) → a ≡ k * r → k + 1 < n → turned r full a ≡ (k + 1) * r
  turned_next a k e h =
      let le : k + 1 ≤ n - 1 = omega arith in
      let room : (k + 1) * r < full = omega (arith, mul-le-mul_right r le, c.tight, last) in
      let no_wrap : leb full (a + r) ≡ false = ground (arith, sum) in rw no_wrap sum
    where
      sum : a + r ≡ (k + 1) * r
      sum = omega arith

      last : (n - 1) * r + r ≡ n * r
      last =
          let z : n ≡ n - 1 + 1 = omega arith in
          let f : (n - 1 + 1) * r ≡ (n - 1) * r + r = omega arith in sym f ∙ ap (λ x. x * r) (sym z)

  turned_last : (a k : ℕ) → a ≡ k * r → k + 1 ≡ n → turned r full a ≡ 0
  turned_last a k e h =
      let sum : a + r ≡ n * r = omega (arith, ap (λ x. x * r) h) in
      let wrap : leb full (a + r) ≡ true = ground (arith, sum, c.covers) in rw wrap refl

  pub IsAngle-turned : 0 < full → (a : ℕ) → IsAngle r n a → IsAngle r n (turned r full a)
  IsAngle-turned pos a (k, e, lt) = elim (dec_lt (k + 1) n) [
    | yes h ↦ (k + 1, turned_next a k e h, h)
    | no h ↦ let z : k + 1 ≡ n = omega arith in (0, turned_last a k e z ∙ omega arith, omega arith)
  ]

  at_target : (a t k m : ℕ) → a ≡ k * r → k ≡ m → m * r ≤ t → t < m * r + r → close r a t ≡ true
  at_target a t k m e s l h = let z : a ≡ m * r = e ∙ ap (λ x. x * r) s in ground arith

  -- A tick brings the disk there, or one tick nearer.
  pub Wait-turned :
      (a t w : ℕ)
      → Wait r full n a t w
      → (close r (turned r full a) t ≡ true)
        ⊎ ((w' : ℕ) × Wait r full n (turned r full a) t w' × (w ≡ w' + 1))
  Wait-turned a t w x = elim (dec_lt (x.k + 1) n) [
    | yes h ↦ elim (ℕ_discrete (x.k + 1) x.m) [
      | yes s ↦ inl (
          at_target (turned r full a) t (x.k + 1) x.m (turned_next a x.k x.here h) s x.below
            x.above)
      | no s ↦ inr (
        ahead n (x.k + 1) x.m,
        record {
          k = x.k + 1;
          m = x.m;
          here = turned_next a x.k x.here h;
          k_lt = h;
          below = x.below;
          above = x.above;
          m_lt = x.m_lt;
          ticks = refl;
        },
        x.ticks ∙ nearer_next x.k x.m s x.k_lt,
      )
    ]
    | no h ↦
        let z : x.k + 1 ≡ n = omega (arith, x.k_lt) in
        elim (ℕ_discrete 0 x.m) [
          | yes s ↦ inl (
              at_target (turned r full a) t 0 x.m (turned_last a x.k x.here z ∙ omega arith) s
                x.below x.above)
          | no s ↦ inr (
            ahead n 0 x.m,
            record {
              k = 0;
              m = x.m;
              here = turned_last a x.k x.here z ∙ omega arith;
              k_lt = omega arith;
              below = x.below;
              above = x.above;
              m_lt = x.m_lt;
              ticks = refl;
            },
            x.ticks ∙ nearer_last x.k x.m z s x.m_lt,
          )
        ]
  ]
    where
      nearer_next : (k m : ℕ) → k + 1 ≢ m → k < n → ahead n k m ≡ ahead n (k + 1) m + 1
      nearer_next k m s h = ground arith

      nearer_last : (k m : ℕ) → k + 1 ≡ n → 0 ≢ m → m < n → ahead n k m ≡ ahead n 0 m + 1
      nearer_last k m z s h = ground arith
