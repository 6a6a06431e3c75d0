-- ===== src/Disk/Serves.antt =====
-- What a configuration of 37-Hard_Disk_Drivers/disk.py must be like, and what holds of the queue.
use os_tep.Prelude.{
  get_elem?-take, get_elem?_lt, dec_lt, get_elem?-lt, ℕ, zero, suc, ◌+◌, ◌*◌, ◌≤◌, ◌<◌, ◌≡◌, refl,
  ap, ◌∙◌, ◌≢◌, ◌⊎◌, inl, inr, true, false, some, List, [], ◌∷◌, arith, if◌then◌else◌, Bool-cases,
  length, get_elem?, take,
}
use os_tep.Prelude.Fault.{ok}
use os_tep.Disk.{
  State, state_done, fifo, other, Address, number, Block, Conf, full, Request, Disk, block_at,
  offset_at, is,
}
use os_tep.Disk.Angle.{IsCircle}
use os_tep.Disk.Pick.{In, Pending, AllGood}

-- the address of a block
abbrev pub IsBlock : Conf → Address → Type 0
IsBlock c a = (b : ℕ) × (x : Block) × (a ≡ number b) × (get_elem? c.layout.blocks b ≡ some x)

-- The disk turns in `n` positions, and the arm takes `steps` ticks from a track to the next one; the
-- layout has three tracks, each of more than one block, and late requests are for blocks.
pub record IsConf (c : Conf) (n steps : ℕ) : Type 0 where
  pub circle : IsCircle c.rotate_speed (full c) n
  pub some_full : 0 < full c
  pub divides : 40 * c.unit ≡ steps * c.seek_speed
  pub moves : 0 < steps
  pub not_precise : c.precise ≡ false
  pub known : c.policy ≢ other
  pub some_window : (w : ℕ) → c.window ≡ some w → 0 < w
  pub offsets : (t : ℕ) → t < 3 → (o : ℕ) × (get_elem? c.layout.offsets t ≡ some o)
  pub ends : (t : ℕ) → t < 3 → (p : ℕ × ℕ) × (get_elem? c.layout.begin_end t ≡ some p) × (p.0 ≢ p.1)
  pub tracks : (b : ℕ) (x : Block) → get_elem? c.layout.blocks b ≡ some x → x.track < 3
  pub late : (i : ℕ) (a : Address) → get_elem? c.late i ≡ some a → IsBlock c a

abbrev pub num_done : List State → ℕ
num_done [] = 0
num_done (st ∷ sts) = (if is st state_done then 1 else 0) + num_done sts

-- the first `n` are done, and no other
abbrev pub InOrder : List State → ℕ → Type 0
InOrder states n =
    (i : ℕ) (st : State)
    → get_elem? states i ≡ some st
    → (i < n → is st state_done ≡ true) × (n ≤ i → is st state_done ≡ false)

-- Each request of the queue has its index and is for a block, as many are done as were counted, and
-- under FIFO these are the first ones.
pub record IsQueue (c : Conf) (d : Disk) : Type 0 where
  pub lens : length d.states ≡ length d.queue
  pub indexed :
      (i : ℕ) (r : Request) → get_elem? d.queue i ≡ some r → (r.index ≡ i) × IsBlock c r.block
  pub counted : num_done d.states ≡ d.count
  pub in_order : c.policy ≡ fifo → InOrder d.states d.count
  pub arm : d.arm_track < 3

pub block_at_lem :
    (c : Conf) (b : ℕ) (x : Block)
    → get_elem? c.layout.blocks b ≡ some x
    → block_at c (number b) ≡ ok x
unfolding block_at
block_at_lem c b x e = rw (e, block_at)

pub offset_at_lem :
    (c : Conf) (t o : ℕ) → get_elem? c.layout.offsets t ≡ some o → offset_at c t ≡ ok o
unfolding offset_at
offset_at_lem c t o e = rw (e, offset_at)

pub In-index : (q : Request) (rs : List Request) → In q rs → (i : ℕ) × (get_elem? rs i ≡ some q)
In-index q [] h = absurd h
In-index q (r ∷ rs) (inl e) = (0, ap some e)
In-index q (r ∷ rs) (inr h) = let (i, e) = In-index q rs h in (suc i, e)

pub index-In : (q : Request) (rs : List Request) (i : ℕ) → get_elem? rs i ≡ some q → In q rs
index-In q [] i e = absurd (cc e)
index-In q (r ∷ rs) zero e = inl (same_some e)
  where
    same_some : {x y : Request} → some x ≡ some y → x ≡ y
    same_some e = cc
index-In q (r ∷ rs) (suc i) e = inr (index-In q rs i e)

pub In-take : (q : Request) (n : ℕ) (rs : List Request) → In q (take n rs) → In q rs
In-take q zero rs h = absurd h
In-take q (suc n) [] h = absurd h
In-take q (suc n) (r ∷ rs) (inl e) = inl e
In-take q (suc n) (r ∷ rs) (inr h) = inr (In-take q n rs h)

-- fewer are done than there are
pub some_open :
    (states : List State) (e : ℕ)
    → num_done states < e
    → e ≤ length states
    → (i : ℕ) × (st : State) × (i < e) × (get_elem? states i ≡ some st) × (is st state_done ≡ false)
some_open [] e h k = absurd (omega arith)
some_open (st ∷ states) zero h k = absurd (omega arith)
some_open (st ∷ states) (suc e) h k = elim (Bool-cases (is st state_done)) [
  | inl t ↦
      let h' : num_done states < e = ground arith in
      let (i, x, lt, at, f) = some_open states e h' (omega arith) in (suc i, x, omega arith, at, f)
  | inr f ↦ (0, st, omega arith, refl, f)
]

open_within :
    (states : List State) (e : ℕ)
    → num_done states < length states
    → (num_done states < e) ⊎ (length states ≤ e)
    → (i : ℕ) × (st : State) × (i < e) × (get_elem? states i ≡ some st) × (is st state_done ≡ false)
open_within states e lt room = elim (dec_lt (length states) e) [
  | yes h ↦
      let (i, st, i_lt, at, f) = some_open states (length states) lt (omega arith) in
      (i, st, omega arith, at, f)
  | no h ↦ some_open states e (elim room [ inl k ↦ k | inr k ↦ omega arith ]) (omega arith)
]

module _ (c : Conf) (n steps : ℕ) (v : IsConf c n steps) (d : Disk) (q : IsQueue c d) where
  pub IsQueue-Good : AllGood c d d.queue
  IsQueue-Good r h =
      let (i, e) = In-index r d.queue h in
      let (same, (b, x, name, has)) = q.indexed i r e in
      let (st, at) = get_elem?-lt i d.states (omega (arith, get_elem?_lt i d.queue e, q.lens)) in
      let t = v.tracks b x has in
      let (o, off) = v.offsets x.track t in
      record {
        st = st;
        block = x;
        offset = o;
        has_state = ap (get_elem? d.states) same ∙ at;
        has_block = ap (block_at c) name ∙ block_at_lem c b x has;
        has_offset = offset_at_lem c x.track o off;
        on_track = t;
      }

  -- the first requests, of which one is not done
  pub take-Pending :
      (e : ℕ)
      → d.count < length d.queue
      → (d.count < e) ⊎ (length d.queue ≤ e)
      → (r : Request) × In r (take e d.queue) × Pending d r
  take-Pending e lt room =
      let (i, st, i_e, at, f) =
        open_within d.states e (omega (arith, q.counted, q.lens)) (elim room [
          | inl h ↦ inl (omega (arith, q.counted))
          | inr h ↦ inr (omega (arith, q.lens))
        ]) in
      let (r, here) = get_elem?-lt i d.queue (omega (arith, get_elem?_lt i d.states at, q.lens)) in
      let (same, rest) = q.indexed i r here in
      (
        r,
        index-In r (take e d.queue) i (get_elem?-take e i d.queue i_e ∙ here),
        (st, ap (get_elem? d.states) same ∙ at, f),
      )

  pub IsQueue-take : (e : ℕ) → AllGood c d (take e d.queue)
  IsQueue-take e r h = IsQueue-Good r (In-take r e d.queue h)
