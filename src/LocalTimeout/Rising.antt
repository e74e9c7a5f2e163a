-- ===== src/LocalTimeout/Rising.antt =====
-- local_timeout/local_timeout.go: the heights that the channel carries.
use banyan.Base.{
  ℕ, ◌<◌, ◌≡◌, refl, inl, inr, List, [], ◌∷◌, ◌++◌, sle, biased, Word, arith, Bool-cases,
}
use banyan.LocalTimeout.{LocalTimeout, new_local_timeout, height_increased}

-- The heights rise strictly, in the signed order, from above `low`.
abbrev pub Above : ℕ → List Word → Type 0
Above low [] = Unit
Above low (h ∷ hs) = (low < biased h) × Above (biased h) hs

-- The last of them, or `low`.
abbrev pub last_of : ℕ → List Word → ℕ
last_of low [] = low
last_of low (h ∷ hs) = last_of (biased h) hs

pub snoc-Above :
    (low : ℕ) (hs : List Word) (h : Word)
    → Above low hs
    → last_of low hs < biased h
    → Above low (hs ++ h ∷ [])
snoc-Above low [] h a new = (new, tt)
snoc-Above low (x ∷ hs) h (first, a) new = (first, snoc-Above (biased x) hs h a new)

pub last_of-snoc : (low : ℕ) (hs : List Word) (h : Word) → last_of low (hs ++ h ∷ []) ≡ biased h
last_of-snoc low [] h = refl
last_of-snoc low (x ∷ hs) h = last_of-snoc (biased x) hs h

-- The channel rises from the height 1 to the current one.
pub IsRising : LocalTimeout → Type 0
IsRising lt =
    Above (biased 1) lt.new_height_chan
    × (last_of (biased 1) lt.new_height_chan ≡ biased lt.cur_height)

height_increased-IsRising :
    (lt : LocalTimeout) (h : Word) → IsRising lt → IsRising (height_increased lt h)
unfolding IsRising height_increased
height_increased-IsRising lt h (above, last) = elim (Bool-cases (sle h lt.cur_height)) [
  | inl old ↦ rw old (above, last)
  | inr new ↦ rw new (
    snoc-Above (biased 1) lt.new_height_chan h above (ground (arith, last, new)),
    last_of-snoc (biased 1) lt.new_height_chan h,
  )
]

-- The calls, one after the other.
unfoldable pub increase_all : LocalTimeout → List Word → LocalTimeout
increase_all lt [] = lt
increase_all lt (h ∷ hs) = increase_all (height_increased lt h) hs

increase_all-IsRising :
    (lt : LocalTimeout) (hs : List Word) → IsRising lt → IsRising (increase_all lt hs)
unfolding increase_all
increase_all-IsRising lt [] r = r
increase_all-IsRising lt (h ∷ hs) r =
    increase_all-IsRising (height_increased lt h) hs (height_increased-IsRising lt h r)

-- After any calls of HeightIncreased on a new LocalTimeout, the heights in the channel rise
-- strictly, in the order of int, from above 1 to the current height.
pub new_heights_rise : (hs : List Word) → IsRising (increase_all new_local_timeout hs)
unfolding IsRising new_local_timeout
new_heights_rise hs = increase_all-IsRising new_local_timeout hs (tt, refl)
