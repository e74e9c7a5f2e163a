-- ===== src/Replica/Committed.antt =====
-- replica/replica.go: the height of a committed block and the slices of the statistics.
use banyan.Base.{◌≡◌, refl, inl, inr, Bool, false, ltb, slt, Word, Bool-cases, is_ok}
use banyan.Chain.{Block}
use banyan.Replica.{
  Statistics, slots, set_slot, start_experiment, is_over, note_block, process_committed_block,
}

note_block-is_ok :
    (now : Word) (own : Bool) (st : Statistics) (b : Block)
    → is_ok (note_block now own st b) ≡ ltb b.height slots
unfolding note_block set_slot
note_block-is_ok now own st b = elim (Bool-cases (slt 1 b.height)) [
  | inl h ↦ elim (Bool-cases (ltb b.height slots)) [
    | inl low ↦ elim (Bool-cases own) [
      | inl mine ↦ rw (h, low, mine) refl
      | inr other ↦ rw (h, low, other) refl
    ]
    | inr high ↦ rw (h, high) refl
  ]
  | inr h ↦ elim (Bool-cases (ltb b.height slots)) [
    | inl low ↦ elim (Bool-cases own) [
      | inl mine ↦ rw (h, low, mine) refl
      | inr other ↦ rw (h, low, other) refl
    ]
    | inr high ↦ rw (h, high) refl
  ]
]

-- While the experiment runs, a committed block is noted without a crash exactly when its height is
-- below 10000.
pub process_committed_block-is_ok :
    (now : Word) (own : Bool) (st : Statistics) (b : Block)
    → is_over now (start_experiment now st b) b ≡ false
    → is_ok (process_committed_block now own st b) ≡ ltb b.height slots
unfolding process_committed_block
process_committed_block-is_ok now own st b running =
    rw running (note_block-is_ok now own (start_experiment now st b) b)
