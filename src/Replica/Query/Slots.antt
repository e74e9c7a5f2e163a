-- ===== src/Replica/Query/Slots.antt =====
-- replica/replica.go and replica/replica_view.go: the answer to a query and the slices of the
-- statistics.
use banyan.Base.{
  ℕ, zero, suc, ◌+◌, ◌-◌, ◌≤◌, ◌≡◌, refl, inl, inr, Bool, false, not, ◌||◌, ltb, leb, Word, Bytes,
  Outcome, ok, panic, starved, sym, ◌>>=◌, ◌∙◌, is_ok, >>=-is_ok, Bool-cases, arith,
}
use banyan.Replica.{Statistics, slots}
use banyan.Replica.Query.{list_times, section_text, report, is_reported, query_reply}

list_times-is_ok :
    (times : Word → Word) (i left : ℕ)
    → i ≤ slots
    → is_ok (list_times times i left) ≡ leb (i + left) slots
unfolding list_times
list_times-is_ok times i zero h = ground (arith)
list_times-is_ok times i (suc left) h = elim (Bool-cases (ltb i slots)) [
  | inl low ↦ rw low (
      >>=-is_ok (list_times times (i + 1) left) _ (λ tail. refl)
      ∙ list_times-is_ok times (i + 1) left (ground arith)
      ∙ ground arith)
  | inr high ↦ rw high (ground arith)
]

section_text-is_ok : (times : Word → Word) (n : ℕ) → is_ok (section_text times n) ≡ ltb n slots
unfolding section_text
section_text-is_ok times n = list_times-is_ok times 3 (n - 2) (omega arith) ∙ ground arith

each_is_ok :
    (m : Outcome Bytes) (next : Bytes → Outcome Bytes) (b : Bool)
    → is_ok m ≡ b
    → ((x : Bytes) → is_ok (next x) ≡ b)
    → is_ok (m >>= next) ≡ b
each_is_ok (ok x) next b e h = h x
each_is_ok (panic fault) next b e h = e
each_is_ok starved next b e h = e

first_fails :
    (m : Outcome Bytes) (next : Bytes → Outcome Bytes)
    → is_ok m ≡ false
    → is_ok (m >>= next) ≡ false
first_fails (ok x) next e = absurd (cc)
first_fails (panic fault) next e = refl
first_fails starved next e = refl

report-is_ok :
    (payload_size : Word) (st : Statistics)
    → is_ok (report payload_size st) ≡ ltb st.committed_block_no slots
unfolding report
report-is_ok payload_size st =
    let n = st.committed_block_no in
    elim (Bool-cases (ltb n slots)) [
      | inl low ↦
          each_is_ok (section_text st.all_block_latency n) _ _
            (section_text-is_ok st.all_block_latency n)
            (λ latency.
              each_is_ok (section_text st.my_block_latency n) _ _
                (section_text-is_ok st.my_block_latency n)
                (λ mine.
                  each_is_ok (section_text st.all_block_times n) _ _
                    (section_text-is_ok st.all_block_times n) (λ times. sym low)))
      | inr high ↦
          first_fails (section_text st.all_block_latency n) _
            (section_text-is_ok st.all_block_latency n ∙ high)
          ∙ sym high
    ]

-- A query is answered without a crash exactly when the experiment has not started or is not over,
-- or the number of committed blocks is below 10000.
pub query_reply-is_ok :
    (now payload_size : Word) (st : Statistics)
    → is_ok (query_reply now payload_size st)
      ≡ (not (is_reported now st) || ltb st.committed_block_no slots)
unfolding query_reply
query_reply-is_ok now payload_size st = elim (Bool-cases (is_reported now st)) [
  | inl told ↦ rw told (report-is_ok payload_size st)
  | inr untold ↦ rw untold refl
]
