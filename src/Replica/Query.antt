-- ===== src/Replica/Query.antt =====
-- replica/replica.go and replica/replica_view.go: the answer to a query, which the two files write in
-- the same way.
pub mod Slots
use banyan.Base.{
  ℕ, zero, suc, ◌+◌, ◌-◌, ◌/◌, ◌++◌, [], Bool, not, ◌&&◌, ltb, slt, if◌then◌else◌, Word, Bytes, add,
  sub, word_mod, bytes, Outcome, ok, panic, ◌>>=◌, index_out_of_range,
}
use banyan.Identity.{itoa}
use banyan.Replica.Defs.{Statistics, slots}

-- `Duration.Milliseconds`: the division of `int64` rounds towards 0.
unfoldable pub milliseconds : Word → Word
milliseconds d = if slt d 0 then sub 0 ((word_mod - d) / 1000000) else d / 1000000

-- The loop over the slices, at the place `i` with so many places left.
unfoldable pub list_times : (Word → Word) → ℕ → ℕ → Outcome Bytes
list_times times i zero = ok []
list_times times i (suc left) =
    let rest = list_times times (i + 1) left in
    (if ltb i slots
      then ok (itoa (milliseconds (times i)) ++ bytes ",")
      else panic index_out_of_range)
    >>= λ head. rest >>= λ tail. ok (head ++ tail)

-- The places from 3 up to the number of committed blocks.
unfoldable pub section_text : (Word → Word) → ℕ → Outcome Bytes
section_text times committed_block_no = list_times times 3 (committed_block_no - 2)

unfoldable pub status_text : Statistics → Bytes
status_text st = bytes "Committed blocks: " ++ (itoa st.committed_block_no ++ bytes ".\n")

unfoldable pub report : Word → Statistics → Outcome Bytes
report payload_size st = section_text st.all_block_latency st.committed_block_no >>= λ latency.
    section_text st.my_block_latency st.committed_block_no >>= λ mine.
    section_text st.all_block_times st.committed_block_no >>= λ times. ok (
      bytes "blockPayloadSize\n"
      ++ (itoa payload_size
          ++ (bytes "\n"
              ++ (bytes "committedBlocks\n"
                  ++ (itoa st.committed_block_no
                      ++ (bytes "\n"
                          ++ (bytes "allBlockLatency\n"
                              ++ (latency
                                  ++ (bytes "\nproposerLatency\n"
                                      ++ (mine ++ (bytes "\nblockTime\n" ++ times)))))))))))

-- The statistics are told once the experiment has started and is over.
unfoldable pub is_reported : Word → Statistics → Bool
is_reported now st =
    st.experiment_started && slt (add st.experiment_start_time st.experiment_duration) now

unfoldable pub query_reply : Word → Word → Statistics → Outcome Bytes
query_reply now payload_size st =
    if not (is_reported now st) then ok (status_text st) else report payload_size st
