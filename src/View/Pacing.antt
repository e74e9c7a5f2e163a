-- ===== src/View/Pacing.antt =====
-- pacemaker/: the timeout certificates of a sequence of timeouts, and the views that the channel
-- carries.
use banyan.Base.{
  ℕ, ◌+◌, ◌≤◌, ◌<◌, ◌≡◌, refl, inl, inr, List, [], ◌∷◌, true, false, if◌then◌else◌, arith,
  Bool-cases, ==_iff, length-insert, bytes_eq, slt, add, biased, Word, All,
}
use banyan.Ballots.{ballots_of, ballot_count, cast}
use banyan.Ballots.Quorum.{ballots_of-cast}
use banyan.LocalTimeout.Rising.{Above, last_of, snoc-Above, last_of-snoc}
use banyan.View.Once.{occurrences}
use banyan.View.Timeouts.{
  Tmo, TimeoutController, total, super_majority, add_tmo, Pacemaker, new_pacemaker, advance_view,
}

-- The views of the timeouts of a sequence for which AddTmo says that a certificate was built.
unfoldable pub timed_out : TimeoutController → List Tmo → List Word
timed_out tcl [] = []
timed_out tcl (tmo ∷ tmos) =
    let rest = timed_out (add_tmo tcl tmo).0 tmos in
    if (add_tmo tcl tmo).1 then tmo.view ∷ rest else rest

total-cast :
    (tcl : TimeoutController) (view : Word) (tmo : Tmo)
    → ballot_count tcl.timeouts view
      ≤ ballot_count (cast tcl.timeouts tmo.view tmo.node_id tmo) view
unfolding ballot_count
total-cast tcl view tmo = rw (ballots_of-cast tcl.timeouts tmo.view view tmo.node_id tmo) (
    ground (
      arith,
      ==_iff tmo.view view,
      length-insert tmo.node_id tmo (ballots_of tcl.timeouts tmo.view),
    ))

add_tmo-keeps :
    (tcl : TimeoutController) (tmo : Tmo) (view : Word)
    → super_majority tcl view ≡ true
    → super_majority (add_tmo tcl tmo).0 view ≡ true
unfolding super_majority total add_tmo
add_tmo-keeps tcl tmo view h = ground (arith, total-cast tcl view tmo)

add_tmo-completes :
    (tcl : TimeoutController) (tmo : Tmo)
    → (add_tmo tcl tmo).1 ≡ true
    → (super_majority tcl tmo.view ≡ false) × (super_majority (add_tmo tcl tmo).0 tmo.view ≡ true)
unfolding add_tmo
add_tmo-completes tcl tmo h = ground (arith)

-- AddTmo reports a built certificate for at most one timeout of a view in a sequence of timeouts,
-- and for none of a view that has its super majority already.
pub timed_out-once :
    (tcl : TimeoutController) (tmos : List Tmo) (view : Word)
    → occurrences view (timed_out tcl tmos) + (if super_majority tcl view then 1 else 0) ≤ 1
unfolding timed_out occurrences
timed_out-once tcl [] view = ground (arith)
timed_out-once tcl (tmo ∷ tmos) view = elim (Bool-cases (add_tmo tcl tmo).1) [
  | inr e ↦
      rw (timed_out, e)
        (ground (arith, timed_out-once (add_tmo tcl tmo).0 tmos view, add_tmo-keeps tcl tmo view))
  | inl e ↦
      let done = add_tmo-completes tcl tmo e in
      rw (timed_out, e)
        (ground (
          arith,
          timed_out-once (add_tmo tcl tmo).0 tmos view,
          add_tmo-keeps tcl tmo view,
          done.0,
          done.1,
          ==_iff tmo.view view,
        ))
]

-- The channel rises from the view 0 to the current one.
pub IsAdvancing : Pacemaker → Type 0
IsAdvancing p =
    Above (biased 0) p.new_view_chan × (last_of (biased 0) p.new_view_chan ≡ biased p.cur_view)

advance_view-IsAdvancing :
    (p : Pacemaker) (view : Word)
    → biased view < biased (add view 1)
    → IsAdvancing p
    → IsAdvancing (advance_view p view)
unfolding IsAdvancing advance_view
advance_view-IsAdvancing p view higher (above, last) = elim (Bool-cases (slt view p.cur_view)) [
  | inl old ↦ rw old (above, last)
  | inr new ↦ rw new (
    snoc-Above (biased 0) p.new_view_chan (add view 1) above (ground (arith, last, new, higher)),
    last_of-snoc (biased 0) p.new_view_chan (add view 1),
  )
]

unfoldable pub advance_all : Pacemaker → List Word → Pacemaker
advance_all p [] = p
advance_all p (v ∷ vs) = advance_all (advance_view p v) vs

advance_all-IsAdvancing :
    (p : Pacemaker) (vs : List Word)
    → All (λ v. biased v < biased (add v 1)) vs
    → IsAdvancing p
    → IsAdvancing (advance_all p vs)
unfolding advance_all
advance_all-IsAdvancing p [] h r = r
advance_all-IsAdvancing p (v ∷ vs) (higher, h) r =
    advance_all-IsAdvancing (advance_view p v) vs h (advance_view-IsAdvancing p v higher r)

-- After any calls of AdvanceView on a new pacemaker, for views other than the greatest int, the
-- views in the channel rise strictly, in the order of int, from above 0 to the current view.
pub new_views_rise :
    (n : ℕ) (vs : List Word)
    → All (λ v. biased v < biased (add v 1)) vs
    → IsAdvancing (advance_all (new_pacemaker n) vs)
unfolding IsAdvancing new_pacemaker
new_views_rise n vs h = advance_all-IsAdvancing (new_pacemaker n) vs h (tt, refl)
