-- ===== src/View/Timeouts.antt =====
-- pacemaker/: timeouts by view, and the view that a replica is in. The mutexes make each call
-- atomic; the channel is the list of what was sent.
use banyan.Base.{
  ℕ, ◌*◌, ◌/◌, List, [], ◌∷◌, ◌++◌, Option, none, some, Bool, true, false, ltb, slt, add,
  if◌then◌else◌, Word,
}
use banyan.Identity.{NodeId}
use banyan.Crypto.{Signature, AggSig}
use banyan.Ballots.{Ballots, no_ballots, ballot_count, cast}
use banyan.View.Votes.{Qc}

-- `TMO`; the certificate is a pointer that may be nil.
pub record Tmo : Type 0 where
  pub view : Word
  pub node_id : NodeId
  pub high_qc : Option Qc

pub record Tc : Type 0 where
  pub view : Word
  pub agg_sig : AggSig
  pub signature : Signature

-- The requesters are not used.
unfoldable pub new_tc : Word → Tc
new_tc view = record { view = view; agg_sig = []; signature = [] }

pub record TimeoutController : Type 0 where
  pub n : ℕ
  pub timeouts : Ballots Tmo

unfoldable pub new_timeout_controller : ℕ → TimeoutController
new_timeout_controller n = record { n = n; timeouts = no_ballots }

unfoldable pub total : TimeoutController → Word → ℕ
total tcl view = ballot_count tcl.timeouts view

unfoldable pub super_majority : TimeoutController → Word → Bool
super_majority tcl view = ltb (tcl.n * 2 / 3) (total tcl view)

-- The two results: whether the timeout completes the quorum, and the certificate, a pointer.
unfoldable pub add_tmo : TimeoutController → Tmo → TimeoutController × Bool × Option Tc
add_tmo tcl tmo =
    let tcl' : TimeoutController = record tcl {
      timeouts = cast tcl.timeouts tmo.view tmo.node_id tmo;
    } in
    if super_majority tcl tmo.view
    then (tcl, false, none)
    else if super_majority tcl' tmo.view
    then (tcl', true, some (new_tc tmo.view))
    else (tcl', false, none)

pub record Pacemaker : Type 0 where
  pub cur_view : Word
  pub new_view_chan : List Word
  pub timeout_controller : TimeoutController

unfoldable pub new_pacemaker : ℕ → Pacemaker
new_pacemaker n = record {
  cur_view = 0;
  new_view_chan = [];
  timeout_controller = new_timeout_controller n;
}

unfoldable pub process_remote_tmo : Pacemaker → Tmo → Pacemaker × Bool × Option Tc
process_remote_tmo p tmo =
    let (tcl, built, tc) = add_tmo p.timeout_controller tmo in
    if slt tmo.view p.cur_view
    then (p, false, none)
    else (record p { timeout_controller = tcl }, built, tc)

unfoldable pub advance_view : Pacemaker → Word → Pacemaker
advance_view p view =
    if slt view p.cur_view
    then p
    else record p { cur_view = add view 1; new_view_chan = p.new_view_chan ++ add view 1 ∷ [] }
