-- ===== src/Protocol/Streamlet/Proposals.antt =====
-- protocol/streamlet.go: what becomes of a proposal that passed the checks of `ProcessBlock`.
use banyan.Base.{
  ℕ, suc, ◌≤◌, ◌≡◌, refl, ◌∙◌, inl, inr, List, [], ◌∷◌, ◌++◌, none, some, Bool, true, false, slt,
  sle, update, if◌then◌else◌, ok, panic, ◌>>=◌, index_out_of_range, arith, Bool-cases,
}
use mathlib.Core.Option.{get_or}
use banyan.Forest.{get_vertex, has_vertex, add_vertex}
use banyan.Forest.Invariant.{IsWellFormed}
use banyan.Forest.Lookup.{get_vertex-add_vertex, has_vertex-get_vertex}
use banyan.Election.{is_leader_view}
use banyan.View.{Block, block_vertex, exists, add_block, get_block_by_id, Qc}
use banyan.Protocol.Views.{ViewEnv, block_message}
use banyan.Protocol.Streamlet.{
  Streamlet, get_notarized_height, has_id, tail_level, voting_rule, store_block, check_proposer,
  accept_block, block_step, process_block, process_certificate,
}

-- The block is new, not older than the view, extends a stored block and comes from the leader of
-- its view.
pub record IsProposal (s : Streamlet) (b parent : Block) : Type 0 where
  pub fresh : exists s.bc b.id ≡ false
  pub timely : slt b.view s.pm.cur_view ≡ false
  pub extends : get_block_by_id s.bc b.prev_id ≡ some parent
  pub elected : is_leader_view s.election b.proposer b.view ≡ true

module _ (env : ViewEnv) (fuel : ℕ) (s : Streamlet) (b parent : Block)
    (p : IsProposal s b parent) where
  process_block-accept_block : process_block env (suc fuel) s b ≡ (
      accept_block env (process_block env fuel) (process_certificate env fuel) s b >>= λ t.
      ok (t, none))
  unfolding process_block block_step
  process_block-accept_block =
      rw (process_block, block_step, p.fresh, p.timely, p.extends, p.elected) refl

-- The state in which a block with a certificate is echoed and stored.
unfoldable stored : Streamlet → Block → Streamlet
stored s b =
    let t : Streamlet = if s.echoed_block b.id then s else record s {
      echoed_block = update s.echoed_block b.id true;
      sent = s.sent ++ block_message b ∷ [];
    } in
    record t { bc = record t.bc { forest = add_vertex t.bc.forest b } }

store_block-eq-stored :
    (s : Streamlet) (b : Block) (qc : Qc) → b.qc ≡ some qc → store_block s b ≡ ok (stored s b)
unfolding store_block add_block stored
store_block-eq-stored s b qc certified = elim (Bool-cases (s.echoed_block b.id)) [
  | inl e ↦ ground (arith, e, certified)
  | inr e ↦ ground (arith, e, certified)
]

stored_tail : (s : Streamlet) (b : Block) → tail_level (stored s b) ≡ tail_level s
unfolding stored tail_level get_notarized_height
stored_tail s b = elim (Bool-cases (s.echoed_block b.id)) [ inl e ↦ rw e refl | inr e ↦ rw e refl ]

stored_chain : (s : Streamlet) (b : Block) → (stored s b).notarized_chain ≡ s.notarized_chain
unfolding stored
stored_chain s b = ground (arith)

stored_quorum : (s : Streamlet) (b : Block) → (stored s b).bc.quorum ≡ s.bc.quorum
unfolding stored
stored_quorum s b = ground (arith)

process_block_known :
    (env : ViewEnv) (fuel : ℕ) (s : Streamlet) (b : Block)
    → exists s.bc b.id ≡ true
    → process_block env (suc fuel) s b ≡ ok (s, none)
unfolding process_block block_step
process_block_known env fuel s b known = rw (process_block, block_step, known) refl

stored-exists :
    (s : Streamlet) (b : Block)
    → IsWellFormed block_vertex s.bc.forest
    → s.bc.forest.lowest_level ≤ b.view
    → exists (stored s b).bc b.id ≡ true
unfolding stored exists
stored-exists s b w fits = elim (Bool-cases (s.echoed_block b.id)) [
  | inl e ↦ rw e known
  | inr e ↦ rw e known
]
  where
    known : has_vertex (add_vertex s.bc.forest b) b.id ≡ true
    known =
        has_vertex-get_vertex (add_vertex s.bc.forest b) b.id
          {v = get_or (get_vertex s.bc.forest b.id) b}
          (get_vertex-add_vertex s.bc.forest w b b.id ∙ ground (arith, fits))

voting_rule_empty :
    (s : Streamlet) (b : Block)
    → sle b.view 2 ≡ false
    → s.notarized_chain ≡ []
    → voting_rule s b ≡ panic index_out_of_range
unfolding voting_rule tail_level
voting_rule_empty s b late chain = rw (voting_rule, late) (rw (tail_level, chain) refl)

voting_rule_other :
    (s : Streamlet) (b : Block) (tail : List Block)
    → sle b.view 2 ≡ false
    → tail_level s ≡ ok tail
    → has_id tail b.prev_id ≡ false
    → voting_rule s b ≡ ok false
unfolding voting_rule
voting_rule_other s b tail late found other =
    rw (voting_rule, late) (rw (found, ◌>>=◌) (rw other refl))

-- The state in which a block is stored, and waits to be processed again.
unfoldable set_aside : Streamlet → Block → Streamlet
set_aside s b =
    let t = stored s b in record t { buffered_blocks = update t.buffered_blocks b.prev_id (some b) }

module _ (env : ViewEnv) (fuel : ℕ) (s : Streamlet) (b parent : Block) (verified : Bool)
    (p : IsProposal s b parent) (sound : check_proposer env s b ≡ ok verified)
    (late : sle b.view 2 ≡ false) (qc : Qc) (certified : b.qc ≡ some qc) where
  pub process_block_panic :
      s.notarized_chain ≡ [] → process_block env (suc fuel) s b ≡ panic index_out_of_range
  unfolding accept_block
  process_block_panic chain =
      process_block-accept_block env fuel s b parent p
      ∙ rw
          (
            accept_block,
            sound,
            ◌>>=◌,
            store_block-eq-stored s b qc certified,
            ◌>>=◌,
            voting_rule_empty (stored s b) b late (stored_chain s b ∙ chain),
          )
          refl

  process_block-set_aside :
      (tail : List Block)
      → tail_level s ≡ ok tail
      → has_id tail b.prev_id ≡ false
      → process_block env (suc fuel) s b ≡ ok (set_aside s b, none)
  unfolding accept_block set_aside
  process_block-set_aside tail found other =
      process_block-accept_block env fuel s b parent p
      ∙ rw
          (
            accept_block,
            sound,
            ◌>>=◌,
            store_block-eq-stored s b qc certified,
            ◌>>=◌,
            voting_rule_other (stored s b) b tail late (stored_tail s b ∙ found) other,
          )
          refl

  pub process_block_again :
      (tail : List Block) (again : ℕ)
      → tail_level s ≡ ok tail
      → has_id tail b.prev_id ≡ false
      → IsWellFormed block_vertex s.bc.forest
      → s.bc.forest.lowest_level ≤ b.view
      → (t : Streamlet) × (process_block env (suc fuel) s b ≡ ok (t, none))
        × (t.bc.quorum ≡ s.bc.quorum)
        × (t.buffered_blocks b.prev_id ≡ some b)
        × (process_block env (suc again) t b ≡ ok (t, none))
  unfolding set_aside
  process_block_again tail again found other w fits = (
    set_aside s b,
    process_block-set_aside tail found other,
    stored_quorum s b,
    ground arith,
    process_block_known env again (set_aside s b) b (stored-exists s b w fits),
  )
