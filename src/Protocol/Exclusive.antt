-- ===== src/Protocol/Exclusive.antt =====
-- protocol/banyan.go and protocol/icc_actually.go: the parts of the state that the votes of a replica
-- on a height depend on, and what each update of them keeps.
use banyan.Base.{
  ℕ, ◌+◌, ◌≤◌, ◌≡◌, ◌⊎◌, sym, ap, ◌∙◌, subst, inl, inr, List, [], ◌∷◌, ◌++◌, Bool, true, false, slt,
  biased, update, arith, Word, ==_iff, ltb→lt, In, In-append,
}
use banyan.Crypto.{Identifier}
use banyan.Chain.{Block}
use banyan.Shares.{NotarizationShare, FinalizationShare}
use banyan.Protocol.Common.{Message, block, notarization, finalization}

-- The parts of the state that the votes depend on, where `height_of` gives the height of a block.
pub record Exclusive (height_of : Identifier → Word) (head : Word)
    (is_notarized : Identifier → Bool) (no : Word → ℕ) (voted : Word → Identifier)
    (sent_fshare : Word → Bool) (sent : List Message) : Type 0 where
  pub notarized_below :
      (id : Identifier) → is_notarized id ≡ true → biased (height_of id) ≤ biased head
  pub single : (h : Word) → sent_fshare h ≡ true → (no h ≡ 1) × (biased h ≤ biased head)
  pub votes :
      (ns : NotarizationShare)
      → In (notarization ns) sent
      → (1 ≤ no ns.height) × (no ns.height ≡ 1 → voted ns.height ≡ ns.block_id)
  pub finals :
      (fs : FinalizationShare)
      → In (finalization fs) sent
      → (sent_fshare fs.height ≡ true) × (voted fs.height ≡ fs.block_id)

-- A message gives the height of its block as the block's.
abbrev pub Agrees : (Identifier → Word) → Message → Type 0
Agrees height_of (block b) = height_of b.id ≡ b.height
Agrees height_of (notarization ns) = height_of ns.block_id ≡ ns.height
Agrees height_of (finalization fs) = Unit

pub In-snoc : (a x : Message) (xs : List Message) → In a (xs ++ x ∷ []) → In a xs ⊎ (x ≡ a)
In-snoc a x xs h = elim (In-append a xs (x ∷ []) h) [
  | inl old ↦ inl old
  | inr (inl new) ↦ inr new
  | inr (inr none_left) ↦ elim none_left [ ]
]

pub finalization-injective : (a b : FinalizationShare) → finalization a ≡ finalization b → a ≡ b
finalization-injective a b h = cc

pub notarization-injective : (a b : NotarizationShare) → notarization a ≡ notarization b → a ≡ b
notarization-injective a b h = cc

module _ (height_of : Identifier → Word) (head : Word) (is_notarized : Identifier → Bool)
    (no : Word → ℕ) (voted : Word → Identifier) (sent_fshare : Word → Bool) (sent : List Message)
    (e : Exclusive height_of head is_notarized no voted sent_fshare sent) where
  -- Shares of one height are for one block.
  pub same_height :
      (ns : NotarizationShare) (fs : FinalizationShare)
      → In (notarization ns) sent
      → In (finalization fs) sent
      → ns.height ≡ fs.height
      → ns.block_id ≡ fs.block_id
  same_height ns fs vote final same =
      let (noted, id) = e.finals fs final in
      let one = (e.single fs.height noted).0 in
      let (some_vote, only) = e.votes ns vote in
      (sym (only (ap no same ∙ one)) ∙ (ap voted same ∙ id))

  -- A notarized block raises the head to its height.
  pub raised-Exclusive :
      (id : Identifier)
      → slt head (height_of id) ≡ true
      → Exclusive height_of (height_of id) (update is_notarized id true) no voted sent_fshare sent
  raised-Exclusive id above = record {
    notarized_below = λ j n. ground (
      arith,
      ltb→lt (biased head) (biased (height_of id)) above,
      e.notarized_below j,
      ==_iff id j,
    );
    single = λ k f.
        let old = e.single k f in
        (old.0, omega (arith, old.1, ltb→lt (biased head) (biased (height_of id)) above));
    votes = e.votes;
    finals = e.finals;
  }

  -- A notarized block that is not above the head.
  pub marked-Exclusive :
      (id : Identifier)
      → slt head (height_of id) ≡ false
      → Exclusive height_of head (update is_notarized id true) no voted sent_fshare sent
  marked-Exclusive id below = record {
    notarized_below = λ j n. ground (arith, below, e.notarized_below j, ==_iff id j);
    single = e.single;
    votes = e.votes;
    finals = e.finals;
  }

  pub block-Exclusive :
      (b : Block)
      → Exclusive height_of head is_notarized no voted sent_fshare (sent ++ block b ∷ [])
  block-Exclusive b = record {
    notarized_below = e.notarized_below;
    single = e.single;
    votes = λ ns i. elim (In-snoc (notarization ns) (block b) sent i) [
      | inl old ↦ e.votes ns old
      | inr new ↦ absurd (cc)
    ];
    finals = λ fs i. elim (In-snoc (finalization fs) (block b) sent i) [
      | inl old ↦ e.finals fs old
      | inr new ↦ absurd (cc)
    ];
  }

  -- A finalization share is noted and broadcast, for the only block voted for.
  pub final-Exclusive :
      (share : FinalizationShare)
      → no share.height ≡ 1
      → voted share.height ≡ share.block_id
      → biased share.height ≤ biased head
      → Exclusive height_of head is_notarized no voted
          (update sent_fshare share.height true)
          (sent ++ finalization share ∷ [])
  final-Exclusive share one same below = record {
    notarized_below = e.notarized_below;
    single = λ h f. ground (arith, e.single h, ==_iff share.height h);
    votes = λ ns i. elim (In-snoc (notarization ns) (finalization share) sent i) [
      | inl old ↦ e.votes ns old
      | inr new ↦ absurd (cc)
    ];
    finals = λ fs i. elim (In-snoc (finalization fs) (finalization share) sent i) [
      | inl old ↦ let f = e.finals fs old in (ground (arith, f.0), f.1)
      | inr new ↦
          subst
            (λ x.
              (update sent_fshare share.height true x.height ≡ true)
              × (voted x.height ≡ x.block_id))
            (finalization-injective share fs new) (ground (arith), same)
    ];
  }

  -- The notarization share is counted, noted and broadcast.
  pub vote-Exclusive :
      (share : NotarizationShare)
      → slt head share.height ≡ true
      → Exclusive height_of head is_notarized
          (update no share.height (no share.height + 1))
          (update voted share.height share.block_id)
          sent_fshare
          (sent ++ notarization share ∷ [])
  vote-Exclusive share above = record {
    notarized_below = e.notarized_below;
    single = λ h f.
        let old = e.single h f in
        (
          ground (
            arith,
            old.0,
            old.1,
            ltb→lt (biased head) (biased share.height) above,
            ==_iff share.height h,
          ),
          old.1,
        );
    votes = λ ns i. elim (In-snoc (notarization ns) (notarization share) sent i) [
      | inl old ↦ ground (arith, e.votes ns old, ==_iff share.height ns.height)
      | inr new ↦
          subst
            (λ x.
              (1 ≤ update no share.height (no share.height + 1) x.height)
              × (update no share.height (no share.height + 1) x.height ≡ 1
                  → update voted share.height share.block_id x.height ≡ x.block_id))
            (notarization-injective share ns new) (ground (arith), λ _. ground (arith))
    ];
    finals = λ fs i. elim (In-snoc (finalization fs) (notarization share) sent i) [
      | inl old ↦
          let f = e.finals fs old in
          let old_h = e.single fs.height f.0 in
          (
            f.0,
            ground (
              arith,
              f.1,
              old_h.1,
              ltb→lt (biased head) (biased share.height) above,
              ==_iff share.height fs.height,
            ),
          )
      | inr new ↦ absurd (cc)
    ];
  }
