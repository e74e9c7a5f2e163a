-- ===== src/Config/Ids.antt =====
-- config/config.go: the ids that a loaded configuration has, and how many of them are Byzantine.
use banyan.Base.{
  ℕ, zero, suc, ◌+◌, ◌-◌, ◌%◌, ◌^◌, ◌≤◌, word_mod, ◌<◌, ◌≡◌, refl, ap, subst, ◌∙◌, inl, inr, List,
  [], ◌∷◌, ◌++◌, some, Bool, true, false, ◌&&◌, leb, ltb, ◌==◌, slt_small, sub, if◌then◌else◌,
  length, insert, bytes_eq, Bytes, Gives, Gives-bind, arith, Bool-cases,
}
use banyan.Identity.{NodeId, new_node_id}
use banyan.Identity.RoundTrip.{node-new_node_id}
use banyan.Config.{
  Config, keys, ids, assign, tcp_address, http_address, load_ips, load, is_byzantine,
}

-- The ids of `n` nodes from `lo` on.
unfoldable pub numbered : ℕ → ℕ → List NodeId
numbered lo zero = []
numbered lo (suc n) = new_node_id lo ∷ numbered (suc lo) n

unfoldable listed : List NodeId → NodeId → Bool
listed [] id = false
listed (x ∷ xs) id = let more = listed xs id in if bytes_eq.beq x id then true else more

keys-insert :
    (m : List (NodeId × Bytes)) (id : NodeId) (v : Bytes)
    → keys (insert id v m) ≡ (if listed (keys m) id then keys m else keys m ++ id ∷ [])
unfolding keys insert listed
keys-insert [] id v = refl
keys-insert ((x, w) ∷ m) id v = ground (arith, bytes_eq.beq_iff x id, keys-insert m id v)

same_id :
    (i j : ℕ) → i < 2 ^ 63 → j < 2 ^ 63 → bytes_eq.beq (new_node_id i) (new_node_id j) ≡ (i == j)
same_id i j h k = ground (
  arith,
  bytes_eq.beq_iff (new_node_id i) (new_node_id j),
  node-new_node_id i h,
  node-new_node_id j k,
)

listed-numbered :
    (lo n i : ℕ)
    → lo + n < 2 ^ 63
    → i < 2 ^ 63
    → listed (numbered lo n) (new_node_id i) ≡ (leb lo i && ltb i (lo + n))
unfolding listed numbered
listed-numbered lo zero i h k = ground (arith)
listed-numbered lo (suc n) i h k =
    ground
      (arith, same_id lo i (omega (arith, h)) k, listed-numbered (suc lo) n i (omega (arith, h)) k)

numbered-snoc : (lo n : ℕ) → numbered lo n ++ new_node_id (lo + n) ∷ [] ≡ numbered lo (suc n)
unfolding numbered
numbered-snoc lo zero = ap (λ i. new_node_id i ∷ []) (omega arith)
numbered-snoc lo (suc n) =
    let same : lo + suc n ≡ suc lo + n = omega arith in
    ap (λ i. new_node_id lo ∷ (numbered (suc lo) n ++ new_node_id i ∷ [])) same
    ∙ ap (λ r. new_node_id lo ∷ r) (numbered-snoc (suc lo) n)

length-numbered : (lo n : ℕ) → length (numbered lo n) ≡ n
unfolding numbered
length-numbered lo zero = refl
length-numbered lo (suc n) = ap suc (length-numbered (suc lo) n)

-- Both maps are there, and the addresses are those of the nodes 1 to `n`.
pub record HasIds (byz_no n : ℕ) (c : Config) : Type 0 where
  pub tcp : List (NodeId × Bytes)
  pub http : List (NodeId × Bytes)
  pub tcp_there : c.addrs ≡ some tcp
  pub http_there : c.http_addrs ≡ some http
  pub numbers : keys tcp ≡ numbered 1 n
  pub byzantine : c.byz_no ≡ byz_no

-- One more id, or one that is there.
keys_next :
    (m : List (NodeId × Bytes)) (n i : ℕ) (v : Bytes)
    → keys m ≡ numbered 1 n
    → 1 ≤ i
    → i ≤ n + 1
    → n < 2 ^ 62
    → keys (insert (new_node_id i) v m) ≡ numbered 1 (if leb i n then n else n + 1)
keys_next m n i v known low next bound = elim (Bool-cases (leb i n)) [
  | inl old ↦
      let here : listed (keys m) (new_node_id i) ≡ true =
        ap (λ l. listed l (new_node_id i)) known
        ∙ listed-numbered 1 n i (omega (arith, bound)) (omega (arith, next, bound))
        ∙ ground (arith, old, low) in
      rw old (keys-insert m (new_node_id i) v ∙ rw here known)
  | inr new ↦
      let same : i ≡ 1 + n = ground (arith, new, next) in
      let absent : listed (keys m) (new_node_id i) ≡ false =
        ap (λ l. listed l (new_node_id i)) known
        ∙ listed-numbered 1 n i (omega (arith, bound)) (omega (arith, next, bound))
        ∙ ground (arith, same) in
      rw new (
        keys-insert m (new_node_id i) v
        ∙ rw absent (
            ap (λ l. l ++ new_node_id i ∷ []) known
            ∙ ap (λ j. numbered 1 n ++ new_node_id j ∷ []) same
            ∙ numbered-snoc 1 n
            ∙ ap (numbered 1) (omega arith)))
]

load_ips-HasIds :
    (byz_no i n total : ℕ) (c : Config) (hosts : List Bytes)
    → HasIds byz_no n c
    → 1 ≤ i
    → i ≤ n + 1
    → n ≤ total
    → i + length hosts ≡ total + 1
    → total < 2 ^ 62
    → Gives (HasIds byz_no total) (load_ips i c hosts)
unfolding load_ips assign
load_ips-HasIds byz_no i n total c [] h low next fits count bound =
    subst (λ t. HasIds byz_no t c) (omega (arith, next, fits, count)) h
load_ips-HasIds byz_no i n total c (host ∷ hosts) h low next fits count bound =
    rw (load_ips, h.tcp_there, h.http_there)
      (load_ips-HasIds byz_no (i + 1) (if leb i n then n else n + 1) total _ hosts
        (record {
          tcp = insert (new_node_id i) (tcp_address i host) h.tcp;
          http = insert (new_node_id i) (http_address i host) h.http;
          tcp_there = refl;
          http_there = refl;
          numbers =
              keys_next h.tcp n i (tcp_address i host) h.numbers low next
                (omega (arith, fits, bound));
          byzantine = h.byzantine;
        })
        (omega (arith, low)) (ground (arith, next)) (ground (arith, fits, count))
        (omega (arith, count)) bound)

-- How many of the ids the configuration calls Byzantine.
unfoldable pub count_byzantine : Config → List NodeId → ℕ
count_byzantine c [] = 0
count_byzantine c (id ∷ rest) =
    let more = count_byzantine c rest in if is_byzantine c id then suc more else more

is_byzantine-new_node_id :
    (c : Config) (n byz_no i : ℕ)
    → c.n ≡ n
    → c.byz_no ≡ byz_no
    → byz_no ≤ n
    → n < 2 ^ 62
    → i < 2 ^ 63
    → is_byzantine c (new_node_id i) ≡ ltb n (byz_no + i)
unfolding is_byzantine sub
is_byzantine-new_node_id c n byz_no i size faulty some_left bound small =
    rw (size, faulty, node-new_node_id i small)
      (ground (
        arith,
        slt_small ((n + word_mod - byz_no) % word_mod) i (omega (arith, some_left, bound)) small,
        some_left,
        bound,
      ))

count_byzantine-numbered :
    (c : Config) (n byz_no lo k : ℕ)
    → c.n ≡ n
    → c.byz_no ≡ byz_no
    → byz_no ≤ n
    → n < 2 ^ 62
    → lo + k ≡ n + 1
    → 1 ≤ lo
    → count_byzantine c (numbered lo k) ≡ (if leb k byz_no then k else byz_no)
unfolding count_byzantine numbered
count_byzantine-numbered c n byz_no lo zero size faulty some_left bound end low = ground (arith)
count_byzantine-numbered c n byz_no lo (suc k) size faulty some_left bound end low = ground (
  arith,
  is_byzantine-new_node_id c n byz_no lo size faulty some_left bound (omega (arith, end, bound)),
  count_byzantine-numbered c n byz_no (suc lo) k size faulty some_left bound (omega (arith, end))
      (omega arith),
  some_left,
  end,
)

-- The ids are 1 to `n`, and as many of them are Byzantine as the configuration says.
pub record IsLoaded (byz_no n : ℕ) (c : Config) : Type 0 where
  pub all_ids : ids c ≡ numbered 1 n
  pub size : c.n ≡ n
  pub faulty : count_byzantine c (ids c) ≡ byz_no

-- A decoded configuration that has addresses for the nodes 1 to m, and fewer than 2^62 hosts, m and
-- ByzNo or more: Load returns, the ids are those of 1 to the number of hosts, N is that number, and
-- IsByzantine holds of exactly ByzNo of the ids.
pub load-IsLoaded :
    (c : Config) (hosts : List Bytes) (m byz_no : ℕ)
    → HasIds byz_no m c
    → m ≤ length hosts
    → byz_no ≤ length hosts
    → length hosts < 2 ^ 62
    → Gives (IsLoaded byz_no (length hosts)) (load c hosts)
unfolding load ids
load-IsLoaded c hosts m byz_no h known some_left bound =
    Gives-bind (HasIds byz_no (length hosts)) (IsLoaded byz_no (length hosts)) (load_ips 1 c hosts)
      _
      (load_ips-HasIds byz_no 1 m (length hosts) c hosts h (omega arith) (omega arith) known
        (omega arith) bound)
      (λ d k.
        let named : ids d ≡ numbered 1 (length hosts) = rw (ids, k.tcp_there) k.numbers in
        let many : length (ids d) ≡ length hosts =
          ap length named ∙ length-numbered 1 (length hosts) in
        record {
          all_ids = named;
          size = many;
          faulty =
              ap (count_byzantine (record d { n = length (ids d) })) named
              ∙ count_byzantine-numbered (record d { n = length (ids d) }) (length hosts) byz_no 1
                  (length hosts) many k.byzantine some_left bound (omega arith) (omega arith)
              ∙ ground (arith, some_left);
        })
