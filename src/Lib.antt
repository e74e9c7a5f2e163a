-- ===== src/Lib.antt =====
-- Banyan: a model of a framework for chained consensus protocols, and proofs about it.
--
-- A replica (replica/replica.go) takes messages from the network and events from its timer, and
-- hands them to a protocol (protocol/banyan.go, protocol/icc_actually.go). The protocol keeps a chain
-- of blocks (blockchain/), which is a forest of blocks by levels (blockchain/leveled_forrest.go), and
-- bags that collect the shares of the nodes (blockchain/notarization.go,
-- blockchain/finalization.go). It signs with crypto/, asks election/ who leads a rank, and tells
-- local_timeout/ of new heights. A second family of protocols works by views (protocol/hotstuff.go and
-- protocol/streamlet.go, around them replica/replica_view.go), with blockchain_view/ and pacemaker/.
--
-- Which file models which part:
--   Base         Go's numbers, maps and slices, and the outcome of a handler.
--   Forest       blockchain/leveled_forrest.go and blockchain/vertex.go: LevelledForest, AddVertex,
--                GetVertex, PruneUpToLevel, VerifyVertex, VertexIterator, over a store of containers
--                by address, as the source shares them by pointers.
--   Chain        blockchain/block.go, blockchain/container.go, blockchain/blockchain.go: Block,
--                BlockChain, CommitBlock.
--   Ballots      the maps of votes by block and voter that the bags share.
--   Shares       blockchain/notarization.go, blockchain/finalization.go: NSharesBag, FSharesBag and
--                NSharesBagBanyan, whose Add is n_add, f_add and b_add.
--   Identity     identity/identity.go: NewNodeID and Node.
--   Crypto       crypto/sign.go, crypto/ecdsa.go, crypto/signature.go: PrivSign, PubVerify,
--                VerifyQuorumSignature.
--   Election     election/rotation.go and election/static.go: IsLeader and FindLeaderFor.
--   Config       config/config.go: Load after decoding, IDs, IsByzantine.
--   Socket       socket/socket.go: Send and Broadcast; utils/utils.go: Retry.
--   LocalTimeout local_timeout/local_timeout.go: HeightIncreased.
--   Protocol     protocol/banyan.go (Protocol/Banyan) and protocol/icc_actually.go (Protocol/Icc):
--                ProcessBlock, ProcessNotarizationShare, ProcessFinalizationShare, TryToShip,
--                MakeProposal; protocol/hotstuff.go (Protocol/HotStuff): ProcessBlock, ProcessVote,
--                ProcessRemoteTmo, processCertificate and the rules; protocol/streamlet.go
--                (Protocol/Streamlet): the same, and the notarized chain. Protocol/Exclusive,
--                Protocol/Accounted and Protocol/Agreement hold what the two protocols by
--                heights share in their votes. Protocol/Safety is
--                replica/safety.go and the loop of Replica.Start, Protocol/ViewSafety is
--                replica/safety_view.go.
--   Node         node/node.go: Register, and the loops recv and handle.
--   Replica      replica/replica.go: proposing, processCommittedBlock, handleQuery (Replica/Query);
--                the handlers of messages, the loops of Start, ListenLocalEvent and
--                ListenCommittedBlocks, and what NewReplica registers (Replica/Heights);
--                replica/replica_view.go (Replica/Views): the handlers of messages, the loops
--                of Start and ListenLocalEvent, processCommittedBlock.
--   View         blockchain_view/ and pacemaker/: blocks by view, votes, certificates, timeouts.
--   Examples     concrete runs.
--
-- State is passed explicitly: a handler maps a state to an Outcome, which is a new state, a crash of
-- the process (an index out of range, a nil pointer, log.Fatalf), or a loop that used up its fuel.
-- What a replica broadcasts and puts into its channels is a list in its state, the oldest first. An
-- int and a uint64 are both a bit pattern below 2 ^ 64; a signed comparison biases them.
--
-- The goroutines of a replica are tasks or, in a replica by views, actions, one after the other in
-- any order; each runs to its end, and a channel holds any number of values. The source has no lock around the protocol, so
-- a race inside a handler is outside the model.
--
-- Fuel: the walks over a chain, TryToShip, and the nested calls of the handlers of HotStuff and
-- Streamlet take a bound on their rounds, where the source has none. A walk goes down the levels, so
-- it is given more fuel than the level it starts at; TryToShip takes a block out of the queue before
-- it calls itself, so it is given more fuel than the queue is long. What is said of the nested calls
-- of HotStuff and Streamlet is said for every fuel. A run that is out of fuel returns nothing.
--
-- Parameters: ECDSA and the hash of a block (Crypto, Env and ViewEnv), the identifier of the genesis
-- block, the order in which range visits a map, which attempts to dial succeed, and the lines of a
-- file. Node ids are byte texts, identifiers are numbers.
--
-- A network is a function from node ids to replicas, each with the list of its tasks. What the
-- receivers may rely on, that the shares in the name of a node that is not faulty are its own, is a
-- hypothesis on the messages that they take in.
--
-- Not modelled: transports, files, logging and metrics, which only read or carry data; the key
-- generation; the answer of a replica by views to a query, which is the same text as that of a
-- replica by heights. The forest of blockchain_view/ is a copy of that of blockchain/.
pub mod Base
pub mod Forest
pub mod Identity
pub mod Crypto
pub mod Election
pub mod Config
pub mod Socket
pub mod Chain
pub mod Ballots
pub mod Shares
pub mod LocalTimeout
pub mod View
pub mod Node
pub mod Protocol
pub mod Replica
pub mod Examples
