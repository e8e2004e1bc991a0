-- ===== src/Tests.antt =====
-- Concrete blocks, chains, transfers, messages and files, and the theorems at them.
pub mod Fixtures
pub mod Wire
pub mod OfBlock
pub mod OfChain
pub mod OfExecutor
pub mod OfFpsc
pub mod OfSerializer
pub mod OfProtocol
pub mod OfNode
pub mod OfPipe
pub mod OfDatabase
pub mod OfWorker
pub mod OfFriends
pub mod OfExchange
pub mod OfFiles
pub mod OfFaker
pub mod OfStreaming
pub mod OfCalls
pub mod OfBinds
pub mod OfDelivery
pub mod OfStart
pub mod OfContext
