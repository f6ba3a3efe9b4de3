-- ===== src/MultiSig.antt =====
-- src/libSchnorr/include/MultiSig.h: the objects that the signers and the aggregator of a
-- multisignature exchange, each with its source file, and `class MultiSig`.
pub mod Objects
pub mod CommitSecret
pub mod CommitPoint
pub mod CommitPointHash
pub mod Challenge
pub mod Response
pub mod Aggregate
pub mod Sums
pub mod Signer
pub mod Challenges
pub mod Answering
pub mod Signers
pub mod Correct
pub mod Runs
pub mod ChallengeRuns
pub mod Answers
pub mod RoundTrip
pub mod Copies
pub mod Order
pub mod Protocol
pub mod Domains
pub mod Separation
pub mod Reached
pub mod Checked
pub mod Honest
pub mod Memory
pub mod Party
