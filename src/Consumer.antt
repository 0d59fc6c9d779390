-- ===== src/Consumer.antt =====
-- The three Kafka consumers of consumers/src/.
pub mod Change
pub mod Lsn
pub mod Redis
pub mod Effects
pub mod Updater
pub mod Notifier
pub mod Indexer
pub mod Loop
pub mod Inbox
pub mod Avro
pub mod Key
mod Tests
