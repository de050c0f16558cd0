-- ===== src/Plugin.antt =====
-- plugins/data_exchange_plugin/data_exchange_plugin.cpp: the cipher of wallet passwords, the
-- timer's task that proposes the next trade to the contract, and the queues of deals.
pub mod Cipher
pub mod Matching
pub mod Queues
pub mod Wallets
pub mod Actions
pub mod AssetText
pub mod Call
pub mod Timer
pub mod Options
pub mod Task
