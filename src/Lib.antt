-- ===== src/Lib.antt =====
-- A model of the data exchange: the contract `mis.exchange`, which keeps a book of limit orders, and
-- the node's plugin `data_exchange_plugin`, which proposes trades to it.
--
-- The parts and how they interact. Accounts call the contract's actions (contracts/exchange):
-- `limit_order` puts an order into the table of buyers or of sellers, `cancel_limit_order` moves it to
-- the cancelled orders, `match_limit_order` trades two orders, and moves the one that is used up, or
-- both, to the done orders; `surprise_wlt` stores the encrypted passwords of wallets. The plugin
-- (plugins/data_exchange_plugin) reads both tables every 50 ms, looks for two orders of different
-- accounts, and sends the payment, the delivery of a token and `match_limit_order` in one
-- transaction, which a wallet signs whose password it has decrypted; it talks to the wallet by a
-- small HTTP client, and it has a pool of connections to a MySQL server.
--
-- Common: Booleans, lists and texts over the native numbers, searches in text, results of fallible
--   code, the integers with the wrap-around of int64_t.
-- Eosio: what the contract uses of the chain's library, as parameters: the tables
--   (eosio::multi_index) with the laws that its documentation states, assets with their comparison,
--   SHA-256, names, the signatures and the time of an action. Eosio/Reference has tables that are
--   lists, and Eosio/Instance a chain for the tests.
-- Exchange: contracts/exchange/src/exchange.cpp and include/exchange.hpp. Exchange has the contract's
--   state, Exchange/Orders the actions limit_order and cancel_limit_order, Exchange/Match
--   match_limit_order, Exchange/Wallet surprise_wlt and deliver_sgx_model_result, Exchange/Helpers
--   the rest. Exchange/Book has the invariant of the tables, Exchange/Reach the sequences of actions,
--   Exchange/Balance the sums over the tables, with Eosio/Total, and Exchange/Faults what the actions
--   allow and should not.
-- Utils: contracts/exchange/src/utils.cpp. Utils/Hex has the conversions between numbers, bytes and
--   text, Utils/Base58 the decoder of base58, Utils/Keys the keys and signatures in text and the
--   hashes.
-- Plugin: plugins/data_exchange_plugin/data_exchange_plugin.cpp. Plugin/Cipher has reverse_string,
--   the steps and encrypt_wltpwd, Plugin/AssetText has combine_asset, Plugin/Matching has
--   do_match_limit_order, with its two queries in Plugin/Matching/Index, Plugin/Queues the
--   queues of limit_order, which nothing reads yet, Plugin/Wallets the guard that opens and closes
--   wallets and decrypt_wltpwd, and Plugin/Actions the way from a call of push_action to a signed
--   transaction: permissions, arguments, the cache of ABIs, the actions, the transaction. Plugin/Task
--   is the matching task from the rows to the transaction, Plugin/Call one call of the wallet over
--   HTTP, Plugin/Timer the timer that starts the task, Plugin/Options has the options.
-- Api: plugins/data_exchange_api_plugin/data_exchange_api_plugin.cpp, the call of push_action over the
--   node's HTTP interface.
-- Agreement: the price rule of the plugin beside that of the contract.
-- Mysql: plugins/data_exchange_plugin/mysqlconn.cpp and connection_pool.cpp; the client library is a
--   parameter. Mysql/Connection has one connection, Mysql/Data the rows of a query, Mysql/Pool the
--   pool, Mysql/ConnectionPool the class of connection_pool.cpp, with the whole of lockConnection.
-- Http: plugins/data_exchange_plugin/httpc.cpp. Http has parse_url, whose regular expression is
--   written as scanners, Http/Call has resolve_url, the request and the treatment of the status,
--   Http/Response do_txrx with the reading of a reply from a stream, Http/DoCall do_http_call.
--
-- Conventions. A C++ string or checksum is the list of its bytes, a `name` of the contract its 64-bit
-- value, a `name` of the plugin its text. An action is a function from a state to a state or an error;
-- an error, a failed check or undefined behaviour ends it and leaves the old state, as the chain
-- does. int64_t arithmetic keeps its wrap-around, written as `add64` and `sub64`; size_t has 32 bits in
-- the contract, which is WebAssembly.
--
-- Fuel. The loop of `gcd` gets one round more than the size of its second number, which shrinks in
-- each round.
-- The loop over the candidates of a trade gets one round for each row and one for the end: each
-- round reads one more row. The exponent of a float has 40 rounds, enough for a number below 2^64.
-- The loops of the MySQL client that wait for a server have no bound in the source; their fuel is an
-- argument.
--
-- Not modelled: the escaping of text for MySQL, which the client library does; the length of the
-- timer's waits; the sockets of the HTTP client, which are parameters; the macros of
-- data_exchange_api_plugin that are used nowhere; the scripts.
pub mod Common
pub mod Eosio
pub mod Exchange
pub mod Utils
pub mod Plugin
pub mod Mysql
pub mod Http
pub mod Agreement
pub mod Api
