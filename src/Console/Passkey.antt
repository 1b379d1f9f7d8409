-- ===== src/Console/Passkey.antt =====
-- apps/web/src/lib/passkey: the wallet of an institution, whose signer is a passkey. The keypairs,
-- the network node, the browser's storage and its clock are parameters; an error is the text of
-- its message.
pub mod PublicKey
pub mod Session
pub mod Wallet
pub mod Transaction
pub mod Support
pub mod Errors
pub mod Ceremony
pub mod Encoding
pub mod Signer
mod Examples
