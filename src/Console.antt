-- ===== src/Console.antt =====
-- apps/web/src: the institutions' console, its routes and its passkey wallet.
pub mod Kyb
pub mod Passkey
pub mod Provisioning
pub mod Operator
pub mod Auth
pub mod Format
pub mod PublicRecord
pub mod Verify
pub mod Inclusion
pub mod PublishingKey
pub mod Dashboard
pub mod Mails
