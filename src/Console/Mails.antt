-- ===== src/Console/Mails.antt =====
-- The mails about an institution's review: apps/web/src/lib/email/templates.ts and config.ts. The
-- addresses that the environment may set are a parameter.
pub mod Style
pub mod Escape
pub mod Layout
pub mod Templates
pub mod Markup
mod Examples
