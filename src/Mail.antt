-- ===== src/Mail.antt =====
-- Mail to the users of tenants (apps/api/src/common/mail/mail.service.ts).
pub mod Mailer
pub mod Messages
pub mod Sending
pub mod Escaping
