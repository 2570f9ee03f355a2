-- ===== src/Webhook.antt =====
-- The admission webhook: pkg/webhook/pod/.
pub mod Mutate
pub mod Aliases
pub mod Handle
