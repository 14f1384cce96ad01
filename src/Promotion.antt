-- ===== src/Promotion.antt =====
-- promotion-service: the handler of promotion events, and the merge of helm values.
pub mod Values
pub mod Handler
pub mod Update
pub mod Events
pub mod Service
