-- ===== src/Enrichment.antt =====
-- internal/enrichment: the order of the enrichment steps and the modes that turn them on.
pub mod Pipeline
pub mod Mode
