-- ===== src/Kube.antt =====
-- internal/kube: retries of transient API failures, and pagination.
pub mod Retry
pub mod RetryLaws
pub mod Pages
pub mod PagesLaws
