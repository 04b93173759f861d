-- ===== src/Examples.antt =====
-- The processors and classifiers of the routers under examples.
pub mod StaticRouter
pub mod DnsInterceptor
pub mod Tests
