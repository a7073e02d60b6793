-- ===== src/Routing.antt =====
-- geospatial/routing: the policy of the router.
pub mod Policy
pub mod Passage
