-- ===== src/Middleware.antt =====
-- The interceptors of internal/app/middleware, and the order in which internal/app/app.go chains
-- them. A call of the chain is a step on a state `S` of the handler's own, and may panic.
pub mod Chain
pub mod Laws
