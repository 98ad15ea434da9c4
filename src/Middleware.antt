-- ===== src/Middleware.antt =====
-- internal/middleware: the address of a client, the statistics of visitors and the rate limiter.
pub mod Assoc
pub mod Ip
pub mod Geo
pub mod Limiter
pub mod Handler
pub mod Delay
pub mod Csp
pub mod Observability
pub mod Throttle
pub mod IpLaws
pub mod GeoLaws
pub mod TopLaws
pub mod LimiterLaws
pub mod StatusLaws
pub mod HeaderLaws
