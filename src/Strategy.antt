-- ===== src/Strategy.antt =====
-- The load balancing strategies (src/routing/strategies). Each `select` takes the list of healthy
-- backends and returns its choice, `none` standing for `undefined`; the routing engine never calls
-- it on the empty list. The texts of `req._lbReason` are left out.
pub mod RoundRobin
pub mod LeastConnections
pub mod Gcd
pub mod Weighted
pub mod IpHash
pub mod ConsistentHash
