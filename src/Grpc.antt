-- ===== src/Grpc.antt =====
-- api/client.py and api/session.py: the gRPC client of the mobile gateway and its session.
pub mod Session
pub mod Client
pub mod RateLimit
pub mod Retry
