-- ===== src/Http.antt =====
-- include/http and src/http: requests, responses, and the parser of a byte stream.
pub mod Request
pub mod Response
pub mod Form
pub mod Parser
pub mod Connection
pub mod ConnectionPool
pub mod BufferPool
pub mod Exchange
pub mod Router
pub mod Tests
pub mod RequestTests
