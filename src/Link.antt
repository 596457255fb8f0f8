-- ===== src/Link.antt =====
-- The whole way between a client and its server: the writer task of one end, the frames, and the
-- reader task of the other end.
pub mod Delivery
pub mod Answers
pub mod Requests
pub mod Asked
pub mod Http
pub mod Peers
mod Tests
