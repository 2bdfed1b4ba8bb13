-- ===== src/Fixtures.antt =====
-- Concrete stand-ins for the code outside the repository, on which the tests run. The outside world is
-- the number of random draws so far.
pub mod Boxes
pub mod Codecs
pub mod Chain
pub mod Clients
pub mod Messages
