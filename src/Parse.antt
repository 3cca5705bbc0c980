-- ===== src/Parse.antt =====
-- offline/src/parse: the checks of a packet in Binary, and their laws in Agreement.
pub mod Binary
pub mod Agreement
pub mod Sample
mod Tests
