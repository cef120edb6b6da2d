-- ===== src/Board/Legality.antt =====
-- src/omegahive/board/legality.py: one table of guards and effects, consulted by the gateway and
-- by the fold.
mod Guards
mod Effects
mod Table
unfoldable pub use Guards.*
unfoldable pub use Effects.*
unfoldable pub use Table.*
