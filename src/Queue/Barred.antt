-- ===== src/Queue/Barred.antt =====
-- The deletion barrier stops captures from entering and from being handed out.
use proven_loop.Shared.{Pair_eq, ℕ_eq}
