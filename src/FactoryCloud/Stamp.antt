-- ===== src/FactoryCloud/Stamp.antt =====
-- A stored time: an ISO text, read as the instant it names in microseconds, or a text that
-- `datetime.fromisoformat` refuses. The code writes only texts with a time zone, so the comparison
-- of an instant without one, which raises TypeError, is left out.
use obrasignal.Base.{ℕ, Bool, false, String, leb}

pub data Stamp : Type 0 where
  at : ℕ → Stamp
  unreadable : String → Stamp

-- `datetime.fromisoformat(text) <= now`, with `False` where it raises ValueError.
abbrev pub has_passed : Stamp → ℕ → Bool
has_passed (at t) now = leb t now
has_passed (unreadable s) now = false
