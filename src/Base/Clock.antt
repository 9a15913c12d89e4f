-- ===== src/Base/Clock.antt =====
-- Go's `time.Time`: an instant, and whether it is read in UTC with no monotonic clock.
use Prim.Native.Nat.{ℕ}
use mathlib.Core.Bool.{Bool, true}
use sshai.Base.Booleans.{ltb, ◌==◌}

pub record Time : Type 0 where
  pub instant : ℕ  -- nanoseconds since the zero Time; earlier instants are not modelled
  pub canonical : Bool  -- in UTC, with no monotonic clock reading

unfoldable pub before : Time → Time → Bool
before t u = ltb t.instant u.instant

unfoldable pub after : Time → Time → Bool
after t u = ltb u.instant t.instant

-- t.Equal(u)
unfoldable pub same_instant : Time → Time → Bool
same_instant t u = t.instant == u.instant

unfoldable pub is_zero : Time → Bool
is_zero t = t.instant == 0

-- t.Round(0).UTC(), t.UTC()
unfoldable pub to_canonical : Time → Time
to_canonical t = record t { canonical = true }

-- time.Time{}
abbrev pub zero_time : Time
zero_time = record { instant = 0; canonical = true }
