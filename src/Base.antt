-- ===== src/Base.antt =====
-- The names that the other modules share: the libraries', passed on, and those of the children.
pub mod Booleans
pub mod Int
pub mod Fallible
pub mod Text
pub mod Clock
pub mod Lists
pub mod Decimal
pub mod Regex
pub use Prim.Native.Nat.{ℕ, zero, suc, ◌+◌, ◌-◌, ◌*◌, ◌/◌, ◌%◌, ◌^◌, ◌≤◌, ◌<◌}
pub use Prim.Native.String.{String, ◌++◌ as ◌<>◌}
pub use mathlib.Core.Path.{◌≡◌, refl, sym, ap, ◌∙◌}
pub use mathlib.Core.Logic.{◌≢◌, ◌↔◌, ◌⊎◌, inl, inr}
pub use mathlib.Core.Bool.{Bool, true, false, not, ◌&&◌, ◌||◌}
pub use mathlib.Core.Option.{Option, none, some}
pub use mathlib.Core.List.{List, [], ◌∷◌, ◌++◌}
pub use native.Mathlib.Omega.{arith}
pub use Booleans.*
pub use Int.*
unfoldable pub use Int.{inc_int64, inc_uint64, add_int64, overflows}
pub use Fallible.*
unfoldable pub use Text.{
  has_text, trim_space, is_blank, is_untrimmed, is_private_ipv4, is_content_digest,
}
pub use Text.{
  is_empty, present, same_text, same_text_iff, not-is_blank_of_private, not-is_blank_of_trimmed,
}
unfoldable pub use Clock.{before, after, same_instant, is_zero, to_canonical}
pub use Clock.{Time, zero_time}
pub use Lists.*
unfoldable pub use Decimal.{show}
pub use Decimal.{show_injective}
pub use text.Mathlib.TextLemmas.{append_cancel_left}
pub use Regex.{
  Pattern, class, sequence, either_of, many, up_to, exactly, optional, literal, is_between,
}
unfoldable pub use Regex.{matches}
