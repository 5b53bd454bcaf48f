-- ===== src/Prelude.antt =====
-- The names that the other modules share: the libraries', passed on, and those of the children.
mod Tests
mod Lists
mod Strings
mod Maps
mod Results
mod Regexes
mod Greedy
pub use Tests.*
pub use Maps.{
  KeyEq, nat_key, bytes_key, HashMap, find-upsert, find-erase, same_key_refl, AllEntries,
  upsert-AllEntries, erase-AllEntries, find-AllEntries,
}
unfoldable pub use Maps.{find, upsert, erase}
pub use Results.*
pub use Greedy.*
pub use Regexes.{Regex, class, many, seq, optional, capture, Groups, Rest, anywhere}
unfoldable pub use Regexes.{
  at_end, group, match_many, match_class, match_regex, regex_match, regex_search,
}
pub use Lists.*
pub use Strings.{
  Bytes, bytes, same_iff, same_refl, starts_with-append, Avoids, Avoids-append, strstr-Avoids,
}
unfoldable pub use Strings.{same, starts_with, ends_with, strstr}
pub use Prim.Native.Nat.{ℕ, zero, suc, ◌+◌, ◌-◌, ◌*◌, ◌/◌, ◌%◌, ◌^◌, ◌≤◌, ◌<◌}
pub use mathlib.Core.Path.{◌≡◌, refl, sym, ap, ap₂, subst, subst₂, ◌∙◌}
pub use mathlib.Core.Logic.{◌≢◌, ◌↔◌, ◌⊎◌, inl, inr}
pub use mathlib.Core.Bool.{Bool, true, false, not, ◌&&◌, ◌||◌}
pub use mathlib.Core.Option.{Option, none, some}
pub use mathlib.Core.List.{
  List, [], ◌∷◌, ◌++◌, map, append-nil, append_assoc, map-append, Perm, Sublist,
}
pub use native.Mathlib.Omega.{arith}
