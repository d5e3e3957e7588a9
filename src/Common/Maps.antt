-- ===== src/Common/Maps.antt =====
-- `map[string]string` as an association list. A missing key reads as the empty text.
use Prim.Native.String.{String}
use mathlib.Core.List.{List, [], ◌∷◌}
use mathlib.Core.Option.{Option, none, some}
use text.Mathlib.Text.{◌==◌ as str_eq}
use t_cloud_public_csi_drive.Common.Tests.{if◌then◌else◌}

abbrev pub Dict : Type 0
Dict = List (String × String)

-- `v, ok := m[k]`
unfoldable pub lookup : String → Dict → Option String
lookup k [] = none
lookup k ((j, v) ∷ m) = if str_eq j k then some v else lookup k m

abbrev pub or_empty : Option String → String
or_empty none = ""
or_empty (some v) = v

-- `m[k]`
unfoldable pub index : Dict → String → String
unfolding lookup
index m k = or_empty (lookup k m)

-- `maps.Keys(m)`
unfoldable pub keys : Dict → List String
keys [] = []
keys ((k, _) ∷ m) = k ∷ keys m
