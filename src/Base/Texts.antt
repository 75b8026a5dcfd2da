-- ===== src/Base/Texts.antt =====
-- Texts: what stands behind a prefix.
use Prim.Native.Char.{code}
use Prim.Native.String.{String}
use mathlib.Core.Option.{Option, none, some}
use cc_gateway.Base.Tests.{◌==◌, if◌then◌else◌}

-- strings.HasPrefix and the slice behind the prefix.
unfoldable pub strip_prefix : String → String → Option String
strip_prefix String.[] s = some s
strip_prefix (String.◌∷◌ c p) String.[] = none
strip_prefix (String.◌∷◌ c p) (String.◌∷◌ d s) =
    let rest = strip_prefix p s in if code c == code d then rest else none
