-- ===== src/Base/Text.antt =====
-- String literals as byte strings; each stands for itself where it is ASCII.
use Prim.Native.String.{String, [], ◌∷◌}
use Prim.Native.Char.{code}
use mathlib.Core.List.{[] as no_bytes, ◌∷◌ as before}
use rout.Base.Lists.{Bytes}

abbrev pub text : String → Bytes
text [] = no_bytes
text (c ∷ s) = before (code c) (text s)
