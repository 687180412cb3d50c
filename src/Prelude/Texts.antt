-- ===== src/Prelude/Texts.antt =====
-- Functions of Go's `strings` and `path/filepath` on texts. Of the letters that are not ASCII,
-- `strings.ToLower` gives none that the program's tests compare with.
use Prim.Native.Nat.{◌-◌}
use Prim.Native.Char.{Char, code}
use Prim.Native.String.{String, [], ◌∷◌, slice}
use Prim.Native.String
use mathlib.Core.Bool.{Bool, false, ◌&&◌, ◌||◌, not}
use mathlib.Core.Option.{Option, none, some}
use text.Mathlib.Text.{◌==◌}
use hermes_manager.Prelude.Tests.{eqb, leb, if◌then◌else◌}

-- `unicode.IsSpace`
unfoldable pub is_space : Char → Bool
is_space c =
    (leb 9 (code c) && leb (code c) 13)
    || eqb (code c) 0x20
    || eqb (code c) 0x85
    || eqb (code c) 0xA0
    || eqb (code c) 0x1680
    || (leb 0x2000 (code c) && leb (code c) 0x200A)
    || eqb (code c) 0x2028
    || eqb (code c) 0x2029
    || eqb (code c) 0x202F
    || eqb (code c) 0x205F
    || eqb (code c) 0x3000

unfoldable pub trim_left : String → String
trim_left [] = []
trim_left (c ∷ s) = let rest = trim_left s in if is_space c then rest else c ∷ s

unfoldable pub trim_right : String → String
trim_right [] = []
trim_right (c ∷ s) = let rest = trim_right s in if rest == "" && is_space c then [] else c ∷ rest

-- `strings.TrimSpace`
unfoldable pub trim_space : String → String
trim_space s = trim_right (trim_left s)

-- A space or a tab, as in `strings.IndexAny(s, " \t")`.
abbrev pub is_blank : Char → Bool
is_blank c = eqb (code c) 0x20 || eqb (code c) 9

-- The parts before and behind the first blank, where there is one.
unfoldable pub split_blank : String → Option (String × String)
split_blank [] = none
split_blank (c ∷ s) =
    let rest = split_blank s in
    if is_blank c
    then some ([], s)
    else elim rest [ none ↦ none | some (word, behind) ↦ some (c ∷ word, behind) ]

unfoldable pub lower : Char → String
lower c =
    if leb 65 (code c) && leb (code c) 90
    then slice "abcdefghijklmnopqrstuvwxyz" (code c - 65) (code c - 64)
    else c ∷ []

-- `strings.ToLower`
unfoldable pub to_lower : String → String
to_lower [] = []
to_lower (c ∷ s) = String.◌++◌ (lower c) (to_lower s)

unfoldable pub has_slash : String → Bool
has_slash [] = false
has_slash (c ∷ s) = eqb (code c) 0x2F || has_slash s

-- `filepath.Ext`: from the last dot behind the last slash.
unfoldable pub ext : String → String
ext [] = []
ext (c ∷ s) =
    let rest = ext s in
    if not (rest == "") then rest else if eqb (code c) 0x2E && not (has_slash s) then c ∷ s else []
