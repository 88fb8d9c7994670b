-- ===== src/Prelude/FilePath.antt =====
-- The operations of `std::path::Path` on Unix that the source uses.
use Prim.Native.String.{String, ◌++◌}
use mathlib.Core.Bool.{Bool, true, false, ◌||◌}
use mathlib.Core.List.{List, [], ◌∷◌, reverse}
use mathlib.Core.Option.{Option, none, some}
use mathlib.Core.Path.{◌≡◌, refl}
use text.Mathlib.Text.{starts_with}
use eval_python.Prelude.Tests.{if◌then◌else◌}
use eval_python.Prelude.Text.{str_eq, format, ends_with, split}

unfoldable pub is_absolute : String → Bool
is_absolute path = starts_with path "/"

-- `Path::join`: an absolute path replaces the base
unfoldable pub join : String → String → String
unfolding is_absolute ends_with
join base path =
    if is_absolute path
    then path
    else if str_eq base "" || ends_with base "/"
    then base ++ path
    else format (base ∷ "/" ∷ path ∷ [])

has_up : List String → Bool
has_up [] = false
has_up (p ∷ ps) = str_eq p ".." || has_up ps

-- whether a path has a component `..`
unfoldable pub climbs : String → Bool
unfolding has_up split
climbs path = has_up (split path b'/')

-- The path leads nowhere but below the directory that it is joined to, as far as its text says.
abbrev pub IsBelow : String → Type 0
IsBelow path = (is_absolute path ≡ false) × (climbs path ≡ false)

-- The pieces of a path between its separators, the last piece first, without the empty ones and the
-- dots at its end. The first piece of the path stays: it is empty where the path is absolute.
trim_pieces : List String → List String
trim_pieces [] = []
trim_pieces (p ∷ []) = p ∷ []
trim_pieces (p ∷ q ∷ ps) = if str_eq p "" || str_eq p "." then trim_pieces (q ∷ ps) else p ∷ q ∷ ps

-- the path of some pieces
unfoldable pub spell : List String → String
spell [] = ""
spell (p ∷ []) = p
spell (p ∷ q ∷ ps) = format (p ∷ "/" ∷ spell (q ∷ ps) ∷ [])

-- what is left after the last component
parent_path : Bool → List String → String
parent_path true (p ∷ []) = "/"
parent_path _ ps = spell (reverse ps)

parent_of_pieces : Bool → List String → Option String
unfolding trim_pieces parent_path
parent_of_pieces rooted [] = none
parent_of_pieces true (p ∷ []) = none
parent_of_pieces false (p ∷ []) = if str_eq p "" then none else some ""
parent_of_pieces rooted (p ∷ q ∷ ps) = some (parent_path rooted (trim_pieces (q ∷ ps)))

-- `Path::parent`
unfoldable pub parent : String → Option String
unfolding parent_of_pieces trim_pieces is_absolute spell split
parent path = parent_of_pieces (is_absolute path) (trim_pieces (reverse (split path b'/')))

join_test : join "/var/root" "mnt/stdio" ≡ "/var/root/mnt/stdio"
unfolding join
join_test = refl

join_absolute_test : join "/var/root" "/etc" ≡ "/etc"
unfolding join
join_absolute_test = refl

parent_tests :
    (parent "a//b/c.cs" ≡ some "a//b")
    × (parent "Main.cs" ≡ some "")
    × (parent "/a/" ≡ some "/")
    × (parent "./a" ≡ some ".")
    × (parent "//" ≡ none)
    × (parent "" ≡ none)
unfolding parent
parent_tests = (refl, refl, refl, refl, refl, refl)
