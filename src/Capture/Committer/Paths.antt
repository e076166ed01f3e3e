-- ===== src/Capture/Committer/Paths.antt =====
-- What src-tauri/src/capture/committer.rs uses of `Path` and `str`: the components of a path on Unix, the last of
-- them, and the part of a name before its first dot.
use Prim.Native.Char.{code}
use life_sub.Common.{
  ◌||◌, is_empty, Option, none, some, List, [], ◌∷◌, String, ◌==◌, if◌then◌else◌, str_eq,
  str_is_empty,
}
use life_sub.Capture.Seal.{Component, normal, other_component}

-- The pieces of a path between its slashes.
unfoldable pub split_slash : String → String × List String
split_slash String.[] = ("", [])
split_slash (String.◌∷◌ c s) =
    let rest = split_slash s in
    if code c == 47 then ("", rest.0 ∷ rest.1) else (String.◌∷◌ c rest.0, rest.1)

-- A piece after the first: an empty one and `.` are passed over.
abbrev pub later_components : List String → List Component
later_components [] = []
later_components (piece ∷ pieces) =
    let rest = later_components pieces in
    if str_is_empty piece || str_eq piece "."
    then rest
    else (if str_eq piece ".." then other_component ∷ rest else normal piece ∷ rest)

-- An empty first piece is the root if a slash follows, and a first `.` is a component.
unfoldable pub path_components : String → List Component
path_components path =
    let (first, pieces) = split_slash path in
    if str_is_empty first
    then (if is_empty pieces then [] else other_component ∷ later_components pieces)
    else (if str_eq first "." || str_eq first ".."
        then other_component ∷ later_components pieces
        else normal first ∷ later_components pieces)

abbrev pub last_component : List Component → Option String
last_component [] = none
last_component (normal name ∷ []) = some name
last_component (other_component ∷ []) = none
last_component (_ ∷ rest) = last_component rest

unfoldable pub file_name : String → Option String
file_name path = last_component (path_components path)

-- `split('.').next()`
unfoldable pub before_dot : String → String
before_dot String.[] = ""
before_dot (String.◌∷◌ c s) =
    let rest = before_dot s in if code c == 46 then "" else String.◌∷◌ c rest
