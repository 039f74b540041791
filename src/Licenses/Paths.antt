-- ===== src/Licenses/Paths.antt =====
-- The regular expression of scripts/generate-licenses.js,
-- `^((?:.*\/)?node_modules\/)(@[^/]+\/[^/]+|[^/@][^/]*)\/`, by the parts between the slashes of a path
-- without line terminators. Its star is greedy, so that the last match counts.

pub mod Parts
pub mod Matching
use coherence_operator.Prelude.{
  List, [], ◌∷◌, ◌++◌, Option, none, some, Bool, ◌||◌, Text, codes, text_eq, is_empty, starts_with,
  drop, split, if◌then◌else◌,
}

pub record Package : Type 0 where
  pub name : Text
  pub dir : Text

abbrev pub slash : Text
slash = codes "/"

abbrev pub node_modules : Text
node_modules = codes "node_modules"

-- The first alternative: a scope and a name, with a slash behind them.
unfoldable pub scoped : Text → Text → List Text → Option Text
scoped scope name rest =
    if is_empty (drop 1 scope) || is_empty name || is_empty rest
    then none
    else some (scope ++ (slash ++ name))

-- The name of a package at the start of the parts, with a slash behind it.
unfoldable pub name_at : List Text → Option Text
unfolding scoped
name_at [] = none
name_at (part ∷ []) = none
name_at (part ∷ next ∷ rest) =
    if starts_with part (codes "@")
    then scoped part next rest
    else if is_empty part
    then none
    else some part

unfoldable pub package_here : Text → List Text → Option Package
unfolding name_at
package_here part rest =
    if text_eq part node_modules
    then elim (name_at rest) [
      | none ↦ none
      | some name ↦ some (record { name = name; dir = node_modules ++ (slash ++ name) })
    ]
    else none

unfoldable pub find_package : List Text → Option Package
unfolding package_here
find_package [] = none
find_package (part ∷ rest) = elim (find_package rest) [
  | none ↦ package_here part rest
  | some pkg ↦ some (record { name = pkg.name; dir = part ++ (slash ++ pkg.dir) })
]

unfoldable pub package_of : Text → Option Package
unfolding find_package
package_of input_file = find_package (split b'/' input_file)
