-- ===== src/Licenses/Paths/Matching.antt =====
-- What the regular expression for packages matches.
use coherence_operator.Prelude.{
  ◌≡◌, refl, ap, sym, ◌∙◌, ◌⊎◌, inl, inr, List, [], ◌∷◌, ◌++◌, none, some, false, ◌==◌, All, Lacks,
  Text, codes, text_eq, text_eq_iff, is_empty, starts_with, split, split_from, append_assoc,
  if◌then◌else◌, arith, Option-cases, Bool-cases,
}
use coherence_operator.Licenses.Paths.{
  Package, slash, node_modules, scoped, name_at, package_here, find_package, package_of,
}
use coherence_operator.Licenses.Paths.Parts.{
  join_parts, join_parts-cons, join_parts-split_from, split_from-Lacks,
}

-- A name without a scope, and one with a scope.
abbrev pub IsName : Text → Type 0
IsName name =
    ((is_empty name ≡ false) × (starts_with name (codes "@") ≡ false) × Lacks b'/' name)
    ⊎ ((scope own : Text) × (name ≡ codes "@" ++ (scope ++ (slash ++ own)))
        × (is_empty scope ≡ false)
        × (is_empty own ≡ false)
        × Lacks b'/' scope
        × Lacks b'/' own)

abbrev IsNameAt : List Text → Text → Type 0
IsNameAt parts name =
    (behind : Text) × (join_parts parts ≡ name ++ (slash ++ behind))
    × IsName name
    × (is_empty parts ≡ false)

scoped-IsNameAt :
    (scope next : Text) (rest : List Text) (name : Text)
    → Lacks b'/' scope
    → Lacks b'/' next
    → scoped (b'@' ∷ scope) next rest ≡ some name
    → IsNameAt ((b'@' ∷ scope) ∷ next ∷ rest) name
unfolding scoped
scoped-IsNameAt [] next rest name lacks lacks_next h = cc
scoped-IsNameAt (c ∷ scope) [] rest name lacks lacks_next h = cc
scoped-IsNameAt (c ∷ scope) (d ∷ next) [] name lacks lacks_next h = cc
scoped-IsNameAt (c ∷ scope) (d ∷ next) (r ∷ rest) name lacks lacks_next h =
    let same : (b'@' ∷ c ∷ scope) ++ (slash ++ (d ∷ next)) ≡ name = cc in
    rw (← same) (
      join_parts (r ∷ rest),
      sym (append_assoc (b'@' ∷ c ∷ scope) (slash ++ (d ∷ next)) (slash ++ join_parts (r ∷ rest))),
      inr (c ∷ scope, d ∷ next, refl, refl, refl, lacks, lacks_next),
      refl,
    )

plain-IsNameAt :
    (part next : Text) (rest : List Text) (name : Text)
    → Lacks b'/' part
    → starts_with part (codes "@") ≡ false
    → (if is_empty part then none else some part) ≡ some name
    → IsNameAt (part ∷ next ∷ rest) name
plain-IsNameAt [] next rest name lacks no_scope h = cc
plain-IsNameAt (c ∷ part) next rest name lacks no_scope h =
    let same : c ∷ part ≡ name = cc in
    rw (← same) (join_parts (next ∷ rest), refl, inl (refl, no_scope, lacks), refl)

name_at-IsNameAt :
    (parts : List Text) (name : Text)
    → All (Lacks b'/') parts
    → name_at parts ≡ some name
    → IsNameAt parts name
unfolding name_at starts_with
name_at-IsNameAt [] name lacks h = cc
name_at-IsNameAt (part ∷ []) name lacks h = cc
name_at-IsNameAt ([] ∷ next ∷ rest) name (lacks, lacks_next) h = cc
name_at-IsNameAt ((c ∷ part) ∷ next ∷ rest) name ((here, lacks), (lacks_next, others)) h =
    elim (Bool-cases (c == b'@')) [
      | inl at ↦
          let same : c ≡ b'@' = ground (arith, at) in
          rw same
            (scoped-IsNameAt part next rest name lacks lacks_next (ground (arith, h, at, same)))
      | inr plain ↦
          plain-IsNameAt (c ∷ part) next rest name (here, lacks) (ground (arith, plain))
            (ground (arith, h, plain))
    ]

-- The package lies in the path, in a folder node_modules at its start or behind a slash.
abbrev pub IsMatch : Text → Package → Type 0
IsMatch path pkg =
    (before behind : Text) × (path ≡ pkg.dir ++ (slash ++ behind))
    × (pkg.dir ≡ before ++ (node_modules ++ (slash ++ pkg.name)))
    × ((before ≡ []) ⊎ ((b : Text) × (before ≡ b ++ slash)))
    × IsName pkg.name

of_some : {A : Type 0} {a b : A} → some a ≡ some b → a ≡ b
of_some h = cc

package_here-IsMatch :
    (part : Text) (rest : List Text) (pkg : Package)
    → All (Lacks b'/') rest
    → package_here part rest ≡ some pkg
    → IsMatch (join_parts (part ∷ rest)) pkg
unfolding package_here
package_here-IsMatch part rest pkg lacks h = elim (Bool-cases (text_eq part node_modules)) [
  | inl here ↦ elim (Option-cases (name_at rest)) [
    | inl nothing ↦
        let none_here : package_here part rest ≡ none = rw (here, nothing, package_here) refl in
        let bad = sym none_here ∙ h in cc
    | inr (name, named) ↦
        let found : package_here part rest
            ≡ some (record { name = name; dir = node_modules ++ (slash ++ name) }) =
          rw (here, named, package_here) refl in
        let same = of_some (sym found ∙ h) in
        let (behind, joined, is_name, some_rest) = name_at-IsNameAt rest name lacks named in
        rw (← same) (
          [],
          behind,
          join_parts-cons part (name ++ (slash ++ behind)) rest some_rest joined
              ∙ ap (λ x. x ++ (slash ++ (name ++ (slash ++ behind))))
                  ((text_eq_iff part node_modules).0 here),
          refl,
          inl refl,
          is_name,
        )
  ]
  | inr elsewhere ↦
      let none_here : package_here part rest ≡ none = rw (elsewhere, package_here) refl in
      let bad = sym none_here ∙ h in cc
]

found_in :
    (parts : List Text) (pkg : Package) → find_package parts ≡ some pkg → is_empty parts ≡ false
unfolding find_package
found_in [] pkg h = cc
found_in (part ∷ parts) pkg h = refl

-- A match in the rest of a path is a match in the path.
deeper-IsMatch :
    (part : Text) (rest : List Text) (pkg : Package)
    → is_empty rest ≡ false
    → IsMatch (join_parts rest) pkg
    → IsMatch
        (join_parts (part ∷ rest))
        (record { name = pkg.name; dir = part ++ (slash ++ pkg.dir) })
deeper-IsMatch part rest pkg some_rest (before, behind, path_eq, dir_eq, start, is_name) = (
  part ++ (slash ++ before),
  behind,
  join_parts-cons part (pkg.dir ++ (slash ++ behind)) rest some_rest path_eq
      ∙ sym (append_assoc part (slash ++ pkg.dir) (slash ++ behind)),
  ap (λ d. part ++ (slash ++ d)) dir_eq
      ∙ sym (append_assoc part (slash ++ before) (node_modules ++ (slash ++ pkg.name))),
  elim start [
    | inl empty ↦ inr (part, ap (λ b. part ++ (slash ++ b)) empty)
    | inr (b, ends) ↦ inr (
      part ++ (slash ++ b),
      ap (λ x. part ++ (slash ++ x)) ends ∙ sym (append_assoc part (slash ++ b) slash),
    )
  ],
  is_name,
)

find_package-IsMatch :
    (parts : List Text) (pkg : Package)
    → All (Lacks b'/') parts
    → find_package parts ≡ some pkg
    → IsMatch (join_parts parts) pkg
unfolding find_package
find_package-IsMatch [] pkg lacks h = cc
find_package-IsMatch (part ∷ rest) pkg (lacks_part, lacks) h =
    elim (Option-cases (find_package rest)) [
      | inl nothing ↦
          let here : find_package (part ∷ rest) ≡ package_here part rest =
            rw (nothing, find_package) refl in
          package_here-IsMatch part rest pkg lacks (sym here ∙ h)
      | inr (inner, found) ↦
          let outer : find_package (part ∷ rest)
              ≡ some (record { name = inner.name; dir = part ++ (slash ++ inner.dir) }) =
            rw (found, find_package) refl in
          rw (← of_some (sym outer ∙ h)) (
            deeper-IsMatch part rest inner (found_in rest inner found)
              (find_package-IsMatch rest inner lacks found))
    ]

-- The package that is found for an input lies in its path: the folder is the name behind a folder
-- node_modules, and the name is one without a slash or a scope and such a name.
pub package_of-IsMatch :
    (input_file : Text) (pkg : Package) → package_of input_file ≡ some pkg → IsMatch input_file pkg
unfolding package_of split
package_of-IsMatch input_file pkg h =
    rw (← join_parts-split_from [] input_file) (
      find_package-IsMatch (split_from b'/' [] input_file) pkg (split_from-Lacks [] input_file tt)
        h)
