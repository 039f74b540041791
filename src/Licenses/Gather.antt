-- ===== src/Licenses/Gather.antt =====
-- The table of the packages: the first folder of each package counts.
use coherence_operator.Prelude.{
  ◌≡◌, refl, ap, sym, ◌∙◌, List, [], ◌∷◌, ◌++◌, Option, none, some, true, false, Text, text_eq,
  text_eq_iff, if◌then◌else◌, arith, Option-cases, Bool-cases, inl, inr,
}
use coherence_operator.Release.Defs.{property}
use coherence_operator.Release.{is_inherited}
use coherence_operator.Licenses.Paths.{Package, package_of}
use coherence_operator.Licenses.{add_package, gather}

-- The folder that an input names for a package.
unfoldable pub named_dir : Text → Text → Option Text
named_dir name input_file = elim (package_of input_file) [
  | none ↦ none
  | some pkg ↦ if text_eq pkg.name name then some pkg.dir else none
]

abbrev pub or_else : Option Text → Option Text → Option Text
or_else none d = d
or_else (some d) e = some d

unfoldable pub first_dir : Text → List Text → Option Text
unfolding named_dir
first_dir name [] = none
first_dir name (input_file ∷ rest) = or_else (named_dir name input_file) (first_dir name rest)

property-append :
    (name key : Text) (dir : Text) (paths : List (Text × Text))
    → property name (paths ++ (key, dir) ∷ [])
      ≡ or_else (property name paths) (if text_eq key name then some dir else none)
unfolding property
property-append name key dir [] = ground arith
property-append name key dir ((k, d) ∷ paths) = ground (arith, property-append name key dir paths)

or_else-none : (d : Option Text) → or_else d none ≡ d
or_else-none none = refl
or_else-none (some d) = refl

or_else_assoc : (d e f : Option Text) → or_else (or_else d e) f ≡ or_else d (or_else e f)
or_else_assoc none e f = refl
or_else_assoc (some d) e f = refl

-- What is there already counts.
or_else-there :
    (name key : Text) (dir found : Text) (paths : List (Text × Text))
    → property key paths ≡ some found
    → property name paths
      ≡ or_else (property name paths) (if text_eq key name then some dir else none)
or_else-there name key dir found paths there = elim (Bool-cases (text_eq key name)) [
  | inl same ↦
      let here = ap (λ k. property k paths) (sym ((text_eq_iff key name).0 same)) ∙ there in
      rw here refl
  | inr other ↦ rw other (sym (or_else-none (property name paths)))
]

module _ (name : Text) (own : is_inherited name ≡ false) where
  other_name : (key : Text) → is_inherited key ≡ true → text_eq key name ≡ false
  other_name key inherited = elim (Bool-cases (text_eq key name)) [
    | inl same ↦
        let bad = ap is_inherited ((text_eq_iff key name).0 same) in
        ground (arith, bad, own, inherited)
    | inr other ↦ other
  ]

  property-add_package :
      (pkg : Package) (paths : List (Text × Text))
      → property name (add_package pkg paths)
        ≡ or_else (property name paths) (if text_eq pkg.name name then some pkg.dir else none)
  unfolding add_package
  property-add_package pkg paths = elim (Bool-cases (is_inherited pkg.name)) [
    | inl inherited ↦
        let other = other_name pkg.name inherited in
        rw (inherited, add_package, other) (sym (or_else-none (property name paths)))
    | inr normal ↦ elim (Option-cases (property pkg.name paths)) [
      | inl absent ↦ rw (normal, absent, add_package) (property-append name pkg.name pkg.dir paths)
      | inr (found, there) ↦
          rw (normal, there, add_package) (or_else-there name pkg.name pkg.dir found paths there)
    ]
  ]

  property-gather_from :
      (inputs : List Text) (paths : List (Text × Text))
      → property name (gather inputs paths) ≡ or_else (property name paths) (first_dir name inputs)
  unfolding gather first_dir named_dir
  property-gather_from [] paths = sym (or_else-none (property name paths))
  property-gather_from (input_file ∷ rest) paths = elim (Option-cases (package_of input_file)) [
    | inl nothing ↦ rw (nothing, gather, named_dir) (property-gather_from rest paths)
    | inr (pkg, found) ↦
        rw (found, gather, named_dir)
          (property-gather_from rest (add_package pkg paths)
            ∙ (ap (λ d. or_else d (first_dir name rest)) (property-add_package pkg paths)
                ∙ or_else_assoc (property name paths) _ (first_dir name rest)))
  ]

  -- A package whose name is not one that every object inherits has in the table the folder of the
  -- first input that lies in it, and is not there if no input does.
  pub property-gather :
      (inputs : List Text) → property name (gather inputs []) ≡ first_dir name inputs
  unfolding property
  property-gather inputs = property-gather_from inputs []
