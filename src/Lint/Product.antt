-- ===== src/Lint/Product.antt =====
-- Paths as lists of the names that they assign, and the paths through two parts in a row.
use veripy.Base.{
  ◌≡◌, refl, ◌∙◌, Bool, true, false, ◌&&◌, ◌||◌, String, List, [], ◌∷◌, ◌++◌, contains,
  contains-append, arith,
}

-- The names of a path, put in front of others.
abbrev pub prepend : List String → List (List String) → List (List String)
prepend p [] = []
prepend p (q ∷ qs) = (p ++ q) ∷ prepend p qs

abbrev pub product : List (List String) → List (List String) → List (List String)
product [] qs = []
product (p ∷ ps) qs = prepend p qs ++ product ps qs

-- A name is assigned on some path, or on every one.
unfoldable pub on_some : String → List (List String) → Bool
on_some x [] = false
on_some x (p ∷ ps) = contains p x || on_some x ps

unfoldable pub on_every : String → List (List String) → Bool
on_every x [] = true
on_every x (p ∷ ps) = contains p x && on_every x ps

abbrev pub some_path : List (List String) → Bool
some_path [] = false
some_path (p ∷ ps) = true

pub some_path-append :
    (ps qs : List (List String)) → some_path (ps ++ qs) ≡ some_path ps || some_path qs
some_path-append [] qs = refl
some_path-append (p ∷ ps) qs = refl

pub some_path-product :
    (ps qs : List (List String)) → some_path (product ps qs) ≡ some_path ps && some_path qs
some_path-product [] qs = refl
some_path-product (p ∷ ps) [] = some_path-product ps [] ∙ none_left (some_path ps)
  where
    none_left : (b : Bool) → b && false ≡ false
    none_left b = ground arith
some_path-product (p ∷ ps) (q ∷ qs) = refl

module _ (x : String) where
  pub on_some-append :
      (ps qs : List (List String)) → on_some x (ps ++ qs) ≡ on_some x ps || on_some x qs
  unfolding on_some
  on_some-append [] qs = refl
  on_some-append (p ∷ ps) qs = ground (arith, on_some-append ps qs)

  pub on_every-append :
      (ps qs : List (List String)) → on_every x (ps ++ qs) ≡ on_every x ps && on_every x qs
  unfolding on_every
  on_every-append [] qs = refl
  on_every-append (p ∷ ps) qs = ground (arith, on_every-append ps qs)

  on_some-prepend :
      (p : List String) (qs : List (List String))
      → on_some x (prepend p qs) ≡ (contains p x && some_path qs) || on_some x qs
  unfolding on_some
  on_some-prepend p [] = ground arith
  on_some-prepend p (q ∷ qs) = rw (contains-append p q x, on_some-prepend p qs) (ground arith)

  on_every-prepend :
      (p : List String) (qs : List (List String))
      → on_every x (prepend p qs) ≡ contains p x || on_every x qs
  unfolding on_every
  on_every-prepend p [] = ground arith
  on_every-prepend p (q ∷ qs) = rw (contains-append p q x, on_every-prepend p qs) (ground arith)

  pub on_some-product :
      (ps qs : List (List String))
      → on_some x (product ps qs) ≡ (on_some x ps && some_path qs) || (on_some x qs && some_path ps)
  unfolding on_some
  on_some-product [] qs = ground arith
  on_some-product (p ∷ ps) qs =
      rw
        (on_some-append (prepend p qs) (product ps qs), on_some-prepend p qs, on_some-product ps qs)
        (ground arith)

  pub on_every-product :
      (ps qs : List (List String)) → on_every x (product ps qs) ≡ on_every x ps || on_every x qs
  unfolding on_every
  on_every-product [] qs = refl
  on_every-product (p ∷ ps) qs =
      rw
        (
          on_every-append (prepend p qs) (product ps qs),
          on_every-prepend p qs,
          on_every-product ps qs,
        )
        (ground arith)
