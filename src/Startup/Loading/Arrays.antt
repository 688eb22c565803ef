-- ===== src/Startup/Loading/Arrays.antt =====
-- The arrays of a configuration file that have a fixed size.
use onvif_srvd_cmake.Prelude.{
  Text, List, [], ◌∷◌, ◌==◌, suc, ◌≡◌, refl, ap, length, arith, Bool-cases, Option-cases, inl, inr,
}
use onvif_srvd_cmake.Startup.Loading.Loader.{LibConfig, Loaded, load_items, get_fixed_array}
use onvif_srvd_cmake.Startup.Loading.Returns.{Returns, returned, behind, Returns-bind, Returns-map}

-- Every item that is converted is stored.
load_items-length :
    {A B : Type 0} (f : A → Loaded B) (xs : List A)
    → Returns (λ ys. length ys ≡ length xs) (load_items f xs)
unfolding load_items
load_items-length f [] = returned _ _ refl
load_items-length f (x ∷ xs) =
    Returns-bind (λ ys. length ys ≡ length (x ∷ xs)) (f x) _
      (λ y e.
        Returns-bind (λ ys. length ys ≡ length (x ∷ xs)) (load_items f xs) _
          (λ ys es.
            returned (λ ys. length ys ≡ length (x ∷ xs)) (y ∷ ys)
              (ap suc (
                behind (λ ys. length ys ≡ length xs) (load_items f xs) ys (load_items-length f xs)
                  es))))

-- An array keeps its size, whatever the file holds under its key.
pub get_fixed_array-length :
    (l : LibConfig) {A : Type 0} (convert : l.Setting → Loaded A) (config_file : Text)
    (c : l.Config) (key : Text) (var : List A)
    → Returns (λ xs. length xs ≡ length var) (get_fixed_array l convert config_file c key var)
unfolding get_fixed_array Returns
get_fixed_array-length l convert config_file c key var = elim (Option-cases (l.lookup c key)) [
  | inl absent ↦ rw (absent, get_fixed_array) refl
  | inr (s, found) ↦ elim (Bool-cases (length (l.items s) == length var)) [
    | inl fits ↦
        rw (found, get_fixed_array)
          (rw fits (
            Returns-map _ _ (load_items convert (l.items s)) (λ ys h. ground (arith, h, fits))
              (load_items-length convert (l.items s))))
    | inr other ↦ rw (found, get_fixed_array) (rw other tt)
  ]
]
