-- ===== src/Startup/Loading/Returns.antt =====
-- What holds of a value that is loaded, if no exception leaves.
use mathlib.Core.Path.{subst}
use onvif_srvd_cmake.Prelude.{◌≡◌, refl, ap}
use onvif_srvd_cmake.Startup.Loading.Loader.{Loaded, throws, loaded, ◌>>=◌}

-- What holds of the settings if no exception leaves.
unfoldable pub Returns : {A : Type 0} → (A → Type 0) → Loaded A → Type 0
Returns P (throws e) = Unit
Returns P (loaded a) = P a

pub returned : {A : Type 0} (P : A → Type 0) (a : A) → P a → Returns P (loaded a)
unfolding Returns
returned P a h = h

pub Returns-map :
    {A : Type 0} (P Q : A → Type 0) (x : Loaded A)
    → ((a : A) → P a → Q a)
    → Returns P x
    → Returns Q x
unfolding Returns
Returns-map P Q (throws e) f h = tt
Returns-map P Q (loaded a) f h = f a h

-- What holds behind a part that has returned.
pub behind : {A : Type 0} (P : A → Type 0) (x : Loaded A) (a : A) → Returns P x → x ≡ loaded a → P a
unfolding Returns
behind P (throws e) a h same = absurd cc
behind P (loaded b) a h same = subst P (loaded-injective b a same) h
  where
    from : {A : Type 0} → A → Loaded A → A
    from d (throws e) = d
    from d (loaded a) = a

    loaded-injective : {A : Type 0} (b a : A) → loaded b ≡ loaded a → b ≡ a
    loaded-injective b a same = ap (from b) same

pub Returns-bind :
    {A B : Type 0} (P : B → Type 0) (x : Loaded A) (f : A → Loaded B)
    → ((a : A) → x ≡ loaded a → Returns P (f a))
    → Returns P (x >>= f)
unfolding ◌>>=◌ Returns
Returns-bind P (throws e) f h = tt
Returns-bind P (loaded a) f h = h a refl
