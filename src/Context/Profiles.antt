-- ===== src/Context/Profiles.antt =====
-- The profiles of a context.
use onvif_srvd_cmake.Table.{Table}
use onvif_srvd_cmake.Prelude.{
  Text, some, true, ◌≡◌, ◌≢◌, refl, inl, inr, str_eq, is_some, Bool-cases, if◌then◌else◌, ◌&&◌, not,
  [],
}
use onvif_srvd_cmake.Prelude.StdMap.{
  find, IsSorted, IsSorted-assign, Every, Every-assign, Every-find, find-assign,
}
use onvif_srvd_cmake.Profile.{StreamProfile, is_valid}
use onvif_srvd_cmake.Profile.Setters.{HasDimensions, InRange, is_valid-InRange}
use onvif_srvd_cmake.Context.{ServiceContext, add_profile, new_context}

-- What the services rely on in a stored profile: it stands under its own name, it is valid, and
-- its dimensions are in range.
pub record IsStored (name : Text) (p : StreamProfile) : Type 0 where
  pub named : p.name ≡ name
  pub valid : is_valid p ≡ true
  pub dimensions : HasDimensions p

pub record IsWellFormed (c : ServiceContext) : Type 0 where
  pub sorted : IsSorted c.profiles
  pub stored : Every IsStored c.profiles

-- Adding a profile whose dimensions are unset or in range, accepted or refused, keeps a well-formed
-- context well formed: its names ascend, with none twice, and every profile in it is valid and stands
-- under its name.
pub add_profile-IsWellFormed :
    (p : StreamProfile) (c : ServiceContext)
    → HasDimensions p
    → IsWellFormed c
    → IsWellFormed (add_profile p c).0
unfolding add_profile
add_profile-IsWellFormed p c d w = elim (Bool-cases (is_valid p)) [
  | inl valid ↦ elim (Bool-cases (is_some (find p.name c.profiles))) [
    | inl known ↦ rw (valid, known, add_profile) (record { sorted = w.sorted; stored = w.stored })
    | inr new ↦
        rw (valid, new, add_profile)
          (record {
            sorted = IsSorted-assign p.name p c.profiles w.sorted;
            stored =
                Every-assign IsStored p.name p c.profiles
                  (record { named = refl; valid = valid; dimensions = d }) w.stored;
          })
  ]
  | inr bad ↦ rw (bad, add_profile) (record { sorted = w.sorted; stored = w.stored })
]

-- A profile is accepted exactly if it is valid and its name is new. Then it is found under its
-- name, and under any other name there is what was there; else every name keeps its profile.
pub add_profile-find :
    (p : StreamProfile) (c : ServiceContext) (k : Text)
    → ((add_profile p c).1 ≡ (is_valid p && not (is_some (find p.name c.profiles))))
      × (find k (add_profile p c).0.profiles
          ≡ (if (add_profile p c).1 && str_eq p.name k then some p else find k c.profiles))
unfolding add_profile
add_profile-find p c k = elim (Bool-cases (is_valid p)) [
  | inl valid ↦ elim (Bool-cases (is_some (find p.name c.profiles))) [
    | inl known ↦ rw (valid, known, add_profile) (refl, refl)
    | inr new ↦ rw (valid, new, add_profile) (refl, find-assign p.name k p c.profiles)
  ]
  | inr bad ↦ rw (bad, add_profile) (refl, refl)
]

-- In a well-formed context every profile that is found stands under its own name, has a width and
-- a height from 100 to 9999, and has a name and a URL.
pub find-IsStored :
    (c : ServiceContext) (k : Text) (p : StreamProfile)
    → IsWellFormed c
    → find k c.profiles ≡ some p
    → (p.name ≡ k) × InRange p.width × InRange p.height × (p.name ≢ []) × (p.url ≢ [])
find-IsStored c k p w e =
    let s = Every-find IsStored k p c.profiles w.stored e in
    let (wd, ht, nm, ur) = is_valid-InRange p s.dimensions s.valid in (s.named, wd, ht, nm, ur)

pub new_context-IsWellFormed : IsWellFormed new_context
unfolding new_context
new_context-IsWellFormed = record { sorted = tt; stored = tt }

-- The context as a table of profiles.
abbrev pub profile_table : Table
profile_table = record {
  Item = StreamProfile;
  State = ServiceContext;
  key = λ p. p.name;
  is_valid = is_valid;
  lookup = λ k c. find k c.profiles;
  add = add_profile;
  add-accepted = λ p c. (add_profile-find p c p.name).0;
  lookup-add = λ p c k. (add_profile-find p c k).1;
}
