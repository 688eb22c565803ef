-- ===== src/Startup/Loading/Loader.antt =====
-- ConfigLoader of src/ConfigLoader.hpp and src/ConfigLoader.cpp: the constructor, getSetting, and
-- getArray of a vector and of an array. libconfig is the parameter LibConfig; where it throws, an operation of it
-- gives none.
use onvif_srvd_cmake.Prelude.{
  Text, ℤ, Option, none, some, Bool, List, [], ◌∷◌, ◌++◌, ◌==◌, bytes, length, if◌then◌else◌,
}
use onvif_srvd_cmake.Prelude.Stream.{decimal}

-- What Config::readFile does.
pub data Read (A : Type 0) : Type 0 where
  opened : A → Read A
  io_error parse_error : Read A

pub record LibConfig : Type 1 where
  pub Config : Type 0
  pub Setting : Type 0
  pub read_file : Text → Read Config
  -- none is a SettingNotFoundException
  pub lookup : Config → Text → Option Setting
  -- the conversions of a setting; none is a SettingTypeException
  pub to_text : Setting → Option Text
  pub to_int : Setting → Option ℤ
  pub to_bool : Setting → Option Bool
  pub is_group : Setting → Bool
  -- what getLength counts and operator[] gives
  pub items : Setting → List Setting
  -- lookupValue; none where it returns false
  pub text_value : Setting → Text → Option Text
  pub int_value : Setting → Text → Option ℤ
  pub bool_value : Setting → Text → Option Bool

-- What leaves the constructors as an exception.
pub data Exception : Type 0 where
  cannot_read cannot_parse wrong_type : Exception
  runtime_error : Text → Exception

pub data Loaded (A : Type 0) : Type 0 where
  throws : Exception → Loaded A
  loaded : A → Loaded A

infixl 5 ◌>>=◌
unfoldable pub ◌>>=◌ : {A B : Type 0} → Loaded A → (A → Loaded B) → Loaded B
throws x >>= f = throws x
loaded a >>= f = f a

abbrev pub or_throw : {A : Type 0} → Exception → Option A → Loaded A
or_throw x none = throws x
or_throw x (some a) = loaded a

-- push_back of each item, in order.
unfoldable pub load_items : {A B : Type 0} → (A → Loaded B) → List A → Loaded (List B)
unfolding ◌>>=◌
load_items f [] = loaded []
load_items f (x ∷ xs) = do y ← f x; ys ← load_items f xs; loaded (y ∷ ys)

module _ (l : LibConfig) where
  open l use {Config, Setting}

  -- ConfigLoader::getSetting, for one conversion.
  unfoldable pub get_setting : {A : Type 0} → (Setting → Option A) → Config → Text → A → Loaded A
  get_setting convert c key var = elim (l.lookup c key) [
    | none ↦ loaded var
    | some s ↦ or_throw wrong_type (convert s)
  ]

  -- ConfigLoader::getArray of a vector.
  unfoldable pub get_array :
      {A : Type 0} → (Setting → Loaded A) → Config → Text → List A → Loaded (List A)
  unfolding load_items
  get_array convert c key var = elim (l.lookup c key) [
    | none ↦ loaded var
    | some s ↦ load_items convert (l.items s)
  ]

  -- ConfigLoader::getArray of a std::array, which is the list of its elements; `config_file` is
  -- m_configFile.
  unfoldable pub get_fixed_array :
      {A : Type 0} → (Setting → Loaded A) → Text → Config → Text → List A → Loaded (List A)
  unfolding load_items
  get_fixed_array convert config_file c key var = elim (l.lookup c key) [
    | none ↦ loaded var
    | some s ↦
        if length (l.items s) == length var
        then load_items convert (l.items s)
        else throws (
            runtime_error (
              config_file
              ++ (bytes ", "
                  ++ (key
                      ++ (bytes ": Error reading data for array of size "
                          ++ decimal (length var))))))
  ]

  -- ConfigLoader(configFile)
  unfoldable pub config_loader : Text → Loaded Config
  config_loader path = elim (l.read_file path) [
    | opened c ↦ loaded c
    | io_error ↦ throws cannot_read
    | parse_error ↦ throws cannot_parse
  ]
