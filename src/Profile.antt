-- ===== src/Profile.antt =====
-- StreamProfile of src/ServiceContext.h and src/ServiceContext.cpp: the settings of one media
-- profile. A `const char *` that may be NULL is an Option; the setters that build a std::string
-- or a stream from their argument at once take a text. The `int` that a setter reads into is not
-- initialised by the code: what it holds before is the argument `old`.

pub mod Soap
pub mod Setters
use Prim.Native.Nat.{◌≤◌}
use onvif_srvd_cmake.Prelude.{
  Text, ℤ, pos, Option, none, some, Bool, true, false, not, [], ◌&&◌, ◌||◌, is_empty, is_some,
  bytes, str_eq, ltb_ℤ, leb_ℤ, eqb_ℤ, minus_one, if◌then◌else◌,
}
use onvif_srvd_cmake.Prelude.Stream.{extract_int}

-- tt__VideoEncoding
pub data VideoEncoding : Type 0 where
  jpeg mpeg4 h264 : VideoEncoding

-- `type` is none where the program holds -1.
pub record StreamProfile : Type 0 where
  pub name : Text
  pub width : ℤ
  pub height : ℤ
  pub url : Text
  pub snapurl : Text
  pub type : Option VideoEncoding
  pub str_err : Text

unfoldable pub set_name : Option Text → StreamProfile → StreamProfile × Bool
set_name none p = (record p { str_err = bytes "Name is empty" }, false)
set_name (some new_val) p = (record p { name = new_val }, true)

unfoldable pub set_width : ℤ → Text → StreamProfile → StreamProfile × Bool
set_width old new_val p =
    let tmp_val = extract_int old new_val in
    if ltb_ℤ tmp_val (pos 100) || leb_ℤ (pos 10000) tmp_val
    then (record p { str_err = bytes "width is bad, correct range: 100-10000" }, false)
    else (record p { width = tmp_val }, true)

unfoldable pub set_height : ℤ → Text → StreamProfile → StreamProfile × Bool
set_height old new_val p =
    let tmp_val = extract_int old new_val in
    if ltb_ℤ tmp_val (pos 100) || leb_ℤ (pos 10000) tmp_val
    then (record p { str_err = bytes "height is bad, correct range: 100-10000" }, false)
    else (record p { height = tmp_val }, true)

unfoldable pub set_url : Option Text → StreamProfile → StreamProfile × Bool
set_url none p = (record p { str_err = bytes "URL is empty" }, false)
set_url (some new_val) p = (record p { url = new_val }, true)

unfoldable pub set_snapurl : Option Text → StreamProfile → StreamProfile × Bool
set_snapurl none p = (record p { str_err = bytes "URL is empty" }, false)
set_snapurl (some new_val) p = (record p { snapurl = new_val }, true)

unfoldable pub set_type : Text → StreamProfile → StreamProfile × Bool
set_type new_type p =
    if str_eq new_type (bytes "JPEG")
    then (record p { type = some jpeg }, true)
    else if str_eq new_type (bytes "MPEG4")
    then (record p { type = some mpeg4 }, true)
    else if str_eq new_type (bytes "H264")
    then (record p { type = some h264 }, true)
    else (record p { str_err = bytes "type dont support" }, false)

-- Everything but the error text.
unfoldable pub clear : StreamProfile → StreamProfile
clear p = record p {
  name = [];
  url = [];
  snapurl = [];
  width = minus_one;
  height = minus_one;
  type = none;
}

-- The constructor: a fresh profile is a cleared one with no error text.
unfoldable pub new_profile : StreamProfile
unfolding clear
new_profile = clear (record {
  name = [];
  width = pos 0;
  height = pos 0;
  url = [];
  snapurl = [];
  type = none;
  str_err = [];
})

unfoldable pub is_valid : StreamProfile → Bool
is_valid p =
    not (is_empty p.name)
    && not (is_empty p.url)
    && not (eqb_ℤ p.width minus_one)
    && not (eqb_ℤ p.height minus_one)
    && is_some p.type
