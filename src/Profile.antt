-- ===== src/Profile.antt =====
-- pkg/brainapi/browser_profile.go: ParseProfile and ProfileForEmail. What they take of Go's library is
-- the record `Hashing`.
pub mod Names
use brainapi_go_sdk.Prelude.{
  length, trim_prefix, ◌%◌, starts_with, trim_space, get_or, is_empty, text_eq, to_lower, codes, ℕ,
  if◌then◌else◌, Text, List, [], ◌∷◌,
}

pub data BrowserProfile : Type 0 where
  chrome131 chrome133 chrome144 chrome146 safari16 safari_ios firefox132 firefox147 : BrowserProfile

abbrev pub profile_name : BrowserProfile → Text
profile_name chrome131 = codes "chrome131"
profile_name chrome133 = codes "chrome133"
profile_name chrome144 = codes "chrome144"
profile_name chrome146 = codes "chrome146"
profile_name safari16 = codes "safari16"
profile_name safari_ios = codes "safari-ios"
profile_name firefox132 = codes "firefox132"
profile_name firefox147 = codes "firefox147"

abbrev pub default_profile : BrowserProfile
default_profile = chrome131

abbrev pub sub_profiles : List BrowserProfile
sub_profiles = chrome131 ∷ chrome133 ∷ chrome144 ∷ safari_ios ∷ firefox132 ∷ []

abbrev pub all_profiles : List BrowserProfile
all_profiles =
    chrome131 ∷ chrome133 ∷ chrome144 ∷ chrome146 ∷ safari16 ∷ safari_ios ∷ firefox132 ∷ firefox147
    ∷ []

-- strings.ToLower, and the first eight bytes of the MD5 of a text as a number.
pub record Hashing : Type 0 where
  pub lower : Text → Text
  pub md5_head : Text → ℕ

unfoldable pub profile_for_email : Hashing → Text → BrowserProfile
profile_for_email h email =
    if is_empty email
    then default_profile
    else get_or sub_profiles (h.md5_head (h.lower (trim_space email)) % length sub_profiles)
        default_profile

-- The loop over allProfiles.
unfoldable pub find_profile : Text → List BrowserProfile → BrowserProfile
find_profile s [] = default_profile
find_profile s (p ∷ ps) = if text_eq (profile_name p) s then p else find_profile s ps

unfoldable pub parse_profile : Hashing → Text → BrowserProfile
unfolding profile_for_email find_profile
parse_profile h raw =
    let s = h.lower (trim_space raw) in
    if starts_with s (codes "auto:")
    then profile_for_email h (trim_prefix s (codes "auto:"))
    else find_profile s all_profiles
