-- ===== src/Profile/Names.antt =====
-- ParseProfile on the names of profiles, and on any other text.
use brainapi_go_sdk.Profile.{
  all_profiles, find_profile, profile_for_email, Hashing, profile_name, BrowserProfile,
  parse_profile, chrome131, chrome133, chrome144, chrome146, safari16, safari_ios, firefox132,
  firefox147,
}
use brainapi_go_sdk.Prelude.{
  if◌then◌else◌, codes, trim_prefix, ap, ◌∙◌, refl, ◌≡◌, Text, text_eq, starts_with, trim_space,
}

named :
    (h : Hashing) (p : BrowserProfile) (s : Text)
    → s ≡ profile_name p
    → (if starts_with s (codes "auto:")
        then profile_for_email h (trim_prefix s (codes "auto:"))
        else find_profile s all_profiles)
      ≡ p
unfolding find_profile starts_with text_eq
named h chrome131 s e = rw e refl
named h chrome133 s e = rw e refl
named h chrome144 s e = rw e refl
named h chrome146 s e = rw e refl
named h safari16 s e = rw e refl
named h safari_ios s e = rw e refl
named h firefox132 s e = rw e refl
named h firefox147 s e = rw e refl

trimmed : (p : BrowserProfile) → trim_space (profile_name p) ≡ profile_name p
unfolding trim_space
trimmed chrome131 = refl
trimmed chrome133 = refl
trimmed chrome144 = refl
trimmed chrome146 = refl
trimmed safari16 = refl
trimmed safari_ios = refl
trimmed firefox132 = refl
trimmed firefox147 = refl

-- ParseProfile reads each profile back from its name, where strings.ToLower leaves that name
-- alone.
pub parse_profile-name :
    (h : Hashing) (p : BrowserProfile)
    → h.lower (profile_name p) ≡ profile_name p
    → parse_profile h (profile_name p) ≡ p
unfolding parse_profile
parse_profile-name h p e = named h p _ (ap h.lower (trimmed p) ∙ e)
