-- ===== src/Jar.antt =====
-- pkg/brainapi/transport.go: the cookie jar that tlsHTTP keeps in a file. The
-- cookie jar of tls-client is a store S with its functions; a file system is its files, and what may
-- fail of an operation on it is an argument.
pub mod Atomic
pub mod Wire
pub mod Sent
pub mod Served
use brainapi_go_sdk.Prelude.{
  Bool, true, false, not, Option, none, some, List, [], ◌∷◌, Text, codes, is_empty, text_eq,
  if◌then◌else◌, ℤ,
}
use brainapi_go_sdk.Errors.{Error, opaque, wrapped, net_wrapped}
use brainapi_go_sdk.Types.{RawRequest, RawResponse, HdrPair}
use brainapi_go_sdk.Runtime.{Reply, response, failure}

pub record CookieEntry : Type 0 where
  pub name : Text
  pub value : Text
  pub path : Text
  pub domain : Text
  pub expires : ℤ
  pub secure : Bool
  pub http : Bool

pub record CookieSnapshot : Type 0 where
  pub url : Text
  pub cookies : List CookieEntry
  pub saved : ℤ

pub record CookieLib (S : Type 0) : Type 0 where
  pub cookies_of : S → List CookieEntry  -- jar.Cookies(baseURL)
  pub set_cookies : List CookieEntry → S → S  -- jar.SetCookies(baseURL, …)
  pub expire : List CookieEntry → List CookieEntry  -- the same cookies in the past
  pub marshal : CookieSnapshot → Option Text
  pub unmarshal : Text → Option CookieSnapshot

abbrev pub Files : Type 0
Files = Text → Option Text

unfoldable pub write_file : Text → Text → Files → Files
write_file path b fs q = if text_eq q path then some b else fs q

unfoldable pub remove_file : Text → Files → Files
remove_file path fs q = if text_eq q path then none else fs q

unfoldable pub rename_file : Text → Text → Files → Files
rename_file from to fs q = if text_eq q to then fs from else if text_eq q from then none else fs q

-- The name that os.CreateTemp picks, the errors of the calls in their order, and what is in the file
-- after a write that failed.
pub record Disk : Type 0 where
  pub temp : Text
  pub mkdir_error : Option Error
  pub create_error : Option Error
  pub write_error : Option Error
  pub close_error : Option Error
  pub rename_error : Option Error
  pub partial : Text

-- saveJar behind os.CreateTemp; os.Remove succeeds.
unfoldable pub write_temp : Disk → Text → Text → Files → Option Error × Files
unfolding write_file remove_file rename_file
write_temp d path b fs = elim d.write_error [
  | some e ↦ (some e, remove_file d.temp (write_file d.temp d.partial fs))
  | none ↦ elim d.close_error [
    | some e ↦ (some e, remove_file d.temp (write_file d.temp b fs))
    | none ↦ elim d.rename_error [
      | some e ↦ (some e, remove_file d.temp (write_file d.temp b fs))
      | none ↦ (none, rename_file d.temp path (write_file d.temp b fs))
    ]
  ]
]

-- saveJar behind json.MarshalIndent.
unfoldable pub save_bytes : Disk → Text → Text → Files → Option Error × Files
unfolding write_temp
save_bytes d path b fs = elim d.mkdir_error [
  | some e ↦ (some e, fs)
  | none ↦ elim d.create_error [ some e ↦ (some e, fs) | none ↦ write_temp d path b fs ]
]

abbrev pub save_marshalled : Disk → Text → Option Text → Files → Option Error × Files
save_marshalled d path none fs = (some (opaque (codes "json")), fs)
save_marshalled d path (some b) fs = save_bytes d path b fs

abbrev is_nil : List CookieEntry → Bool
is_nil [] = true
is_nil (c ∷ cs) = false

module _ {S : Type 0} (lib : CookieLib S) where
  abbrev pub snapshot : Text → ℤ → S → CookieSnapshot
  snapshot url now jar = record { url = url; cookies = lib.cookies_of jar; saved = now }

  unfoldable pub save_jar : Disk → Text → Text → ℤ → Option S → Files → Option Error × Files
  unfolding save_bytes
  save_jar d path url now none fs = (none, fs)
  save_jar d path url now (some jar) fs =
      save_marshalled d path (lib.marshal (snapshot url now jar)) fs

  abbrev read_snapshot : Option CookieSnapshot → S → Option Error × S
  read_snapshot none jar = (some (opaque (codes "json")), jar)
  read_snapshot (some s) jar =
      (none, if is_nil s.cookies then jar else lib.set_cookies s.cookies jar)

  -- loadJar of a client that has a jar.
  unfoldable pub load_jar : Text → S → Files → Option Error × S
  load_jar path jar fs = elim (fs path) [
    | none ↦ (some (opaque (codes "read")), jar)
    | some b ↦ read_snapshot (lib.unmarshal b) jar
  ]

  -- clearJar; an error of os.Remove is only logged.
  unfoldable pub clear_jar_files : Text → Bool → S → Files → S × Files
  unfolding remove_file
  clear_jar_files path remove_fails jar fs = (
    if is_nil (lib.cookies_of jar)
        then jar
        else lib.set_cookies (lib.expire (lib.cookies_of jar)) jar,
    if is_empty path then fs else if remove_fails then fs else remove_file path fs,
  )
