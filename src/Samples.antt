-- ===== src/Samples.antt =====
-- The decoders over a small reading of JSON, two callers of one slot, and a jar of no cookies.
use brainapi_go_sdk.Prelude.{
  inl, ◌↔◌, pos, update, ℕ, ◌+◌, ◌≤◌, ◌≡◌, ◌||◌, refl, Bool, true, false, Option, none, some, List,
  [], ◌∷◌, Text, codes, text_eq, is_empty, length, ltb, ◌==◌, if◌then◌else◌, ap, sym, arith,
}
use brainapi_go_sdk.Selfcorr.{PnLPoint}
use brainapi_go_sdk.Decoders.{Json, first_ptr, unmarshal_point, marshal_point, decode_activities}
use brainapi_go_sdk.Decoders.Aliases.{first_ptr-IsFirst, IsFirst}
use brainapi_go_sdk.Decoders.Points.{unmarshal_point-marshal_point, PrintsPairs}
use brainapi_go_sdk.Decoders.Columns.{decode_activities-Decodes, Decodes}
use brainapi_go_sdk.Jar.{CookieLib, CookieEntry, Disk}
use brainapi_go_sdk.Simulations.Slots.{
  Slots, arrive, acquire, Run, here, then_step, empty, queued, holding, holders, holders_le,
  queued-Proceeds,
}
use brainapi_go_sdk.Cli.Describe.{command, next, end, Commands, walk_commands, Header, CommandSpec}
use brainapi_go_sdk.Cli.{args_from_use}
use brainapi_go_sdk.Cli.Describe.Listed.{HasRow, IsRow, walk_commands-IsRow}
use brainapi_go_sdk.Jar.Sent.{build_headers-ReachesWire, ReachesWire}
use brainapi_go_sdk.Types.{RawRequest, RawResponse}
use brainapi_go_sdk.Jar.Wire.{tls_do, answered, Exchange, WireRequest}
use brainapi_go_sdk.Jar.Served.{tls_do-Serves, Serves}
use brainapi_go_sdk.Transport.Request.{build_headers}
use brainapi_go_sdk.Fixtures.{get_at, client}
use brainapi_go_sdk.Cli.Tree.{root_commands}

-- A pair of a byte and a number is two bytes; a number alone is one byte, and `null` is four.
abbrev length_of : Text → Option ℕ
length_of t = some (length t)

abbrev print_pair : Text → Option ℕ → Option Text
print_pair (d ∷ []) (some v) = some (d ∷ v ∷ [])
print_pair (d ∷ []) none = some (d ∷ [])
print_pair _ v = none

abbrev read_pair : Text → Option (Text × Text)
read_pair (d ∷ []) = some (d ∷ [], codes "null")
read_pair (d ∷ v ∷ []) = some (d ∷ [], v ∷ [])
read_pair _ = none

abbrev read_number : Text → Option ℕ
read_number (v ∷ []) = some v
read_number _ = none

abbrev pub small_json : Json ℕ
small_json = record {
  as_float = length_of;
  as_int = λ t. none;
  as_string = λ t. some t;
  as_number = λ t. some t;
  as_object = λ t. some [];
  as_row = λ t. if is_empty t then none else some (t ∷ t ∷ t ∷ []);
  as_pair = read_pair;
  parse_float = read_number;
  marshal_pair = print_pair;
  nan = 99;
  is_finite = λ v. ltb v 99;
}

abbrev one_byte : Text → Bool
one_byte t = length t == 1

small-PrintsPairs : PrintsPairs small_json one_byte
unfolding text_eq is_empty
small-PrintsPairs = record { number = number; gap = gap }
  where
    number :
        (d : Text) (v : ℕ) (b : Text)
        → one_byte d ≡ true
        → ltb v 99 ≡ true
        → print_pair d (some v) ≡ some b
        → (rd : Text) × (rv : Text) × (n : Text) × (read_pair b ≡ some (rd, rv))
          × ◌≡◌ {A = Option Text} (some rd) (some d)
          × (is_empty rv || text_eq rv (codes "null") ≡ false)
          × ◌≡◌ {A = Option Text} (some rv) (some n)
          × (read_number n ≡ some v)
    number [] v b k f e = absurd (ground arith)
    number (x ∷ []) v b k f e =
        let same : x ∷ v ∷ [] ≡ b = cc in
        (x ∷ [], v ∷ [], v ∷ [], ap read_pair (sym same), refl, ground arith, refl, refl)
    number (x ∷ y ∷ d) v b k f e = absurd (ground arith)

    gap :
        (d : Text) (b : Text)
        → one_byte d ≡ true
        → print_pair d none ≡ some b
        → (rd : Text) × (read_pair b ≡ some (rd, codes "null"))
          × ◌≡◌ {A = Option Text} (some rd) (some d)
    gap [] b k e = absurd (ground arith)
    gap (x ∷ []) b k e = let same : x ∷ [] ≡ b = cc in (x ∷ [], ap read_pair (sym same), refl)
    gap (x ∷ y ∷ d) b k e = absurd (ground arith)

abbrev point : PnLPoint ℕ
point = record { date = 49 ∷ []; value = 7 }

unmarshal_point-marshal_point_example : unmarshal_point small_json (49 ∷ 7 ∷ []) ≡ some point
unfolding marshal_point
unmarshal_point-marshal_point_example =
    unmarshal_point-marshal_point small_json one_byte point (49 ∷ 7 ∷ []) small-PrintsPairs refl
      refl

abbrev body : List (Text × Text)
body = (codes "b", codes "12") ∷ []

first_ptr-IsFirst_example :
    IsFirst length_of body
      (codes "a" ∷ codes "b" ∷ [])
      (first_ptr length_of body (codes "a" ∷ codes "b" ∷ []))
first_ptr-IsFirst_example = first_ptr-IsFirst length_of body (codes "a" ∷ codes "b" ∷ [])

decode_activities-Decodes_example :
    Decodes small_json (codes "a" ∷ codes "b" ∷ []) (codes "r" ∷ [] ∷ []) (
      decode_activities small_json (
        some
          (record { schema = some (codes "a" ∷ codes "b" ∷ []); records = codes "r" ∷ [] ∷ [] })))
unfolding text_eq
decode_activities-Decodes_example =
    decode_activities-Decodes small_json (codes "a") (codes "b" ∷ []) (codes "r" ∷ [] ∷ [])
      ((refl, tt), (tt, tt))

-- The first caller holds the slot, and the second waits for it.
both : Run 1 2 empty (record {
  held = 0 + 1;
  caller = update (update (update empty.caller 0 queued) 0 holding) 1 queued;
  is_done = empty.is_done;
})
both =
    then_step
      (then_step (then_step here (arrive 0 (omega arith) refl))
        (acquire 0 (omega arith) refl (omega arith)))
      (arrive 1 (omega arith) refl)

abbrev waiting : Slots
waiting = record {
  held = 0 + 1;
  caller = update (update (update empty.caller 0 queued) 0 holding) 1 queued;
  is_done = empty.is_done;
}

holders_le_example : (holders 2 waiting.caller ≤ 1) × (waiting.held ≡ holders 2 waiting.caller)
holders_le_example = holders_le 1 2 both

queued-Proceeds_example : (t : Slots) × Run 1 2 waiting t × (t.caller 1 ≡ holding)
queued-Proceeds_example = queued-Proceeds 1 2 1 (omega arith) both (omega arith) refl

-- A store that holds its cookies.
abbrev cookie_lib : CookieLib (List CookieEntry)
cookie_lib = record {
  cookies_of = λ s. s;
  set_cookies = λ cs s. cs;
  expire = λ cs. [];
  marshal = λ s. some (codes "{}");
  unmarshal = λ t. none;
}

abbrev disk : Disk
disk = record {
  temp = codes "jar.tmp-1";
  mkdir_error = none;
  create_error = none;
  write_error = none;
  close_error = none;
  rename_error = none;
  partial = [];
}

abbrev header : Text → Text → Header
header name use_line = record {
  name = name;
  hidden = false;
  short = [];
  use_line = use_line;
  flags = [];
}

-- brainapi alphas check <alphaId>, and the help of cobra.
abbrev brainapi_commands : Commands
brainapi_commands =
    next
      (command (header (codes "alphas") (codes "alphas"))
        (next (command (header (codes "check") (codes "check <alphaId>")) end) end))
      (next (command (header (codes "help") (codes "help [command]")) end) end)

abbrev check_row : CommandSpec
check_row = record {
  path = codes "alphas" ∷ codes "check" ∷ [];
  short = [];
  args = codes "<alphaId>";
  flags = [];
  long_poll = true;
}

walk_commands_run : walk_commands brainapi_commands [] ≡ check_row ∷ []
unfolding walk_commands text_eq args_from_use
walk_commands_run = refl

-- The same row in the whole tree.
abbrev all_commands : Commands
all_commands = root_commands (λ use_line. ([], []))

walk_commands-IsRow_example :
    HasRow check_row (walk_commands all_commands []) ↔ IsRow all_commands [] check_row
walk_commands-IsRow_example = walk_commands-IsRow all_commands [] check_row

build_headers-ReachesWire_example : ReachesWire (build_headers client (get_at (codes "/x")) true)
build_headers-ReachesWire_example =
    build_headers-ReachesWire client (get_at (codes "/x")) true refl (inl refl)

-- A server that answers every request with the status 200.
abbrev fine : RawResponse
fine = record { status = 200; header = λ h. []; body = [] }

abbrev round_trip : WireRequest → List CookieEntry → Exchange × List CookieEntry
round_trip r jar = (answered fine, jar)

abbrev a_request : RawRequest
a_request = record { method = codes "GET"; url = codes "https://h/x"; body = []; headers = [] }

tls_do-Serves_example :
    Serves cookie_lib
      (codes "jar")
      (codes "https://h")
      (codes "jar")
      (pos 5)
      (λ q. none)
      (answered fine, [])
      (tls_do cookie_lib round_trip disk
        (codes "jar")
        (codes "https://h")
        (pos 5)
        a_request
        []
        (λ q. none))
tls_do-Serves_example =
    tls_do-Serves cookie_lib round_trip disk (codes "jar") (codes "https://h") (codes "jar") (pos 5)
      a_request [] (λ q. none) refl
