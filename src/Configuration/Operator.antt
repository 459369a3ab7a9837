-- ===== src/Configuration/Operator.antt =====
-- `OperatorRunConfiguration` of configuration.py, on what `tomllib` has read.
use fb_scraper.Prelude.{
  ℕ, Bool, false, not, ◌&&◌, Option, none, some, List, [], ◌∷◌, Text, text, text_eq, ◌==◌, leb,
  reverse, nat_eq, ℤ, pos, negsuc, if◌then◌else◌,
}
use fb_scraper.Prelude.Dict.{Dict, lookup}
use fb_scraper.Errors.{Result, ok, err, type_error}
use fb_scraper.Configuration.{
  Number, from_zero, equals, string, boolean, Entry, scalar, array, nested, Section, table, Paths,
  refuse, refuse_if, table_at, text_of, number_at, integer_at, number_pair, has_only, has_all,
  path_at, ◌>>=◌, ◌>>◌,
}

-- `OperatorSessionConfiguration`, by its method
pub data Session : Type 0 where
  existing guided : Text → Text → Session
  imported : Text → Text → Text → Session

-- `OperatorTargetConfiguration`, by its method
pub record Search : Type 0 where
  pub select : Text
  pub base_url : Text
  pub keyword : Text
  pub location : Text

pub data Target : Type 0 where
  discovery : Text → Text → Text → Text → Target
  live_discovery live_join : Search → Target
  url : Text → Target
  csv : Text → Text → Target

-- `OperatorProtectionConfiguration`
pub record Protection : Type 0 where
  pub navigation_delay_seconds : Number × Number
  pub scroll_delay_seconds : Number × Number
  pub expansion_delay_seconds : Number × Number
  pub retry_delays_seconds : Number × Number
  pub between_groups_seconds : Number
  pub workers : ℤ
  pub active_groups : ℤ
  pub first_group_post_limit : ℤ

abbrev pub whole : ℕ → Number
whole n = from_zero n 0

-- `OperatorProtectionConfiguration()`
abbrev pub default_protection : Protection
default_protection = record {
  navigation_delay_seconds = (whole 10, whole 20);
  scroll_delay_seconds = (whole 6, whole 12);
  expansion_delay_seconds = (whole 3, whole 7);
  retry_delays_seconds = (whole 30, whole 120);
  between_groups_seconds = whole 900;
  workers = pos 1;
  active_groups = pos 1;
  first_group_post_limit = pos 30;
}

abbrev pub protection_keys : List Text
protection_keys =
    text "navigation_delay_seconds"
    ∷ text "scroll_delay_seconds"
    ∷ text "expansion_delay_seconds"
    ∷ text "retry_delays_seconds"
    ∷ text "between_groups_seconds"
    ∷ text "workers"
    ∷ text "active_groups"
    ∷ text "first_group_post_limit"
    ∷ []

abbrev pub is_one : ℤ → Bool
is_one (pos n) = n == 1
is_one (negsuc n) = false

-- `1 <= post_limit <= 30`
abbrev pub is_limit : ℤ → Bool
is_limit (pos n) = leb 1 n && leb n 30
is_limit (negsuc n) = false

abbrev pub is_retries : Number × Number → Bool
is_retries (a, b) = equals a 30 && equals b 120

-- `_protection` on a table
unfoldable pub protection_of : Dict Text Entry → Result Protection
unfolding number_pair integer_at equals
protection_of values = do
  refuse_if (not (has_only protection_keys values && has_all protection_keys values))
  navigation ← number_pair 10 20 (lookup (text "navigation_delay_seconds") values)
  scroll ← number_pair 6 12 (lookup (text "scroll_delay_seconds") values)
  expansion ← number_pair 3 7 (lookup (text "expansion_delay_seconds") values)
  retries ← number_pair 30 120 (lookup (text "retry_delays_seconds") values)
  refuse_if (not (is_retries retries))
  between_groups ← number_at (lookup (text "between_groups_seconds") values)
  workers ← integer_at (lookup (text "workers") values)
  active_groups ← integer_at (lookup (text "active_groups") values)
  post_limit ← integer_at (lookup (text "first_group_post_limit") values)
  refuse_if (not (equals between_groups 900))
  refuse_if (not (is_one workers && is_one active_groups))
  refuse_if (not (is_limit post_limit))
  ok (record {
    navigation_delay_seconds = navigation;
    scroll_delay_seconds = scroll;
    expansion_delay_seconds = expansion;
    retry_delays_seconds = retries;
    between_groups_seconds = between_groups;
    workers = workers;
    active_groups = active_groups;
    first_group_post_limit = post_limit;
  })

-- `_protection`
unfoldable pub protection : Option Section → Result Protection
unfolding protection_of
protection none = ok default_protection
protection (some (table values)) = protection_of values
protection (some s) = refuse

-- `values.get("method")`, a text; `in` raises TypeError for a value without a hash
abbrev pub method_of : Option Entry → Result Text
method_of (some (scalar (string t))) = ok t
method_of (some (array vs)) = err type_error
method_of (some nested) = err type_error
method_of _ = refuse

abbrev pub fields : List Text → List Text → Dict Text Entry → Result (Unit {0})
fields allowed expected values =
    refuse_if (not (has_only allowed values && has_all expected values))

abbrev pub session_keys : List Text
session_keys = text "method" ∷ text "profile" ∷ []

abbrev pub default_start_url : Text
default_start_url = text "https://www.facebook.com/"

-- `_optional_text(values, "start_url") or ...`
abbrev pub start_url : Option Entry → Result Text
start_url none = ok default_start_url
start_url (some e) = text_of (some e)

-- `_session`
unfoldable pub session : Paths → Text → Dict Text Entry → Result Session
unfolding text_of path_at
session paths parent values = do
  method ← method_of (lookup (text "method") values)
  if method == text "existing"
      then (do
        profile ← text_of (lookup (text "profile") values)
        fields session_keys session_keys values
        ok (existing profile default_start_url))
      else if method == text "imported"
      then (do
        profile ← text_of (lookup (text "profile") values)
        fields (text "state_file" ∷ session_keys) (text "state_file" ∷ session_keys) values
        state_file ← path_at paths parent (lookup (text "state_file") values)
        ok (imported profile state_file default_start_url))
      else if method == text "guided"
      then (do
        profile ← text_of (lookup (text "profile") values)
        fields (text "start_url" ∷ session_keys) session_keys values
        address ← start_url (lookup (text "start_url") values)
        ok (guided profile address))
      else refuse

-- `.rstrip("/")`
abbrev pub drop_slashes : Text → Text
drop_slashes [] = []
drop_slashes (c ∷ t) = if c == 47 then drop_slashes t else c ∷ t

abbrev pub live_keys : List Text
live_keys = text "method" ∷ text "base_url" ∷ text "keyword" ∷ text "location" ∷ []

-- `_text(values, "select", "target") if "select" in values else "lowest-volume"`
abbrev pub select_of : Option Entry → Result Text
select_of none = ok (text "lowest-volume")
select_of (some e) = text_of (some e)

-- The fields of `live_discovery` and of `live_join`
abbrev pub live_target : (Search → Target) → Dict Text Entry → Result Target
live_target make values = do
  fields (text "select" ∷ live_keys) live_keys values
  select ← select_of (lookup (text "select") values)
  base_url ← text_of (lookup (text "base_url") values)
  keyword ← text_of (lookup (text "keyword") values)
  location ← text_of (lookup (text "location") values)
  ok (
      make (record {
        select = select;
        base_url = reverse (drop_slashes (reverse base_url));
        keyword = keyword;
        location = location;
      }))

abbrev pub discovery_keys : List Text
discovery_keys =
    text "method" ∷ text "fixture" ∷ text "keyword" ∷ text "location" ∷ text "select" ∷ []

abbrev pub csv_keys : List Text
csv_keys = text "method" ∷ text "csv_file" ∷ text "select" ∷ []

-- `_target`
unfoldable pub target : Paths → Text → Dict Text Entry → Result Target
unfolding text_of path_at
target paths parent values = do
  method ← method_of (lookup (text "method") values)
  if method == text "discovery"
      then (do
        fields discovery_keys discovery_keys values
        select ← text_of (lookup (text "select") values)
        fixture ← path_at paths parent (lookup (text "fixture") values)
        keyword ← text_of (lookup (text "keyword") values)
        location ← text_of (lookup (text "location") values)
        ok (discovery select fixture keyword location))
      else if method == text "live_discovery"
      then live_target live_discovery values
      else if method == text "live_join"
      then live_target live_join values
      else if method == text "url"
      then (do
        fields (text "method" ∷ text "url" ∷ []) (text "method" ∷ text "url" ∷ []) values
        address ← text_of (lookup (text "url") values)
        ok (url address))
      else if method == text "csv"
      then (do
        fields csv_keys csv_keys values
        select ← text_of (lookup (text "select") values)
        csv_file ← path_at paths parent (lookup (text "csv_file") values)
        ok (csv select csv_file))
      else refuse

-- `OperatorRunConfiguration`
pub record OperatorRun : Type 0 where
  pub output : Text
  pub raw_root : Text
  pub session_root : Text
  pub session : Session
  pub target : Target
  pub headless : Bool
  pub protection : Protection

abbrev pub document_keys : List Text
document_keys = text "run" ∷ text "session" ∷ text "target" ∷ []

abbrev pub run_keys : List Text
run_keys = text "mode" ∷ text "output" ∷ text "raw_root" ∷ text "session_root" ∷ []

-- `run.get("mode") == "operator"`
abbrev pub is_operator_mode : Option Entry → Bool
is_operator_mode (some (scalar (string t))) = t == text "operator"
is_operator_mode _ = false

abbrev pub headless_of : Option Entry → Result Bool
headless_of none = ok false
headless_of (some (scalar (boolean b))) = ok b
headless_of _ = refuse

-- `load`
unfoldable pub load : Paths → Text → Dict Text Section → Result OperatorRun
unfolding protection session target path_at
load paths parent payload = do
  refuse_if
      (not (has_all document_keys payload && has_only (text "protection" ∷ document_keys) payload))
  run ← table_at (lookup (text "run") payload)
  fields (text "headless" ∷ run_keys) run_keys run
  refuse_if (not (is_operator_mode (lookup (text "mode") run)))
  headless ← headless_of (lookup (text "headless") run)
  output ← path_at paths parent (lookup (text "output") run)
  raw_root ← path_at paths parent (lookup (text "raw_root") run)
  session_root ← path_at paths parent (lookup (text "session_root") run)
  session_table ← table_at (lookup (text "session") payload)
  the_session ← session paths parent session_table
  target_table ← table_at (lookup (text "target") payload)
  the_target ← target paths parent target_table
  the_protection ← protection (lookup (text "protection") payload)
  ok (record {
    output = output;
    raw_root = raw_root;
    session_root = session_root;
    session = the_session;
    target = the_target;
    headless = headless;
    protection = the_protection;
  })

-- `is_operator`
unfoldable pub is_operator : Dict Text Section → Bool
is_operator payload = elim (lookup (text "run") payload) [
  | some (table run) ↦ is_operator_mode (lookup (text "mode") run)
  | _ ↦ false
]
