-- ===== src/Capture/Browser/Checkpoint.antt =====
-- The checkpoint of capture/playwright_adapter.py: `_Action` and the text that names the next one
-- with what is done, bound to its target by a hash. Base64, `json` and SHA-256 are arguments.
pub mod Roundtrip
use fb_scraper.Prelude.{
  ℕ, zero, suc, ◌+◌, ◌-◌, ◌%◌, ◌<◌, ◌≡◌, ◌≢◌, refl, sym, ap, ◌∙◌, subst, arith, Bool, true, false,
  not, ◌&&◌, ◌||◌, Option, none, some, List, [], ◌∷◌, ◌++◌, reverse, Text, text, text_eq, nat_eq,
  ◌==◌, contains, length, if◌then◌else◌, Bool-cases, inl, inr,
}
use fb_scraper.Prelude.Dict.{Dict, lookup}
use fb_scraper.Errors.{Error, Result, ok, err, browser_state_error}
use fb_scraper.Json.{
  Json, null, boolean, number, string, object, to_dict, from_dict, to_dict-from_dict, as_dict,
  as_text, as_text_list, text_list, as_text_list-text_list, is_text,
}

-- `_Action`
pub record Action : Type 0 where
  pub kind : Text
  pub key : Text
  pub selector : Option Text
  pub text : Option Text

abbrev pub optional_entry : Text → Option Text → Dict Text Json
optional_entry name none = []
optional_entry name (some t) = (name, string t) ∷ []

-- `payload`
unfoldable pub payload : Action → Dict Text Json
payload a =
    (text "kind", string a.kind)
    ∷ (text "key", string a.key)
    ∷ (optional_entry (text "selector") a.selector ++ optional_entry (text "text") a.text)

abbrev pub checkpoint_invalid : Text → Error
checkpoint_invalid = browser_state_error (text "checkpoint_invalid")

-- `isinstance(value, str)` of a field, where `None` and a missing key are the same
abbrev pub required_text : Option Json → Option Text
required_text none = none
required_text (some v) = as_text v

abbrev pub is_optional_text : Option Json → Bool
is_optional_text none = true
is_optional_text (some null) = true
is_optional_text (some (string t)) = true
is_optional_text (some _) = false

abbrev pub with_texts : Option Text → Option Text → Option Json → Option Json → Result Action
with_texts (some kind) (some key) selector label =
    if not (is_optional_text selector)
    then err (checkpoint_invalid (text "selector is invalid"))
    else if not (is_optional_text label)
    then err (checkpoint_invalid (text "text is invalid"))
    else ok (record {
      kind = kind;
      key = key;
      selector = required_text selector;
      text = required_text label;
    })
with_texts _ _ selector label = err (checkpoint_invalid (text "action fields are invalid"))

-- `from_payload`
unfoldable pub from_payload : Dict Text Json → Result Action
unfolding lookup
from_payload value =
    with_texts (required_text (lookup (text "kind") value))
      (required_text (lookup (text "key") value)) (lookup (text "selector") value)
      (lookup (text "text") value)

-- `text.split(".", 1)`, when there is a dot
unfoldable pub split_dot : Text → Option (Text × Text)
split_dot [] = none
split_dot (c ∷ s) =
    let rest = split_dot s in
    if c == b'.' then some ([], s) else (elim rest [ none ↦ none | some (a, b) ↦ some (c ∷ a, b) ])

-- `s.rstrip("=")`
unfoldable pub rstrip_equals : Text → Text
rstrip_equals [] = []
rstrip_equals (c ∷ s) =
    let rest = rstrip_equals s in if (c == b'=') && (rest == []) then [] else c ∷ rest

-- `"=" * n`
unfoldable pub equals : ℕ → Text
equals zero = []
equals (suc n) = b'=' ∷ equals n

-- `-length % 4`
abbrev pub missing : ℕ → ℕ
missing n = (4 - n % 4) % 4

abbrev pub first : ℕ → Text → Text
first zero s = []
first (suc n) [] = []
first (suc n) (c ∷ s) = c ∷ first n s

abbrev pub entries : Text → List Text → Action → Dict Text Json
entries target completed pending =
    (text "version", number 1)
    ∷ (text "target", string target)
    ∷ (text "completed", text_list completed)
    ∷ (text "pending", object (from_dict (payload pending)))
    ∷ []

-- The document of a checkpoint
abbrev pub document : Text → List Text → Action → Json
document target completed pending = object (from_dict (entries target completed pending))

-- `payload.get("version") != 1`, where `True` is 1 too
abbrev pub is_version : Option Json → Bool
is_version (some (number n)) = n == 1
is_version (some (boolean b)) = b
is_version _ = false

abbrev pub is_target : Text → Option Json → Bool
is_target target none = false
is_target target (some v) = is_text v target

abbrev pub texts_at : Option Json → Option (List Text)
texts_at none = none
texts_at (some v) = as_text_list v

abbrev pub dict_at : Option Json → Option (Dict Text Json)
dict_at none = none
dict_at (some v) = as_dict v

abbrev pub with_action : List Text → Result Action → Result (List Text × Action)
with_action completed (err e) = err e
with_action completed (ok a) = ok (completed, a)

abbrev pub with_fields : Option (List Text) → Option (Dict Text Json) → Result (List Text × Action)
with_fields (some completed) (some pending) = with_action completed (from_payload pending)
with_fields _ _ = err (checkpoint_invalid (text "checkpoint fields are invalid"))

abbrev pub differs : Error
differs = checkpoint_invalid (text "checkpoint target or version differs")

abbrev pub with_payload : Text → Option (Dict Text Json) → Result (List Text × Action)
with_payload target none = err differs
with_payload target (some value) =
    if not (is_version (lookup (text "version") value))
      || not (is_target target (lookup (text "target") value))
    then err differs
    else with_fields (texts_at (lookup (text "completed") value))
        (dict_at (lookup (text "pending") value))

abbrev pub malformed : Error
malformed = checkpoint_invalid (text "checkpoint is malformed")

abbrev pub with_json : Text → Bool → Option Json → Result (List Text × Action)
with_json target is_whole none = err malformed
with_json target is_whole (some v) =
    if not is_whole
    then err (checkpoint_invalid (text "checkpoint integrity check failed"))
    else with_payload target (as_dict v)

-- The standard library. `json` reads a document as it wrote it. Base64 writes characters other than `=` and `.`, and then as many `=`,
-- fewer than four, as fill a group of four characters. `sha256` is the hexadecimal digest.
pub record Library : Type 0 where
  pub dumps : Json → Text
  pub loads : Text → Option Json
  pub loads-dumps :
      (target : Text) (completed : List Text) (pending : Action)
      → loads (dumps (document target completed pending)) ≡ some (document target completed pending)
  pub digits : Text → Text
  pub decode : Text → Option Text
  pub decode-digits :
      (raw : Text) → decode (digits raw ++ equals (missing (length (digits raw)))) ≡ some raw
  pub no_equals : (raw : Text) → contains (digits raw) b'=' ≡ false
  pub no_dot : (raw : Text) → contains (digits raw) b'.' ≡ false
  pub sha256 : Text → Text

module _ (library : Library) where
  -- `base64.urlsafe_b64encode(raw).decode()`
  abbrev pub encode : Text → Text
  encode raw = library.digits raw ++ equals (missing (length (library.digits raw)))

  abbrev pub digest : Text → Text
  digest raw = first 24 (library.sha256 raw)

  -- `_encode_checkpoint`, by the digest of the target
  unfoldable pub encode_checkpoint : Text → List Text → Action → Text
  unfolding payload rstrip_equals equals
  encode_checkpoint target completed pending =
      let raw = library.dumps (document target completed pending) in
      text "pgscan-v1" ++ (b'.' ∷ (rstrip_equals (encode raw) ++ (b'.' ∷ digest raw)))

  abbrev pub with_raw : Text → Text → Text → Option Text → Result (List Text × Action)
  with_raw target prefix expected none = err malformed
  with_raw target prefix expected (some raw) =
      with_json target ((prefix == text "pgscan-v1") && (digest raw == expected))
        (library.loads raw)

  abbrev pub with_rest : Text → Text → Option (Text × Text) → Result (List Text × Action)
  with_rest target prefix none = err malformed
  with_rest target prefix (some (encoded, expected)) =
      with_raw target prefix expected
        (library.decode (encoded ++ equals (missing (length encoded))))

  abbrev pub with_parts : Text → Option (Text × Text) → Result (List Text × Action)
  with_parts target none = err malformed
  with_parts target (some (prefix, rest)) = with_rest target prefix (split_dot rest)

  -- `_decode_checkpoint`
  unfoldable pub decode_checkpoint : Text → Text → Result (List Text × Action)
  unfolding split_dot equals lookup from_payload
  decode_checkpoint target checkpoint = with_parts target (split_dot checkpoint)
