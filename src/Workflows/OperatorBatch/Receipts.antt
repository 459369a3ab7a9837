-- ===== src/Workflows/OperatorBatch/Receipts.antt =====
-- A group's result in the receipt of an operator batch: `as_dict` and `_from_dict` of
-- workflows/operator_batch.py.
use fb_scraper.Prelude.{
  ◌≡◌, refl, Option, none, some, [], ◌∷◌, Text, text, text_eq, text_dec, nat_eq, ◌==◌,
  if◌then◌else◌,
}
use fb_scraper.Prelude.Dict.{Dict, lookup}
use fb_scraper.Json.{
  Json, number, string, as_text, optional_text, Builtins, int_of, float_of, optional_str,
  int_or_zero,
}
use fb_scraper.Workflows.OperatorBatch.{
  GroupState, succeeded, incomplete, failed, stopped, GroupResult,
}

abbrev pub state_text : GroupState → Text
state_text succeeded = text "succeeded"
state_text incomplete = text "incomplete"
state_text failed = text "failed"
state_text stopped = text "stopped"

abbrev pub state_of : Text → Option GroupState
state_of t =
    if t == text "succeeded"
    then some succeeded
    else if t == text "incomplete"
    then some incomplete
    else if t == text "failed"
    then some failed
    else if t == text "stopped"
    then some stopped
    else none

-- `OperatorBatchGroupResult.as_dict`
unfoldable pub as_dict : GroupResult → Dict Text Json
as_dict g =
    (text "attempts", number g.attempts)
    ∷ (text "duration_seconds", number g.duration_seconds)
    ∷ (text "error_type", optional_text g.error_type)
    ∷ (text "identifier_count", number g.identifier_count)
    ∷ (text "identifier_set_sha256", optional_text g.identifier_set_sha256)
    ∷ (text "normalized_sha256", optional_text g.normalized_sha256)
    ∷ (text "raw_sha256", optional_text g.raw_sha256)
    ∷ (text "run_id_sha256", optional_text g.run_id_sha256)
    ∷ (text "state", string (state_text g.state))
    ∷ (text "stop_reason", optional_text g.stop_reason)
    ∷ (text "target_key", string g.target_key)
    ∷ (text "validated_comments", number g.validated_comments)
    ∷ (text "validated_posts", number g.validated_posts)
    ∷ []

infixl 10 ◌>>=◌
◌>>=◌ : {A B : Type 0} → Option A → (A → Option B) → Option B
none >>= f = none
some a >>= f = f a

-- `_from_dict`; `none` is a KeyError, a TypeError or a ValueError
unfoldable pub group_result : Builtins → Dict Text Json → Option GroupResult
unfolding ◌>>=◌
group_result builtins value = do
  target_key ← lookup (text "target_key") value >>= as_text
  state ← lookup (text "state") value >>= as_text >>= state_of
  identifier_count ← int_or_zero builtins (lookup (text "identifier_count") value)
  attempts ← lookup (text "attempts") value >>= int_of builtins
  validated_posts ← int_or_zero builtins (lookup (text "validated_posts") value)
  validated_comments ← int_or_zero builtins (lookup (text "validated_comments") value)
  duration_seconds ← lookup (text "duration_seconds") value >>= float_of builtins
  some (record {
    target_key = target_key;
    state = state;
    attempts = attempts;
    run_id_sha256 = optional_str builtins (lookup (text "run_id_sha256") value);
    identifier_count = identifier_count;
    identifier_set_sha256 = optional_str builtins (lookup (text "identifier_set_sha256") value);
    normalized_sha256 = optional_str builtins (lookup (text "normalized_sha256") value);
    raw_sha256 = optional_str builtins (lookup (text "raw_sha256") value);
    validated_posts = validated_posts;
    validated_comments = validated_comments;
    duration_seconds = duration_seconds;
    error_type = optional_str builtins (lookup (text "error_type") value);
    stop_reason = optional_str builtins (lookup (text "stop_reason") value);
  })

state_of-state_text : (s : GroupState) → state_of (state_text s) ≡ some s
unfolding text_eq text_dec
state_of-state_text succeeded = refl
state_of-state_text incomplete = refl
state_of-state_text failed = refl
state_of-state_text stopped = refl

optional_str-optional_text :
    (builtins : Builtins) (t : Option Text) → optional_str builtins (some (optional_text t)) ≡ t
optional_str-optional_text builtins none = refl
optional_str-optional_text builtins (some t) = rw (builtins.str_text t) refl

-- The result of a group that the receipt holds is read back as it was.
pub group_result-as_dict :
    (builtins : Builtins) (g : GroupResult) → group_result builtins (as_dict g) ≡ some g
unfolding group_result as_dict ◌>>=◌ lookup text_eq text_dec
group_result-as_dict builtins g =
    rw
      (
        state_of-state_text g.state,
        optional_str-optional_text builtins g.run_id_sha256,
        optional_str-optional_text builtins g.identifier_set_sha256,
        optional_str-optional_text builtins g.normalized_sha256,
        optional_str-optional_text builtins g.raw_sha256,
        optional_str-optional_text builtins g.error_type,
        optional_str-optional_text builtins g.stop_reason,
      )
      refl
