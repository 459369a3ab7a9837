-- ===== src/Capture/Browser/Checkpoint/Roundtrip.antt =====
-- `_decode_checkpoint` of capture/playwright_adapter.py on what `_encode_checkpoint` writes.
use fb_scraper.Prelude.{
  ℕ, zero, suc, ◌≡◌, ◌≢◌, refl, sym, ◌∙◌, arith, true, false, Option, none, some, List, [], ◌∷◌,
  ◌++◌, Text, text, text_eq, nat_eq, ◌==◌, contains, length,
}
use fb_scraper.Prelude.Dict.{lookup}
use fb_scraper.Errors.{ok, err}
use fb_scraper.Json.{to_dict-from_dict, as_text_list-text_list}
use fb_scraper.Capture.Browser.Checkpoint.{
  Action, payload, from_payload, split_dot, rstrip_equals, equals, missing, Library, digest,
  document, entries, encode_checkpoint, with_payload, differs, decode_checkpoint,
}

split_dot-append :
    (a b : Text) → contains a b'.' ≡ false → split_dot (a ++ (b'.' ∷ b)) ≡ some (a, b)
unfolding split_dot
split_dot-append [] b h = ground arith
split_dot-append (c ∷ a) b h = ground (arith, h, split_dot-append a b)

rstrip_equals-equals : (n : ℕ) → rstrip_equals (equals n) ≡ []
unfolding rstrip_equals equals
rstrip_equals-equals zero = refl
rstrip_equals-equals (suc n) = ground (arith, rstrip_equals-equals n)

rstrip_equals-append :
    (s : Text) (n : ℕ) → contains s b'=' ≡ false → rstrip_equals (s ++ equals n) ≡ s
unfolding rstrip_equals
rstrip_equals-append [] n h = rstrip_equals-equals n
rstrip_equals-append (c ∷ s) n h = ground (arith, h, rstrip_equals-append s n)

from_payload-fields :
    (kind key : Text) (selector label : Option Text)
    → from_payload (payload (record { kind = kind; key = key; selector = selector; text = label }))
      ≡ ok (record { kind = kind; key = key; selector = selector; text = label })
unfolding from_payload payload lookup text_eq
from_payload-fields kind key none none = refl
from_payload-fields kind key none (some t) = refl
from_payload-fields kind key (some s) none = refl
from_payload-fields kind key (some s) (some t) = refl

pub from_payload-payload : (a : Action) → from_payload (payload a) ≡ ok a
from_payload-payload a = from_payload-fields a.kind a.key a.selector a.text

same_text : (t : Text) → (t == t) ≡ true
same_text t = ground arith

other_text : (s t : Text) → s ≢ t → (s == t) ≡ false
other_text s t n = ground (arith, n)

plain_prefix : contains (text "pgscan-v1") b'.' ≡ false
unfolding nat_eq native.Mathlib.Decide.ℕ_discrete
plain_prefix = refl

module _ (library : Library) where
  -- What is left of a checkpoint once its hash agrees
  decode-encode :
      (own target : Text) (completed : List Text) (pending : Action)
      → decode_checkpoint library own (encode_checkpoint library target completed pending)
        ≡ with_payload own (some (entries target completed pending))
  unfolding decode_checkpoint encode_checkpoint text_eq
  decode-encode own target completed pending =
      let raw = library.dumps (document target completed pending) in
      let body = library.digits raw in
      let stripped = rstrip_equals-append body (missing (length body)) (library.no_equals raw) in
      let rest = body ++ (b'.' ∷ digest library raw) in
      rw
        (
          stripped,
          split_dot-append (text "pgscan-v1") rest plain_prefix,
          split_dot-append body (digest library raw) (library.no_dot raw),
          library.decode-digits raw,
          library.loads-dumps target completed pending,
          same_text (digest library raw),
        )
        refl

  -- For a library that reads the documents of checkpoints, and base64, as it wrote them, the
  -- checkpoint of every history and next action decodes, for the same target, to that history and
  -- that action.
  pub decode_checkpoint-encode_checkpoint :
      (target : Text) (completed : List Text) (pending : Action)
      → decode_checkpoint library target (encode_checkpoint library target completed pending)
        ≡ ok (completed, pending)
  unfolding lookup text_eq nat_eq
  decode_checkpoint-encode_checkpoint target completed pending =
      decode-encode target target completed pending
      ∙ rw
          (
            same_text target,
            as_text_list-text_list completed,
            to_dict-from_dict (payload pending),
            from_payload-payload pending,
          )
          refl

  -- For such a library, a checkpoint that was written for another target is refused with the error
  -- that the target or the version differs.
  pub decode_checkpoint-other :
      (own target : Text) (completed : List Text) (pending : Action)
      → own ≢ target
      → decode_checkpoint library own (encode_checkpoint library target completed pending)
        ≡ err differs
  unfolding lookup text_eq nat_eq
  decode_checkpoint-other own target completed pending n =
      decode-encode own target completed pending ∙ rw (other_text target own (λ p. n (sym p))) refl
