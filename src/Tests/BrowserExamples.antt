-- ===== src/Tests/BrowserExamples.antt =====
-- Checkpoints with a library that keeps texts as they are, and a snapshot of three Posts.
use fb_scraper.Prelude.{
  ℕ, ◌+◌, ◌≡◌, ◌<◌, ◌-◌, zero, suc, ap, ◌∙◌, map, filter, leb, refl, arith, false, true, false,
  Option, none, some, List, [], ◌∷◌, ◌++◌, Text, text, text_eq, nat_eq, contains, length,
}
use fb_scraper.Exec.{pure, raise}
use fb_scraper.Capture.Browser.Lifecycle.{
  Driver, Adapter, IsClosed, capture_pages, capture_pages-IsClosed,
}
use fb_scraper.Errors.{playwright_error, runtime_error, Result, ok, err}
use fb_scraper.Json.{
  Json, object, field, string, to_dict, to_dict-from_dict, as_text_list, as_text_list-text_list,
}
use fb_scraper.Capture.Browser.Checkpoint.{
  Action, payload, from_payload, equals, missing, document, Library, differs, encode_checkpoint,
  decode_checkpoint,
}
use fb_scraper.Capture.Browser.Checkpoint.Roundtrip.{
  from_payload-payload, decode_checkpoint-encode_checkpoint, decode_checkpoint-other,
}
use fb_scraper.Tests.Instances.{Codec, code_codec, pair_codec, list_codec}
use fb_scraper.Capture.Browser.Posts.{Element, bounded_html}
use fb_scraper.Capture.Browser.Posts.Bounded.{IsBounded, bounded_html-IsBounded}

abbrev post : Text → Element
post i = record { explicit = some i; in_href = none }

bounded_html-IsBounded_example : IsBounded (text "known" ∷ []) 1 (
    bounded_html
      (text "known" ∷ [])
      1
      (post (text "known") ∷ post (text "a") ∷ post (text "b") ∷ [])
      []
      [])
bounded_html-IsBounded_example =
    bounded_html-IsBounded (text "known" ∷ []) 1
      (post (text "known") ∷ post (text "a") ∷ post (text "b") ∷ []) [] [] (omega arith) tt

abbrev text_codec : Codec Text
text_codec = list_codec code_codec

abbrev Parts : Type 0
Parts = Text × (List Text × (Text × (Text × (List Text × List Text))))

abbrev parts_codec : Codec Parts
parts_codec = pair_codec text_codec (
    pair_codec (list_codec text_codec) (
      pair_codec text_codec
        (pair_codec text_codec (pair_codec (list_codec text_codec) (list_codec text_codec)))))

abbrev as_list : Option Text → List Text
as_list none = []
as_list (some t) = t ∷ []

abbrev as_option : List Text → Option Text
as_option [] = none
as_option (t ∷ ts) = some t

abbrev with_parts : Text → Option (List Text) → Result Action → Text
with_parts target (some completed) (ok a) =
    parts_codec.put (target, (completed, (a.kind, (a.key, (as_list a.selector, as_list a.text)))))
      []
with_parts target _ _ = []

-- The parts of a document, as a text
abbrev dump : Json → Text
dump
      (object
        (field _ _ (field _ (string target) (field _ completed (field _ (object pending) _))))) =
    with_parts target (as_text_list completed) (from_payload (to_dict pending))
dump _ = []

abbrev load_of : Option (Parts × Text) → Option Json
load_of none = none
load_of (some ((target, (completed, (kind, (key, (selector, label))))), rest)) = some (
    document target completed
      (record { kind = kind; key = key; selector = as_option selector; text = as_option label }))

abbrev load : Text → Option Json
load t = load_of (parts_codec.get t)

as_option-as_list : (o : Option Text) → as_option (as_list o) ≡ o
as_option-as_list none = refl
as_option-as_list (some t) = refl

abbrev parts_of : Text → List Text → Action → Parts
parts_of target completed a =
    (target, (completed, (a.kind, (a.key, (as_list a.selector, as_list a.text)))))

dump-document :
    (target : Text) (completed : List Text) (pending : Action)
    → dump (document target completed pending)
      ≡ parts_codec.put (parts_of target completed pending) []
dump-document target completed pending =
    rw
      (
        as_text_list-text_list completed,
        to_dict-from_dict (payload pending),
        from_payload-payload pending,
      )
      refl

load-dump :
    (target : Text) (completed : List Text) (pending : Action)
    → load (dump (document target completed pending)) ≡ some (document target completed pending)
load-dump target completed pending =
    ap load (dump-document target completed pending)
    ∙ ap load_of (parts_codec.get-put (parts_of target completed pending) [])
    ∙ rw (as_option-as_list pending.selector, as_option-as_list pending.text) refl

abbrev shift : Text → Text
shift = map (λ c. c + 100)

abbrev shift_back : Text → Text
shift_back s = map (λ c. c - 100) (filter (leb 100) s)

no_small : (d : ℕ) (s : Text) → d < 100 → contains (shift s) d ≡ false
no_small d [] h = refl
no_small d (c ∷ s) h = ground (arith, h, no_small d s)

only_equals : (n : ℕ) → shift_back (equals n) ≡ []
unfolding equals
only_equals zero = refl
only_equals (suc n) = ground (arith, only_equals n)

shift_back-shift : (s : Text) (n : ℕ) → shift_back (shift s ++ equals n) ≡ s
shift_back-shift [] n = only_equals n
shift_back-shift (c ∷ s) n = ground (arith, shift_back-shift s n)

abbrev library : Library
library = record {
  dumps = dump;
  loads = load;
  loads-dumps = load-dump;
  digits = shift;
  decode = λ s. some (shift_back s);
  decode-digits = λ raw. ap some (shift_back-shift raw (missing (length (shift raw))));
  no_equals = λ raw. no_small b'=' raw (omega arith);
  no_dot = λ raw. no_small b'.' raw (omega arith);
  sha256 = λ s. s;
}

abbrev scroll : Action
scroll = record { kind = text "scroll"; key = text "scroll:2"; selector = none; text = none }

abbrev done : List Text
done = text "scroll:1" ∷ []

decode_checkpoint-encode_checkpoint_example :
    decode_checkpoint library (text "ab") (encode_checkpoint library (text "ab") done scroll)
    ≡ ok (done, scroll)
decode_checkpoint-encode_checkpoint_example =
    decode_checkpoint-encode_checkpoint library (text "ab") done scroll

decode_checkpoint-other_example :
    decode_checkpoint library (text "cd") (encode_checkpoint library (text "ab") done scroll)
    ≡ err differs
decode_checkpoint-other_example =
    decode_checkpoint-other library (text "cd") (text "ab") done scroll (λ p. ground (arith, p))

-- A driver whose context cannot be closed
abbrev driver : Driver ℕ
driver = record {
  start = pure tt;
  launch_persistent_context = pure tt;
  launch = pure tt;
  new_context = pure tt;
  close_context = raise playwright_error;
  close_browser = pure tt;
  stop = pure tt;
}

abbrev unopened : Adapter ℕ
unopened = record { closed = true; playwright = false; browser = false; context = false; world = 0 }

capture_pages-IsClosed_example :
    IsClosed driver
      (capture_pages driver (text "https://g") false (raise {A = ℕ} runtime_error) unopened).1
unfolding text_eq
capture_pages-IsClosed_example =
    capture_pages-IsClosed driver (λ w. refl) (text "https://g") false (raise runtime_error)
      unopened refl refl
