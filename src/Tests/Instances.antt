-- ===== src/Tests/Instances.antt =====
-- Concrete forms of the interfaces, for the examples: a record as a list of numbers with lengths
-- in front, and a file that is stored as it is.
use fb_scraper.Prelude.{
  ◌++◌, ℕ, zero, suc, ◌≡◌, refl, true, false, Option, none, some, List, [], ◌∷◌, Text, text, length,
  nat_eq,
}
use native.Mathlib.Decide.{ℕ_discrete}
use fb_scraper.Prelude.Dict.{Dict}
use fb_scraper.Storage.Captures.{is_sha256}
use fb_scraper.Contracts.{GroupRecord, PostRecord, CommentRecord, RecordJson}
use fb_scraper.Platform.{Platform}

pub record Codec (A : Type 0) : Type 0 where
  pub put : A → Text → Text
  pub get : Text → Option (A × Text)
  pub get-put : (a : A) (rest : Text) → get (put a rest) ≡ some (a, rest)

next : {A B : Type 0} → Option (A × Text) → (A → Text → Option B) → Option B
next none f = none
next (some (a, rest)) f = f a rest

abbrev pub get_code : Text → Option (ℕ × Text)
get_code [] = none
get_code (n ∷ rest) = some (n, rest)

pub code_codec : Codec ℕ
code_codec = record { put = λ n rest. n ∷ rest; get = get_code; get-put = λ n rest. refl }

module _ {A B : Type 0} (a : Codec A) (b : Codec B) where
  pub pair_codec : Codec (A × B)
  unfolding next
  pair_codec = record {
    put = λ (x, y) rest. a.put x (b.put y rest);
    get = λ t. next (a.get t) (λ x u. next (b.get u) (λ y v. some ((x, y), v)));
    get-put = λ (x, y) rest. rw (a.get-put x (b.put y rest), b.get-put y rest) refl;
  }

module _ {A : Type 0} (a : Codec A) where
  puts : List A → Text → Text
  puts [] rest = rest
  puts (x ∷ xs) rest = a.put x (puts xs rest)

  get_n : ℕ → Text → Option (List A × Text)
  unfolding next
  get_n zero t = some ([], t)
  get_n (suc n) t = next (a.get t) (λ x u. next (get_n n u) (λ xs v. some (x ∷ xs, v)))

  get_n-puts : (xs : List A) (rest : Text) → get_n (length xs) (puts xs rest) ≡ some (xs, rest)
  unfolding get_n puts next
  get_n-puts [] rest = refl
  get_n-puts (x ∷ xs) rest = rw (a.get-put x (puts xs rest), get_n-puts xs rest) refl

  pub list_codec : Codec (List A)
  unfolding next
  list_codec = record {
    put = λ xs rest. length xs ∷ puts xs rest;
    get = λ t. next (get_code t) (λ n u. get_n n u);
    get-put = λ xs rest. get_n-puts xs rest;
  }

  put_option : Option A → Text → Text
  put_option none rest = 0 ∷ rest
  put_option (some x) rest = 1 ∷ a.put x rest

  get_option : Text → Option (Option A × Text)
  unfolding next
  get_option [] = none
  get_option (zero ∷ rest) = some (none, rest)
  get_option (suc n ∷ rest) = next (a.get rest) (λ x u. some (some x, u))

  get_option-put : (o : Option A) (rest : Text) → get_option (put_option o rest) ≡ some (o, rest)
  unfolding get_option put_option next
  get_option-put none rest = refl
  get_option-put (some x) rest = rw (a.get-put x rest) refl

  option_codec : Codec (Option A)
  option_codec = record { put = put_option; get = get_option; get-put = get_option-put }

text_codec : Codec Text
text_codec = list_codec code_codec

reactions_codec : Codec (Dict Text ℕ)
reactions_codec = list_codec (pair_codec text_codec code_codec)

abbrev pub GroupFields : Type 0
GroupFields = Text × (Text × (Option ℕ × (ℕ × (ℕ × (Text × (Text × (Text × Text)))))))

pub group_codec : Codec GroupFields
group_codec = pair_codec text_codec (
    pair_codec text_codec (
      pair_codec (option_codec code_codec) (
        pair_codec code_codec (
          pair_codec code_codec
            (pair_codec text_codec (pair_codec text_codec (pair_codec text_codec text_codec)))))))

abbrev pub PostFields : Type 0
PostFields =
    Text × (Text × (Text × (Option ℕ × (ℕ × (Dict Text ℕ × (ℕ × (ℕ × (Text × (Text × Text)))))))))

pub post_codec : Codec PostFields
post_codec = pair_codec text_codec (
    pair_codec text_codec (
      pair_codec text_codec (
        pair_codec (option_codec code_codec) (
          pair_codec code_codec (
            pair_codec reactions_codec (
              pair_codec code_codec (
                pair_codec code_codec
                  (pair_codec text_codec (pair_codec text_codec text_codec)))))))))

abbrev pub CommentFields : Type 0
CommentFields = Text × (Text × (Text × (ℕ × (Dict Text ℕ × (Text × (Text × Text))))))

pub comment_codec : Codec CommentFields
comment_codec = pair_codec text_codec (
    pair_codec text_codec (
      pair_codec text_codec (
        pair_codec code_codec
          (pair_codec reactions_codec (pair_codec text_codec (pair_codec text_codec text_codec))))))

group_fields : GroupRecord → GroupFields
group_fields r = (
  r.group_id,
  (
    r.canonical_url,
    (
      r.member_count,
      (
        r.observed_at,
        (r.collected_at, (r.raw_capture_id, (r.raw_sha256, (r.schema_version, r.details)))),
      ),
    ),
  ),
)

group_of : GroupFields × Text → GroupRecord
group_of ((i, (u, (m, (o, (c, (rc, (rs, (s, d)))))))), _) = record {
  group_id = i;
  canonical_url = u;
  member_count = m;
  observed_at = o;
  collected_at = c;
  raw_capture_id = rc;
  raw_sha256 = rs;
  schema_version = s;
  details = d;
}

post_fields : PostRecord → PostFields
post_fields r = (
  r.post_id,
  (
    r.group_id,
    (
      r.canonical_url,
      (
        r.published_at,
        (
          r.observed_at,
          (
            r.reactions,
            (r.comments_count, (r.shares_count, (r.raw_capture_id, (r.schema_version, r.details)))),
          ),
        ),
      ),
    ),
  ),
)

post_of : PostFields × Text → PostRecord
post_of ((i, (g, (u, (p, (o, (re, (c, (sh, (rc, (s, d)))))))))), _) = record {
  post_id = i;
  group_id = g;
  canonical_url = u;
  published_at = p;
  observed_at = o;
  reactions = re;
  comments_count = c;
  shares_count = sh;
  raw_capture_id = rc;
  schema_version = s;
  details = d;
}

comment_fields : CommentRecord → CommentFields
comment_fields r = (
  r.comment_id,
  (
    r.post_id,
    (r.group_id, (r.observed_at, (r.reactions, (r.raw_capture_id, (r.schema_version, r.details))))),
  ),
)

comment_of : CommentFields × Text → CommentRecord
comment_of ((i, (p, (g, (o, (re, (rc, (s, d))))))), _) = record {
  comment_id = i;
  post_id = p;
  group_id = g;
  observed_at = o;
  reactions = re;
  raw_capture_id = rc;
  schema_version = s;
  details = d;
}

abbrev pub to : {A B : Type 0} → (A → B) → Option A → Option B
to f none = none
to f (some a) = some (f a)

abbrev pub number_json : RecordJson
unfolding group_fields group_of post_fields post_of comment_fields comment_of
number_json = record {
  dump_group = λ r. group_codec.put (group_fields r) [];
  dump_post = λ r. post_codec.put (post_fields r) [];
  dump_comment = λ r. comment_codec.put (comment_fields r) [];
  read_group = λ t. to group_of (group_codec.get t);
  read_post = λ t. to post_of (post_codec.get t);
  read_comment = λ t. to comment_of (comment_codec.get t);
  read-dump_group = λ r. rw (group_codec.get-put (group_fields r) []) refl;
  read-dump_post = λ r. rw (post_codec.get-put (post_fields r) []) refl;
  read-dump_comment = λ r. rw (comment_codec.get-put (comment_fields r) []) refl;
}

-- 64 digits
abbrev pub digest : Text
digest = text "e3b0c44298fc1c149afbf4c8996fb92427ae41e4649b934ca495991b7852b855"

pub digest-hex : is_sha256 digest ≡ true
unfolding is_sha256 nat_eq ℕ_discrete
digest-hex = refl

abbrev pub plain_platform : Platform
plain_platform = record {
  sha256 = λ bytes. digest;
  sha256_hex = λ bytes. digest-hex;
  compress = λ bytes. 31 ∷ bytes;
  decompress = λ bytes. to (λ (n, rest). rest) (get_code bytes);
  is_zlib_error = λ bytes. false;
  decompress-compress = λ bytes. refl;
  encode = λ t. t;
  urlsplit = λ u. record { scheme = []; netloc = []; path = u };
  casefold = λ t. t;
  isalnum = λ t. true;
  str = λ n. n ∷ [];
  repr = λ t. t;
  isoformat = λ n. text "T" ++ (n ∷ []);
}
