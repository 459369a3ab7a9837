-- ===== src/Workflows/LiveCapture/Durable.antt =====
-- What no step of a live capture undoes: the metadata of the captures, their files, the records'
-- progress in time and the history of the counters.
use fb_scraper.Prelude.{◌≡◌, subst, sym, ap, some, List, Text, text_eq, IsPrefix}
use fb_scraper.Prelude.Dict.{Dict, lookup}
use fb_scraper.Exec.{Exec}
use fb_scraper.Exec.Fixed.{Fixes}
use fb_scraper.Exec.Steps.{IsPreorder, Steps}
use fb_scraper.Storage.Tables.{
  job_state_eq, CaptureRow, GroupRow, PostRow, CommentRow, CounterRow, Database,
}
use fb_scraper.Storage.Captures.Immutable.{KeepsCaptures, KeepsCaptures-preorder}
use fb_scraper.Storage.Canonical.Puts.{LaterGroup, LaterPost, LaterComment}
use fb_scraper.Storage.Canonical.Forward.{Later, Forward, Forward-preorder}

pub record Durable (s t : Database) : Type 0 where
  pub captures : KeepsCaptures s t
  pub forward : Forward s t

pub Durable-preorder : IsPreorder Durable
Durable-preorder = record {
  rfl = λ s. record { captures = KeepsCaptures-preorder.rfl s; forward = Forward-preorder.rfl s };
  trans = λ s t u f g. record {
    captures = KeepsCaptures-preorder.trans s t u f.captures g.captures;
    forward = Forward-preorder.trans s t u f.forward g.forward;
  };
}

-- The tables of the evidence
abbrev pub captures_of : Database → Dict Text CaptureRow
captures_of db = db.raw_captures

abbrev pub Records : Type 0
Records = Dict Text GroupRow × (Dict Text PostRow × (Dict Text CommentRow × List CounterRow))

abbrev pub records_of : Database → Records
records_of db = (db.groups, (db.posts, (db.comments, db.counters)))

abbrev pub evidence_of : Database → Dict Text CaptureRow × Records
evidence_of db = (captures_of db, records_of db)

pub same_captures : (s t : Database) → captures_of t ≡ captures_of s → KeepsCaptures s t
same_captures s t p = record {
  kept = λ c row h. subst (λ (d : Dict Text CaptureRow). lookup c d ≡ some row) (sym p) h;
}

pub same_records : (s t : Database) → records_of t ≡ records_of s → Forward s t
same_records s t p = record {
  groups =
      subst (λ d. Later LaterGroup s.groups d) (sym (ap (λ (x : Records). x.0) p))
        (Forward-preorder.rfl s).groups;
  posts =
      subst (λ d. Later LaterPost s.posts d) (sym (ap (λ (x : Records). x.1.0) p))
        (Forward-preorder.rfl s).posts;
  comments =
      subst (λ d. Later LaterComment s.comments d) (sym (ap (λ (x : Records). x.1.1.0) p))
        (Forward-preorder.rfl s).comments;
  counters =
      subst (λ d. IsPrefix s.counters d) (sym (ap (λ (x : Records). x.1.1.1) p))
        (Forward-preorder.rfl s).counters;
}

same_evidence : (s t : Database) → Fixes evidence_of s t → Durable s t
same_evidence s t p = record {
  captures = same_captures s t (ap (λ (x : Dict Text CaptureRow × Records). x.0) p.same);
  forward = same_records s t (ap (λ (x : Dict Text CaptureRow × Records). x.1) p.same);
}

-- An action that does not touch the evidence
pub untouched : {A : Type 0} (m : Exec Database A) → Steps (Fixes evidence_of) m → Steps Durable m
untouched m h = record { at = λ s. same_evidence s (m s).1 (h.at s) }
