-- ===== src/Session/Health/Ready.antt =====
-- When a session counts as ready.
use fb_scraper.Prelude.{
  ℕ, ◌≡◌, ◌≤◌, ◌<◌, ◌↔◌, sym, subst, Bool, true, false, Bool-cases, inl, inr, Option, none, some,
  List, [], ◌∷◌, ◌++◌, Text, text, arith, refl, ap, ◌∙◌, nat_eq, has_part, starts_with,
}
use fb_scraper.Platform.{Platform}
use fb_scraper.Session.Health.{
  ready, ProbeObservation, classify_observation, classify_with, is_marked, has_marker,
  challenge_markers, login_markers, restriction_markers,
}

-- The first text stands somewhere in the second one.
abbrev pub Occurs : Text → Text → Type 0
Occurs part whole = (before : Text) × (after : Text) × (whole ≡ before ++ (part ++ after))

starts_inv : (s p : Text) → starts_with s p ≡ true → (after : Text) × (s ≡ p ++ after)
unfolding starts_with
starts_inv s [] h = (s, refl)
starts_inv [] (c ∷ p) h = absurd cc
starts_inv (b ∷ s) (c ∷ p) h =
    let (after, e) = starts_inv s p (ground (arith, h)) in
    let same : b ≡ c = ground (arith, h) in (after, ground (arith, e, same))

starts_append : (p after : Text) → starts_with (p ++ after) p ≡ true
unfolding starts_with
starts_append [] [] = refl
starts_append [] (c ∷ after) = refl
starts_append (c ∷ p) after = ground (arith, starts_append p after)

part_Occurs : (part whole : Text) → has_part part whole ≡ true → Occurs part whole
unfolding has_part
part_Occurs part [] h = let (after, e) = starts_inv [] part h in ([], after, e)
part_Occurs part (c ∷ s) h = elim (Bool-cases (starts_with (c ∷ s) part)) [
  | inl t ↦ let (after, e) = starts_inv (c ∷ s) part t in ([], after, e)
  | inr f ↦
      let (before, after, e) = part_Occurs part s (ground (arith, h, f)) in
      (c ∷ before, after, ap (λ r. c ∷ r) e)
]

append_part : (part before after : Text) → has_part part (before ++ (part ++ after)) ≡ true
unfolding has_part
append_part [] [] [] = refl
append_part [] [] (c ∷ after) = refl
append_part (b ∷ part) [] after = ground (arith, starts_append (b ∷ part) after)
append_part part (c ∷ before) after = ground (arith, append_part part before after)

Occurs-part : (part whole : Text) → Occurs part whole → has_part part whole ≡ true
Occurs-part part whole (before, after, e) = ap (has_part part) e ∙ append_part part before after

-- None of the texts stands in the other one.
abbrev pub Absent : List Text → Text → Type 0
Absent [] whole = Unit {0}
Absent (part ∷ parts) whole = (Occurs part whole → ⊥) × Absent parts whole

part_out : (part whole : Text) → has_part part whole ≡ false → Occurs part whole → ⊥
part_out part whole h o = absurd (true_ne (sym (Occurs-part part whole o) ∙ h))
  where
    true_ne : ◌≡◌ {A = Bool} true false → ⊥
    true_ne p = cc

out_part : (part whole : Text) → (Occurs part whole → ⊥) → has_part part whole ≡ false
out_part part whole h = elim (Bool-cases (has_part part whole)) [
  | inl t ↦ absurd (h (part_Occurs part whole t))
  | inr f ↦ f
]

has_marker-Absent :
    (markers : List Text) (whole : Text) → (has_marker markers whole ≡ false) ↔ Absent markers whole
unfolding has_marker
has_marker-Absent [] whole = ((λ h. tt), λ u. refl)
has_marker-Absent (part ∷ parts) whole =
    let (there, back) = has_marker-Absent parts whole in
    (
      (λ h. (part_out part whole (ground (arith, h)), there (ground (arith, h)))),
      λ (o, rest). ground (arith, out_part part whole o, back rest),
    )

is_marked-Absent :
    (markers : List Text) (route page_text : Text)
    → (is_marked markers route page_text ≡ false)
      ↔ (Absent markers route × Absent markers page_text)
unfolding is_marked
is_marked-Absent [] route page_text = ((λ h. (tt, tt)), λ u. refl)
is_marked-Absent (part ∷ parts) route page_text =
    let (there, back) = is_marked-Absent parts route page_text in
    (
      (λ h.
          let (r, t) = there (ground (arith, h)) in
          (
            (part_out part route (ground (arith, h)), r),
            (part_out part page_text (ground (arith, h)), t),
          )),
      λ ((o, r), (u, t)).
          ground (arith, out_part part route o, out_part part page_text u, back (r, t)),
    )

-- A response in the range of success, whose route and text have no sign of a challenge or a login,
-- and whose text has none of a restriction
pub record IsReached (status : ℕ) (route page_text : Text) : Type 0 where
  pub lowest : 200 ≤ status
  pub highest : status < 400
  pub route_clear :
      Absent
        (text "checkpoint"
          ∷ text "security check"
          ∷ text "/login"
          ∷ text "login required"
          ∷ text "session expired"
          ∷ text "sign in"
          ∷ [])
        route
  pub text_clear :
      Absent
        (text "checkpoint"
          ∷ text "security check"
          ∷ text "/login"
          ∷ text "login required"
          ∷ text "session expired"
          ∷ text "sign in"
          ∷ text "access restricted"
          ∷ text "temporarily blocked"
          ∷ text "permission denied"
          ∷ [])
        page_text

module _ (status : ℕ) (route page_text : Text) where
  ready_status :
      (classify_with (some status) route page_text).health ≡ ready
      → IsReached status route page_text
  ready_status h =
      let ((c, (d, u)), (e, (f, v))) =
        (is_marked-Absent challenge_markers route page_text).0 (ground (arith, h)) in
      let (login, (g, (i, (j, (k, w))))) =
        (is_marked-Absent login_markers route page_text).0 (ground (arith, h)) in
      let restriction = (has_marker-Absent restriction_markers page_text).0 (ground (arith, h)) in
      record {
        lowest = ground (arith, h);
        highest = ground (arith, h);
        route_clear = (c, (d, login));
        text_clear = (e, (f, (g, (i, (j, (k, restriction))))));
      }

  status_ready :
      IsReached status route page_text
      → (classify_with (some status) route page_text).health ≡ ready
  status_ready x =
      let (c, (d, login)) = x.route_clear in
      let (e, (f, (g, (i, (j, (k, restriction)))))) = x.text_clear in
      ground (
        arith,
        x.lowest,
        x.highest,
        (is_marked-Absent challenge_markers route page_text).1 ((c, (d, tt)), (e, (f, tt))),
        (is_marked-Absent login_markers route page_text).1 (login, (g, (i, (j, (k, tt))))),
        (has_marker-Absent restriction_markers page_text).1 restriction,
      )

with_status :
    (o : Option ℕ) (route page_text : Text)
    → ((classify_with o route page_text).health ≡ ready)
      ↔ ((status : ℕ) × (o ≡ some status) × IsReached status route page_text)
with_status none route page_text =
    ((λ h. absurd (ground (arith, h))), λ (status, e, x). absurd (ground (arith, e)))
with_status (some status) route page_text = (
  (λ h. (status, refl, ready_status status route page_text h)),
  λ (other, e, x).
      let same : status ≡ other = ground (arith, e) in
      status_ready status route page_text (subst (λ n. IsReached n route page_text) (sym same) x),
)

-- A session is ready exactly when the navigation had no error and a status from 200 to 399, when
-- neither the case-folded route nor the case-folded text has one of the six texts of a challenge or
-- a login in it, and when that text has none of the three texts of a restriction in it.
pub classify_observation_ready :
    (platform : Platform) (observation : ProbeObservation)
    → ((classify_observation platform observation).health ≡ ready) ↔ (
        (observation.navigation_error ≡ false)
        × (status : ℕ) × (observation.status_code ≡ some status)
        × IsReached status
            (platform.casefold observation.route)
            (platform.casefold observation.page_text))
unfolding classify_observation
classify_observation_ready platform observation =
    let (there, back) =
      with_status observation.status_code (platform.casefold observation.route)
        (platform.casefold observation.page_text) in
    elim (Bool-cases observation.navigation_error) [
      | inl t ↦
          ((λ h. absurd (ground (arith, t, h))), λ (f, status, e, x). absurd (ground (arith, t, f)))
      | inr f ↦ (
        (λ h. let (status, e, x) = there (rw f at h) in (f, status, e, x)),
        λ (g, status, e, x). rw f (back (status, e, x)),
      )
    ]
