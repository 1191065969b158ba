-- ===== src/Stack/Rollout/Laws.antt =====
-- Which children the rollout of crates/servarr-operator/src/media_stack_controller.rs applies.
use mathlib.Core.List.{append-nil, append_assoc}
use servarr_operator.Prelude.{
  ℕ, suc, ◌≤◌, String, ◌≡◌, refl, ap, sym, ◌∙◌, Bool, true, false, not, ◌&&◌, ◌||◌, Option, some,
  List, [], ◌∷◌, ◌++◌, map, arith, all, contains, ltb, eqb, Option-cases, Bool-cases, inl, inr,
  Result, ok, err, ok-injective, >>=-eq-ok, if◌then◌else◌,
}
use servarr_operator.Stack.Kube.{KubeError}
use servarr_operator.Stack.Rollout.{
  Member, Tiers, Progress, start, timed_out, note_app, apply_apps, step_tier, roll, push_tier,
  group_onto,
}

abbrev pub name_of : Member → String
name_of m = m.child_name

-- The names of the children of these tiers, in the order of the rollout.
abbrev pub names : Tiers → List String
names [] = []
names ((t, ms) ∷ rest) = map name_of ms ++ names rest

-- The tiers ascend, from `n` on.
abbrev From : ℕ → Tiers → Type 0
From n [] = Unit
From n ((t, ms) ∷ rest) = (n ≤ t) × From (suc t) rest

push_tier-From :
    (m : Member) (n : ℕ) (tiers : Tiers)
    → n ≤ m.member_tier
    → From n tiers
    → From n (push_tier m tiers)
unfolding push_tier
push_tier-From m n [] low h = (low, tt)
push_tier-From m n ((t, ms) ∷ rest) low h = elim (Bool-cases (ltb m.member_tier t)) [
  | inl before ↦ simp before (low, (ground arith, h.1))
  | inr after ↦ elim (Bool-cases (eqb m.member_tier t)) [
    | inl same ↦ simp (after, same) h
    | inr later ↦ simp (after, later) (h.0, push_tier-From m (suc t) rest (ground arith) h.1)
  ]
]

group_onto-From : (tiers : Tiers) (ms : List Member) → From 0 tiers → From 0 (group_onto tiers ms)
unfolding group_onto
group_onto-From tiers [] h = h
group_onto-From tiers (m ∷ ms) h =
    group_onto-From (push_tier m tiers) ms (push_tier-From m 0 tiers (omega arith) h)

pub err_ne_ok :
    {e : KubeError} {p : Progress} → ◌≡◌ {A = Result KubeError Progress} (err e) (ok p) → ⊥
err_ne_ok h = cc

module _ (apply : String → Option KubeError) (is_ready : String → Bool)
    (parse_from_rfc3339 : String → Option ℕ) (clock : ℕ → ℕ) (blocked_since : Option String)
    (bypassed : List String) where
  -- A child that does not hold the rollout back: it is ready, or was bypassed before.
  abbrev pub is_passed : Member → Bool
  is_passed m = is_ready m.child_name || contains m.child_name bypassed

  abbrev rolls : Tiers → Progress → Result KubeError Progress
  rolls tiers p = roll apply is_ready parse_from_rfc3339 clock blocked_since bypassed tiers p

  abbrev steps : ℕ → List Member → Progress → Result KubeError Progress
  steps t ms p = step_tier apply is_ready parse_from_rfc3339 clock blocked_since bypassed t ms p

  abbrev is_late : ℕ → Bool
  is_late t = timed_out apply is_ready parse_from_rfc3339 clock blocked_since bypassed t

  apply_apps_lem :
      (t : ℕ) (ms : List Member) (p q : Progress)
      → apply_apps apply is_ready parse_from_rfc3339 clock blocked_since bypassed t ms p ≡ ok q
      → (q.applied ≡ p.applied ++ map name_of ms)
        × (q.all_previous_ready ≡ (p.all_previous_ready && all is_passed ms))
  unfolding apply_apps note_app
  apply_apps_lem t [] p q h =
      let e : q ≡ p = sym (ok-injective h) in
      (
        ap (λ (r : Progress). r.applied) e ∙ sym (append-nil p.applied),
        ap (λ (r : Progress). r.all_previous_ready) e ∙ ground arith,
      )
  apply_apps_lem t (m ∷ ms) p q h = elim (Option-cases (apply m.child_name)) [
    | inr (e, failed) ↦ absurd (err_ne_ok (rw (failed, apply_apps) at h))
    | inl applied ↦
        let (names_rest, rest) =
          apply_apps_lem t ms
            (note_app apply is_ready parse_from_rfc3339 clock blocked_since bypassed t m p) q
            (rw (applied, apply_apps) at h) in
        (
          names_rest ∙ append_assoc p.applied (m.child_name ∷ []) (map name_of ms),
          rest ∙ ground arith,
        )
  ]

  -- The tiers up to the first one with a child that holds the rollout back, that one included.
  abbrev pub open_tiers : Tiers → Tiers
  open_tiers [] = []
  open_tiers ((t, ms) ∷ rest) = (t, ms) ∷ (if all is_passed ms then open_tiers rest else [])

  -- A tier above 0 that is blocked and has not timed out applies nothing.
  held_step :
      (t : ℕ) (ms : List Member) (p q : Progress)
      → is_late t ≡ false
      → 1 ≤ t
      → p.all_previous_ready ≡ false
      → steps t ms p ≡ ok q
      → (q.applied ≡ p.applied) × (q.all_previous_ready ≡ false)
  unfolding step_tier
  held_step t ms p q on_time above blocked h =
      let guard : (ltb 0 t && not p.all_previous_ready) ≡ true = ground arith in
      let same = ok-injective (rw on_time at (rw guard at h)) in
      (
        sym (ap (λ (r : Progress). r.applied) same),
        sym (ap (λ (r : Progress). r.all_previous_ready) same) ∙ blocked,
      )

  held_lem :
      ((t : ℕ) → is_late t ≡ false)
      → (tiers : Tiers) (n : ℕ) (p q : Progress) → From (suc n) tiers
      → p.all_previous_ready ≡ false
      → rolls tiers p ≡ ok q
      → q.applied ≡ p.applied
  unfolding roll
  held_lem on_time [] n p q above blocked h =
      sym (ap (λ (r : Progress). r.applied) (ok-injective h))
  held_lem on_time ((t, ms) ∷ rest) n p q above blocked h =
      let (mid, first, later) = >>=-eq-ok (steps t ms p) (rolls rest) h in
      let (kept, still) = held_step t ms p mid (on_time t) (omega arith) blocked first in
      held_lem on_time rest t mid q above.1 still later ∙ kept

  -- A tier with nothing unready below it is applied.
  open_step :
      (t : ℕ) (ms : List Member) (p q : Progress)
      → p.all_previous_ready ≡ true
      → steps t ms p ≡ ok q
      → (q.applied ≡ p.applied ++ map name_of ms) × (q.all_previous_ready ≡ all is_passed ms)
  unfolding step_tier
  open_step t ms p q free h =
      let guard : (ltb 0 t && not p.all_previous_ready) ≡ false = ground arith in
      let (applied, passed) =
        apply_apps_lem t ms (record p { current_tier = some t }) q (rw guard at h) in
      (applied, passed ∙ ground (arith, free))

  gated_lem :
      ((t : ℕ) → is_late t ≡ false)
      → (tiers : Tiers) (n : ℕ) (p q : Progress) → From n tiers
      → p.all_previous_ready ≡ true
      → rolls tiers p ≡ ok q
      → q.applied ≡ p.applied ++ names (open_tiers tiers)
  unfolding roll
  gated_lem on_time [] n p q above free h =
      sym (ap (λ (r : Progress). r.applied) (ok-injective h)) ∙ sym (append-nil p.applied)
  gated_lem on_time ((t, ms) ∷ rest) n p q above free h =
      let (mid, first, later) = >>=-eq-ok (steps t ms p) (rolls rest) h in
      let (applied, passed) = open_step t ms p mid free first in
      elim (Bool-cases (all is_passed ms)) [
        | inl through ↦ rw through (
            gated_lem on_time rest (suc t) mid q above.1 (passed ∙ through) later
            ∙ ap (λ (xs : List String). xs ++ names (open_tiers rest)) applied
            ∙ append_assoc p.applied (map name_of ms) (names (open_tiers rest)))
        | inr stuck ↦ rw stuck (
            held_lem on_time rest t mid q above.1 (passed ∙ stuck) later
            ∙ applied
            ∙ ap (λ (xs : List String). p.applied ++ xs) (sym (append-nil (map name_of ms))))
      ]

  -- A rollout without a timeout that ends without an API error applies, tier by tier in ascending
  -- order, exactly the children of the tiers up to the first one with a child that is neither
  -- ready nor was bypassed before, that tier included.
  pub roll_gated :
      (ms : List Member) (q : Progress)
      → ((t : ℕ) → is_late t ≡ false)
      → rolls (group_onto [] ms) start ≡ ok q
      → q.applied ≡ names (open_tiers (group_onto [] ms))
  roll_gated ms q on_time h =
      gated_lem on_time (group_onto [] ms) 0 start q (group_onto-From [] ms tt) refl h

  late_step :
      (t : ℕ) (ms : List Member) (p q : Progress)
      → is_late t ≡ true
      → steps t ms p ≡ ok q
      → q.applied ≡ p.applied ++ map name_of ms
  unfolding step_tier
  late_step t ms p q late h = elim (Bool-cases (ltb 0 t && not p.all_previous_ready)) [
    | inl blocked ↦ (apply_apps_lem t ms _ q (rw late at (rw blocked at h))).0
    | inr free ↦ (apply_apps_lem t ms (record p { current_tier = some t }) q (rw free at h)).0
  ]

  late_lem :
      ((t : ℕ) → is_late t ≡ true)
      → (tiers : Tiers) (p q : Progress) → rolls tiers p ≡ ok q
      → q.applied ≡ p.applied ++ names tiers
  unfolding roll
  late_lem late [] p q h =
      sym (ap (λ (r : Progress). r.applied) (ok-injective h)) ∙ sym (append-nil p.applied)
  late_lem late ((t, ms) ∷ rest) p q h =
      let (mid, first, later) = >>=-eq-ok (steps t ms p) (rolls rest) h in
      late_lem late rest mid q later
      ∙ ap (λ (xs : List String). xs ++ names rest) (late_step t ms p mid (late t) first)
      ∙ append_assoc p.applied (map name_of ms) (names rest)

  -- If the timer of the previous reconcile has run out at each tier, a rollout that ends without an
  -- API error applies the children of all tiers, whatever the readiness of the tiers between: no
  -- tier gets a timeout of its own.
  pub roll_timed_out :
      (ms : List Member) (q : Progress)
      → ((t : ℕ) → is_late t ≡ true)
      → rolls (group_onto [] ms) start ≡ ok q
      → q.applied ≡ names (group_onto [] ms)
  roll_timed_out ms q late h = late_lem late (group_onto [] ms) start q h
