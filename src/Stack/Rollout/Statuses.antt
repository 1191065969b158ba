-- ===== src/Stack/Rollout/Statuses.antt =====
-- The statuses that the rollout of crates/servarr-operator/src/media_stack_controller.rs collects, by
-- their names and by their readiness.
use servarr_operator.Prelude.{
  ℕ, ◌+◌, ◌≤◌, String, ◌≡◌, ◌↔◌, refl, ap, ◌∙◌, Bool, true, List, [], ◌∷◌, ◌++◌, map, arith, all,
  filter, filter-append, map-append, length,
}
use servarr_operator.Crds.Stack.Status.{StackAppStatus}
use servarr_operator.Stack.Rollout.{Member, waiting, bypass}
use servarr_operator.Stack.Rollout.Laws.{name_of}

abbrev pub is_ready_status : StackAppStatus → Bool
is_ready_status s = s.ready

abbrev pub status_name : StackAppStatus → String
status_name s = s.name

-- The names of the statuses that are ready.
abbrev pub ready_names : List StackAppStatus → List String
ready_names ss = map status_name (filter is_ready_status ss)

pub ready_names-append :
    (xs ys : List StackAppStatus) → ready_names (xs ++ ys) ≡ ready_names xs ++ ready_names ys
ready_names-append xs ys =
    ap (map status_name) (filter-append is_ready_status xs ys)
    ∙ map-append status_name (filter is_ready_status xs) (filter is_ready_status ys)

-- How many of the statuses are ready.
abbrev pub ready_of : List StackAppStatus → ℕ
ready_of ss = length (filter is_ready_status ss)

pub ready_of-append :
    (xs ys : List StackAppStatus) → ready_of (xs ++ ys) ≡ ready_of xs + ready_of ys
ready_of-append [] ys = omega arith
ready_of-append (x ∷ xs) ys = ground (arith, ready_of-append xs ys)

pub ready_of-waiting : (t : ℕ) (ms : List Member) → ready_of (map (waiting t) ms) ≡ 0
ready_of-waiting t [] = refl
ready_of-waiting t (m ∷ ms) = ready_of-waiting t ms

pub names-waiting :
    (t : ℕ) (ms : List Member) → map status_name (map (waiting t) ms) ≡ map name_of ms
names-waiting t [] = refl
names-waiting t (m ∷ ms) = ap (λ ns. m.child_name ∷ ns) (names-waiting t ms)

pub ready_names-waiting : (t : ℕ) (ms : List Member) → ready_names (map (waiting t) ms) ≡ []
ready_names-waiting t [] = refl
ready_names-waiting t (m ∷ ms) = ready_names-waiting t ms

ready-bypass : (s : StackAppStatus) → is_ready_status (bypass s) ≡ is_ready_status s
ready-bypass s = ground arith

pub ready_of-bypass : (ss : List StackAppStatus) → ready_of (map bypass ss) ≡ ready_of ss
ready_of-bypass [] = refl
ready_of-bypass (s ∷ ss) = ground (arith, ready-bypass s, ready_of-bypass ss)

name-bypass : (s : StackAppStatus) → status_name (bypass s) ≡ status_name s
name-bypass s = ground arith

pub names-bypass : (ss : List StackAppStatus) → map status_name (map bypass ss) ≡ map status_name ss
names-bypass [] = refl
names-bypass (s ∷ ss) = cc (name-bypass s, names-bypass ss)

pub ready_names-bypass : (ss : List StackAppStatus) → ready_names (map bypass ss) ≡ ready_names ss
ready_names-bypass [] = refl
ready_names-bypass (s ∷ ss) = ground (arith, ready-bypass s, name-bypass s, ready_names-bypass ss)

pub all-ready_iff :
    (ss : List StackAppStatus) → (ready_of ss ≡ length ss) ↔ (all is_ready_status ss ≡ true)
all-ready_iff ss = (ready_all ss, all_ready ss)
  where
    bounded : (ss : List StackAppStatus) → ready_of ss ≤ length ss
    bounded [] = omega arith
    bounded (s ∷ ss) = ground (arith, bounded ss)

    ready_all : (ss : List StackAppStatus) → ready_of ss ≡ length ss → all is_ready_status ss ≡ true
    ready_all [] h = refl
    ready_all (s ∷ ss) h = ground (arith, ready_all ss, bounded ss)

    all_ready : (ss : List StackAppStatus) → all is_ready_status ss ≡ true → ready_of ss ≡ length ss
    all_ready [] h = refl
    all_ready (s ∷ ss) h = ground (arith, all_ready ss)
