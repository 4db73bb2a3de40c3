-- ===== src/Live/Bundle/Named.antt =====
-- qa/live_behavior_check.py, `artifact_paths` and `require_artifact`: which files a bundle's artifacts are.
use exasphere.Base.{
  ℕ, suc, ◌≡◌, refl, sym, ap, subst, ◌∙◌, Bool, true, false, ◌||◌, List, [], ◌∷◌, ◌++◌, String, ok,
  >>-eq-ok, >>=-eq-ok, ok_injective, ◌⊎◌, inl, inr, ==_iff, ◌==◌, and_split, Bool-cases,
  live_behavior_error, if◌then◌else◌,
}
use exasphere.Text.{codes}
use exasphere.Json.{JsonValue, str, arr, Items, nil, cons, JsonObject, get}
use exasphere.World.{World, FilePath, path_of, path_text}
use exasphere.Checks.Laws.{text_or-eq-ok}
use exasphere.Checks.{text_or}
use exasphere.Live.Bundle.Counters.{ensure}
use exasphere.Live.Bundle.{
  list_or, require_list, artifact_path, artifact_items, artifact_paths, ends_here, is_suffix,
  require_artifact, Artifacts, bundle_artifacts,
}

-- A value stands among the items of a JSON list.
abbrev pub ItemIn : JsonValue → Items → Type 0
ItemIn v nil = ⊥
ItemIn v (cons w vs) = (v ≡ w) ⊎ ItemIn v vs

abbrev PathIn : FilePath → List FilePath → Type 0
PathIn p [] = ⊥
PathIn p (q ∷ ps) = (p ≡ q) ⊎ PathIn p ps

-- The path is of a text in the summary's list of artifacts, and ends in the suffix.
pub record Named (summary : JsonObject) (suffix : String) (path : FilePath) : Type 0 where
  pub items : Items
  pub raw : String
  pub before : List ℕ
  pub list_stands : get summary "artifact_paths" ≡ arr items
  pub is_listed : ItemIn (str raw) items
  pub is_its_path : path ≡ path_of raw
  pub ends : codes (path_text path) ≡ before ++ codes suffix

ends_here-eq : (s t : List ℕ) → ends_here s t ≡ true → t ≡ s
unfolding ends_here
ends_here-eq [] [] h = refl
ends_here-eq [] (d ∷ t) h = cc
ends_here-eq (c ∷ s) [] h = cc
ends_here-eq (c ∷ s) (d ∷ t) h =
    let (e, rest) = and_split (c == d) (ends_here s t) h in
    cc ((==_iff c d).0 e, ends_here-eq s t rest)

either : (a b : Bool) → (a || b) ≡ true → (a ≡ true) ⊎ (b ≡ true)
either true b h = inl refl
either false b h = inr h

is_suffix-split :
    (suffix s : List ℕ) → is_suffix suffix s ≡ true → (before : List ℕ) × (s ≡ before ++ suffix)
unfolding is_suffix
is_suffix-split suffix [] h = ([], ends_here-eq suffix [] h)
is_suffix-split suffix (c ∷ s) h = elim (either (ends_here suffix (c ∷ s)) (is_suffix suffix s) h) [
  | inl here ↦ ([], ends_here-eq suffix (c ∷ s) here)
  | inr later ↦ let (before, e) = is_suffix-split suffix s later in (c ∷ before, ap (λ t. c ∷ t) e)
]

-- A path that is chosen stands in the list and ends in the suffix.
require_artifact-found :
    (paths : List FilePath) (suffix : String) {path : FilePath}
    → require_artifact paths suffix ≡ ok path
    → PathIn path paths × (is_suffix (codes suffix) (codes (path_text path)) ≡ true)
unfolding require_artifact
require_artifact-found [] suffix h = cc
require_artifact-found (q ∷ paths) suffix {path} h =
    elim (Bool-cases (is_suffix (codes suffix) (codes (path_text q)))) [
      | inl e ↦
          let same : q ≡ path =
            ok_injective
              (subst (λ b. (if b then ok q else require_artifact paths suffix) ≡ ok path) e h) in
          (
            inl (sym same),
            subst (λ p. is_suffix (codes suffix) (codes (path_text p)) ≡ true) same e,
          )
      | inr e ↦
          let (later, ends) =
            require_artifact-found paths suffix
              (subst (λ b. (if b then ok q else require_artifact paths suffix) ≡ ok path) e h) in
          (inr later, ends)
    ]

artifact_path-text :
    (w : World) (index : ℕ) (v : JsonValue) {path : FilePath}
    → artifact_path w index v ≡ ok path
    → (raw : String) × (v ≡ str raw) × (path ≡ path_of raw)
unfolding artifact_path
artifact_path-text w index v h =
    let (raw, raw_ok, h1) = >>=-eq-ok (text_or live_behavior_error v _) _ h in
    let (_, same) = >>-eq-ok (ensure _ _) _ h1 in
    (raw, text_or-eq-ok live_behavior_error v _ raw_ok, sym (ok_injective same))

-- Every path that is read is of a text of the list.
artifact_items-listed :
    (w : World) (index : ℕ) (vs : Items) {paths : List FilePath} (path : FilePath)
    → artifact_items w index vs ≡ ok paths
    → PathIn path paths
    → (raw : String) × ItemIn (str raw) vs × (path ≡ path_of raw)
unfolding artifact_items
artifact_items-listed w index nil path h here =
    absurd (subst (λ ps. PathIn path ps) (sym (ok_injective h)) here)
artifact_items-listed w index (cons v vs) path h here =
    let (first, first_ok, h1) = >>=-eq-ok (artifact_path w index v) _ h in
    let (rest, rest_ok, h2) = >>=-eq-ok (artifact_items w (suc index) vs) _ h1 in
    elim (subst (λ ps. PathIn path ps) (sym (ok_injective h2)) here) [
      | inl e ↦
          let (raw, is_text, is_path) = artifact_path-text w index v first_ok in
          (raw, inl (sym is_text), e ∙ is_path)
      | inr later ↦
          let (raw, listed, is_path) = artifact_items-listed w (suc index) vs path rest_ok later in
          (raw, inr listed, is_path)
    ]

require_list-eq-ok :
    (data_ : JsonObject) (name context : String) {vs : Items}
    → require_list data_ name context ≡ ok vs
    → get data_ name ≡ arr vs
unfolding require_list
require_list-eq-ok data_ name context h = of_value (get data_ name) _ h
  where
    of_value : (v : JsonValue) (m : String) {vs : Items} → list_or v m ≡ ok vs → v ≡ arr vs
    of_value (arr (cons v vs)) m h = ap arr (ok_injective h)
    of_value _ m h = cc

require_artifact-Named :
    (w : World) (summary : JsonObject) (paths : List FilePath) (suffix : String) {path : FilePath}
    → artifact_paths w summary ≡ ok paths
    → require_artifact paths suffix ≡ ok path
    → Named summary suffix path
unfolding artifact_paths
require_artifact-Named w summary paths suffix {path} read chosen =
    let (items, items_ok, h1) = >>=-eq-ok (require_list summary "artifact_paths" "bundle") _ read in
    let (here, suffix_ok) = require_artifact-found paths suffix chosen in
    let (raw, listed, is_path) = artifact_items-listed w 0 items path h1 here in
    let (before, ends) = is_suffix-split (codes suffix) (codes (path_text path)) suffix_ok in
    record {
      items = items;
      raw = raw;
      before = before;
      list_stands = require_list-eq-ok summary _ _ items_ok;
      is_listed = listed;
      is_its_path = is_path;
      ends = ends;
    }

-- The five artifacts of a bundle, by the ends of their paths.
pub record ArtifactsNamed (summary : JsonObject) (a : Artifacts) : Type 0 where
  pub partial : Named summary "partial-attach-evidence.json" a.partial
  pub observe : Named summary "observe-partial/summary.json" a.observe
  pub samples : Named summary "runtime-samples.jsonl" a.samples
  pub daemon_events : Named summary "daemon-runtime-events.jsonl" a.daemon_events
  pub ledger : Named summary "audit-ledger.jsonl" a.ledger

pub bundle_artifacts-ArtifactsNamed :
    (w : World) (summary : JsonObject) (paths : List FilePath) {a : Artifacts}
    → artifact_paths w summary ≡ ok paths
    → bundle_artifacts paths ≡ ok a
    → ArtifactsNamed summary a
unfolding bundle_artifacts
bundle_artifacts-ArtifactsNamed w summary paths read h =
    let (partial, partial_ok, h1) = >>=-eq-ok (require_artifact paths _) _ h in
    let (observe, observe_ok, h2) = >>=-eq-ok (require_artifact paths _) _ h1 in
    let (samples, samples_ok, h3) = >>=-eq-ok (require_artifact paths _) _ h2 in
    let (events, events_ok, h4) = >>=-eq-ok (require_artifact paths _) _ h3 in
    let (ledger, ledger_ok, h5) = >>=-eq-ok (require_artifact paths _) _ h4 in
    subst (λ a. ArtifactsNamed summary a) (ok_injective h5)
      (record {
        partial = require_artifact-Named w summary paths _ read partial_ok;
        observe = require_artifact-Named w summary paths _ read observe_ok;
        samples = require_artifact-Named w summary paths _ read samples_ok;
        daemon_events = require_artifact-Named w summary paths _ read events_ok;
        ledger = require_artifact-Named w summary paths _ read ledger_ok;
      })
