-- ===== src/Store/Memory/Latest.antt =====
-- internal/store/memory/store.go: the version that an insertion chooses is the latest.
use Prim.Native.Char.{code}
use Prim.Native.String.{◌++◌}
use text.Mathlib.TextLemmas.{nil-append, cons-append, append_assoc}
use lowcode_bpmn.Prelude.{
  ℕ, suc, ◌+◌, ltb, leb, String, string_eq, nat_eq, Bool, true, ◌&&◌, ◌||◌, not, Option, none, some,
  [], ◌∷◌, ◌≡◌, refl, ap, ◌∙◌, subst, arith, Map, insert, ==_refl, and-eq-true,
}
use lowcode_bpmn.Text.{strip_prefix}
use lowcode_bpmn.Runtime.{DeployedProcess, Time}
use lowcode_bpmn.Store.Memory.{
  Store, has_prefix, process_prefix, versioned_process_key, itoa, latest_version, latest_process,
  newer, insert_process_version, get_process,
}

strip_prefix-append : (p s : String) → strip_prefix p (p ++ s) ≡ some s
unfolding strip_prefix
strip_prefix-append String.[] s = ap some (nil-append s)
strip_prefix-append (String.◌∷◌ c p) s =
    ap (strip_prefix (String.◌∷◌ c p)) (cons-append c p s)
    ∙ rw (strip_prefix, ==_refl (code c)) (strip_prefix-append p s)

has_prefix-append : (p s : String) → has_prefix p (p ++ s) ≡ true
unfolding has_prefix
has_prefix-append p s = rw (has_prefix, strip_prefix-append p s) refl

-- The text of a version starts with the prefix of its process.
has_prefix-versioned_process_key :
    (tenant key : String) (version : ℕ)
    → has_prefix (process_prefix tenant key) (versioned_process_key tenant key version) ≡ true
unfolding process_prefix versioned_process_key
has_prefix-versioned_process_key tenant key version =
    subst (λ k. has_prefix (tenant ++ ("/" ++ (key ++ "/v"))) k ≡ true)
      (append_assoc tenant ("/" ++ (key ++ "/v")) (itoa version)
        ∙ ap (λ t. tenant ++ t)
            (append_assoc "/" (key ++ "/v") (itoa version)
              ∙ ap (λ t. "/" ++ t) (append_assoc key "/v" (itoa version))))
      (has_prefix-append (tenant ++ ("/" ++ (key ++ "/v"))) (itoa version))

module _ (prefix : String) where
  -- Every version with the prefix is less than `v`.
  below : ℕ → Map String DeployedProcess → Bool
  unfolding has_prefix
  below v [] = true
  below v ((k, p) ∷ m) = (not (has_prefix prefix k) || ltb p.version v) && below v m

  latest_version-le :
      (m : Map String DeployedProcess) (max : ℕ) → leb max (latest_version prefix m max) ≡ true
  unfolding latest_version
  latest_version-le [] max = ground arith
  latest_version-le ((k, p) ∷ m) max =
      ground (arith, latest_version-le m max, latest_version-le m p.version)

  below-latest_version :
      (m : Map String DeployedProcess) (max : ℕ)
      → below (suc (latest_version prefix m max)) m ≡ true
  unfolding below latest_version
  below-latest_version [] max = refl
  below-latest_version ((k, p) ∷ m) max = ground (
    arith,
    below-latest_version m max,
    below-latest_version m p.version,
    latest_version-le m p.version,
    latest_version-le m max,
  )

  abbrev older : ℕ → Option DeployedProcess → Bool
  older v none = true
  older v (some q) = ltb q.version v

  latest_process-stays :
      (p : DeployedProcess) (m : Map String DeployedProcess)
      → below p.version m ≡ true
      → latest_process prefix m (some p) ≡ some p
  unfolding below latest_process newer
  latest_process-stays p [] h = refl
  latest_process-stays p ((k, q) ∷ m) h = ground (
    arith,
    and-eq-true (not (has_prefix prefix k) || ltb q.version p.version) (below p.version m) h,
    latest_process-stays p m,
  )

  latest_process-insert :
      (k : String) (p : DeployedProcess) (m : Map String DeployedProcess)
      (latest : Option DeployedProcess)
      → has_prefix prefix k ≡ true
      → below p.version m ≡ true
      → older p.version latest ≡ true
      → latest_process prefix (insert k p m) latest ≡ some p
  unfolding below latest_process newer insert
  latest_process-insert k p [] latest starts h old = ground arith
  latest_process-insert k p ((j, q) ∷ m) latest starts h old = ground (
    arith,
    and-eq-true (not (has_prefix prefix j) || ltb q.version p.version) (below p.version m) h,
    latest_process-stays p m,
    latest_process-insert k p m latest starts,
    latest_process-insert k p m (some q) starts,
  )

-- A version that the store has numbered is the one it answers with next, one above all that it held.
pub insert-then_get :
    (t : Time) (p : DeployedProcess) (st : Store)
    → get_process p.tenant_id p.key (insert_process_version t (record p { version = 0 }) st).1
      ≡ some (insert_process_version t (record p { version = 0 }) st).0
unfolding insert_process_version get_process
insert-then_get t p st =
    let prefix = process_prefix p.tenant_id p.key in
    let version = latest_version prefix st.processes 0 + 1 in
    latest_process-insert prefix (versioned_process_key p.tenant_id p.key version)
      (insert_process_version t (record p { version = 0 }) st).0 st.processes none
      (has_prefix-versioned_process_key p.tenant_id p.key version)
      (subst (λ v. below prefix v st.processes ≡ true) (omega arith)
        (below-latest_version prefix st.processes 0))
      refl
