-- ===== src/Store/Memory/Listing/Covers.antt =====
-- internal/store/memory/store.go: the processes that `ListProcesses` answers with.
use Prim.Native.String.{◌++◌}
use lowcode_bpmn.Prelude.{
  String, string_eq, Bool, true, false, ◌&&◌, none, some, [], ◌∷◌, map, leb, if◌then◌else◌, Map,
  lookup, insert, lookup-insert, Memᴰ, Bool-cases, Option-cases, ◌⊎◌, and-eq-true, ◌==◌, ◌≡◌, refl,
  sym, ap, ◌∙◌, arith, inl, inr,
}
use lowcode_bpmn.Runtime.{DeployedProcess}
use lowcode_bpmn.Store.Memory.{Store, has_prefix, newer}
use lowcode_bpmn.Store.Memory.Listing.{latest_by_key, list_processes}
use lowcode_bpmn.Store.Memory.Snapshot.RoundTrip.{is_keyed, insert-is_keyed, lookup-key}

-- The listed process of the key, if any, is not older than `p`.
abbrev covered : DeployedProcess → Map String DeployedProcess → Bool
covered p m = elim (lookup p.key m) [ none ↦ false | some q ↦ leb p.version q.version ]

covered-insert :
    (p q : DeployedProcess) (m : Map String DeployedProcess)
    → newer (lookup q.key m) q ≡ true
    → covered p m ≡ true
    → covered p (insert q.key q m) ≡ true
unfolding newer
covered-insert p q m h c =
    ground (arith, lookup-insert p.key q.key q m, string_eq.same_iff q.key p.key)

covered-eq-true :
    (p : DeployedProcess) (m : Map String DeployedProcess)
    → covered p m ≡ true
    → (q : DeployedProcess) × (lookup p.key m ≡ some q) × (leb p.version q.version ≡ true)
covered-eq-true p m h = elim (Option-cases (lookup p.key m)) [
  | inl missing ↦ ground arith
  | inr (q, found) ↦ (q, found, ground arith)
]

latest_by_key-keeps :
    (prefix : String) (p : DeployedProcess) (m acc : Map String DeployedProcess)
    → covered p acc ≡ true
    → covered p (latest_by_key prefix m acc) ≡ true
unfolding latest_by_key
latest_by_key-keeps prefix p [] acc c = c
latest_by_key-keeps prefix p ((k, q) ∷ m) acc c =
    elim (Bool-cases (has_prefix prefix k && newer (lookup q.key acc) q)) [
      | inl taken ↦ rw taken (
          latest_by_key-keeps prefix p m (insert q.key q acc)
            (covered-insert p q acc (ground arith) c))
      | inr passed ↦ rw passed (latest_by_key-keeps prefix p m acc c)
    ]

-- The step at `p` itself.
covered-here :
    (p : DeployedProcess) (acc : Map String DeployedProcess)
    → covered p (if newer (lookup p.key acc) p then insert p.key p acc else acc) ≡ true
unfolding newer
covered-here p acc = ground (arith, lookup-insert p.key p.key p acc, string_eq.same_iff p.key p.key)

latest_by_key-covers :
    (prefix k : String) (p : DeployedProcess) (m acc : Map String DeployedProcess)
    → Memᴰ (k, p) m
    → has_prefix prefix k ≡ true
    → covered p (latest_by_key prefix m acc) ≡ true
unfolding latest_by_key
latest_by_key-covers prefix k p [] acc m starts = elim m [ ]
latest_by_key-covers prefix k p ((j, q) ∷ m) acc (Memᴰ.head same) starts =
    let same_process = ap (λ (e : String × DeployedProcess). e.1) same in
    let starts' : has_prefix prefix j ≡ true =
      ap (λ (e : String × DeployedProcess). has_prefix prefix e.0) (sym same) ∙ starts in
    rw (same_process, starts') (latest_by_key-keeps prefix q m _ (covered-here q acc))
latest_by_key-covers prefix k p ((j, q) ∷ m) acc (Memᴰ.tail later) starts =
    latest_by_key-covers prefix k p m _ later starts

latest_by_key-is_keyed :
    (prefix : String) (m acc : Map String DeployedProcess)
    → is_keyed (λ (p : DeployedProcess). p.key) acc ≡ true
    → is_keyed (λ (p : DeployedProcess). p.key) (latest_by_key prefix m acc) ≡ true
unfolding latest_by_key
latest_by_key-is_keyed prefix [] acc h = h
latest_by_key-is_keyed prefix ((k, q) ∷ m) acc h =
    elim (Bool-cases (has_prefix prefix k && newer (lookup q.key acc) q)) [
      | inl taken ↦ rw taken (
          latest_by_key-is_keyed prefix m (insert q.key q acc)
            (insert-is_keyed (λ (p : DeployedProcess). p.key) q.key q acc refl h))
      | inr passed ↦ rw passed (latest_by_key-is_keyed prefix m acc h)
    ]

lookup-Memᴰ :
    (k : String) (p : DeployedProcess) (m : Map String DeployedProcess)
    → lookup k m ≡ some p
    → Memᴰ p (map (λ (e : String × DeployedProcess). e.1) m)
unfolding lookup
lookup-Memᴰ k p [] h = cc
lookup-Memᴰ k p ((j, q) ∷ m) h = elim (Bool-cases (j == k)) [
  | inl same ↦ let found : q ≡ p = ground arith in Memᴰ.head (sym found)
  | inr other ↦ Memᴰ.tail (lookup-Memᴰ k p m (ground arith))
]

-- What is listed stands in the store, under a text with the prefix.
latest_by_key-stored :
    (prefix j : String) (q : DeployedProcess) (m acc : Map String DeployedProcess)
    → lookup j (latest_by_key prefix m acc) ≡ some q
    → ((k : String) × Memᴰ (k, q) m × (has_prefix prefix k ≡ true)) ⊎ (lookup j acc ≡ some q)
unfolding latest_by_key
latest_by_key-stored prefix j q [] acc h = inr h
latest_by_key-stored prefix j q ((k, p) ∷ m) acc h =
    elim (Bool-cases (has_prefix prefix k && newer (lookup p.key acc) p)) [
      | inr passed ↦ elim (latest_by_key-stored prefix j q m acc (rw passed at h)) [
        | inl (i, stands, starts) ↦ inl (i, Memᴰ.tail stands, starts)
        | inr found ↦ inr found
      ]
      | inl taken ↦ elim (latest_by_key-stored prefix j q m (insert p.key p acc) (rw taken at h)) [
        | inl (i, stands, starts) ↦ inl (i, Memᴰ.tail stands, starts)
        | inr found ↦ inserted k p m acc found (and-eq-true (has_prefix prefix k) _ taken).0
      ]
    ]
  where
    inserted :
        (k : String) (p : DeployedProcess) (m acc : Map String DeployedProcess)
        → lookup j (insert p.key p acc) ≡ some q
        → has_prefix prefix k ≡ true
        → ((i : String) × Memᴰ (i, q) ((k, p) ∷ m) × (has_prefix prefix i ≡ true))
          ⊎ (lookup j acc ≡ some q)
    inserted k p m acc found starts = elim (Bool-cases (p.key == j)) [
      | inl same ↦
          let here : some p ≡ some q = cc (lookup-insert j p.key p acc, same, found) in
          let e : q ≡ p = cc in inl (k, Memᴰ.head (ap (λ (x : DeployedProcess). (k, x)) e), starts)
      | inr other ↦ inr (cc (lookup-insert j p.key p acc, other, found))
    ]

-- For every stored version whose text starts with the tenant's, `ListProcesses` lists a version of the same
-- process that is not older and that is itself stored under a text which starts with the tenant's.
pub list_processes-covers :
    (tenant k : String) (p : DeployedProcess) (s : Store)
    → Memᴰ (k, p) s.processes
    → has_prefix (tenant ++ "/") k ≡ true
    → (q : DeployedProcess) × Memᴰ q (list_processes tenant s)
      × (q.key ≡ p.key)
      × (leb p.version q.version ≡ true)
      × ((j : String) × Memᴰ (j, q) s.processes × (has_prefix (tenant ++ "/") j ≡ true))
unfolding list_processes
list_processes-covers tenant k p s m starts =
    let latest = latest_by_key (tenant ++ "/") s.processes [] in
    let (q, found, newer) =
      covered-eq-true p latest (latest_by_key-covers (tenant ++ "/") k p s.processes [] m starts) in
    (
      q,
      lookup-Memᴰ p.key q latest found,
      lookup-key (λ (x : DeployedProcess). x.key) p.key q latest
          (latest_by_key-is_keyed (tenant ++ "/") s.processes [] refl) found,
      newer,
      elim (latest_by_key-stored (tenant ++ "/") p.key q s.processes [] found) [
        | inl stored ↦ stored
        | inr none_yet ↦ absurd (cc)
      ],
    )
