-- ===== src/AbtConfig/Checked.antt =====
-- src/margo-abt-config.c: a configuration that passes the checks can be built.
use Prim.Native.String.{String}
use mochi_margo.Base.Text.{same_text, one_of}
use mochi_margo.Base.{
  ℕ, zero, suc, ◌+◌, ◌<◌, ◌≡◌, refl, ap, Bool, true, false, Bool-cases, ◌&&◌, not, Option, none,
  some, List, [], ◌∷◌, length, get_elem?, arith, inl, inr, Option-cases,
}
use mochi_margo.Registry.Defs.{find_first}
use mochi_margo.Registry.Totals.{find_first-some}
use mochi_margo.AbtConfig.Json.{
  Json, get, elements_of, reference_passes, references_pass, pool_validate_json,
  sched_validate_json, index_below, optional, in_enum, has_text,
}
use mochi_margo.AbtConfig.Entries.{PoolEntry, find_pool_by_name}
use mochi_margo.AbtConfig.Pools.{
  Request, Access, request, text_or, basic, fifo_wait, fifo, randws, prio_wait, earliest_first,
}
use mochi_margo.AbtConfig.Xstreams.{is_some, handle_at, pool_in, referred, all_referred}

module _ (J : Json) (pools : List PoolEntry) where
  -- The names that the checks know.
  abbrev pub known : String → Bool
  known name = is_some (find_pool_by_name pools (some name))

  there :
      (ps : List PoolEntry) (i : ℕ) → i < length ps → (h : ℕ) × (pool_in (get_elem? ps i) ≡ some h)
  there [] i h = absurd (omega (arith, h))
  there (p ∷ ps) zero h = (p.pool, refl)
  there (p ∷ ps) (suc i) h = there ps i (omega (arith, h))

  by_index :
      (o : Option ℕ)
      → index_below J (length pools + 0) o ≡ true
      → (h : ℕ) × (handle_at pools o ≡ some h)
  by_index none e = absurd (ground (arith, e))
  by_index (some i) e = there pools i (ground (arith, e))

  by_text :
      (name : String)
      → known name ≡ true
      → (h : ℕ) × (handle_at pools (find_first (λ p. same_text p.name name) pools) ≡ some h)
  unfolding find_pool_by_name
  by_text name e = elim (Option-cases (find_first (λ p. same_text p.name name) pools)) [
    | inl n ↦ absurd (ground (arith, e, n))
    | inr (i, f) ↦
        let (p, at, _) = find_first-some (λ p. same_text p.name name) pools i f in
        (p.pool, rw (f, at) refl)
  ]

  found_one :
      (v : J.Value)
      → reference_passes J known (length pools) [] v ≡ true
      → (h : ℕ) × (referred J pools v ≡ some h)
  found_one v e = elim (Bool-cases (J.is_int v)) [
    | inl y ↦ rw y (by_index (J.integer v) (ground (arith, e, y)))
    | inr n ↦ elim (Bool-cases (J.is_string v)) [
      | inl s ↦ rw n (by_text (J.text v) (ground (arith, e, n, s)))
      | inr m ↦ absurd (ground (arith, e, n, m))
    ]
  ]

  found_all :
      (vs : List J.Value)
      → references_pass J known (length pools) [] vs ≡ true
      → (hs : List ℕ) × (all_referred J pools vs ≡ some hs) × (length hs ≡ length vs)
  found_all [] e = ([], refl, refl)
  found_all (v ∷ vs) e =
      let (h, one) = found_one v (ground (arith, e)) in
      let (hs, rest, size) = found_all vs (ground (arith, e)) in
      (h ∷ hs, rw (one, rest) refl, ap suc size)

-- A scheduler that passes the checks against the pools that there are names no pool that is missing:
-- every reference leads to the handle of a pool, so that no reference refuses the scheduler when it is
-- made.
pub checked_references_found :
    (J : Json) (before_two : Bool) (pools : List PoolEntry) (config : Option J.Value)
    → sched_validate_json J before_two (known J pools) (length pools) [] config ≡ true
    → (hs : List ℕ) × (all_referred J pools (elements_of J (get J config "pools")) ≡ some hs)
      × (length hs ≡ length (elements_of J (get J config "pools")))
unfolding sched_validate_json
checked_references_found J before_two pools none e = ([], refl, refl)
checked_references_found J before_two pools (some v) e =
    found_all J pools (elements_of J (J.field v "pools")) (ground (arith, e))

-- The kinds of the enumeration, but for "external", are kinds of pools.
kind_supported :
    (before_two : Bool) (t : String) (access : Access)
    → one_of t ("fifo" ∷ "fifo_wait" ∷ "prio_wait" ∷ "earliest_first" ∷ "external" ∷ []) ≡ true
    → same_text t "external" ≡ false
    → (r : Request) × (request before_two t access ≡ some r)
kind_supported before_two t access e other = elim (Bool-cases (same_text t "fifo_wait")) [
  | inl y ↦ (basic fifo_wait access, rw y refl)
  | inr a ↦ elim (Bool-cases (same_text t "fifo")) [
    | inl y ↦ (basic fifo access, rw (a, y) refl)
    | inr b ↦ elim (Bool-cases (not before_two && same_text t "randws")) [
      | inl y ↦ (basic randws access, rw (a, b, y) refl)
      | inr c ↦ elim (Bool-cases (same_text t "prio_wait")) [
        | inl y ↦ (prio_wait, rw (a, b, c, y) refl)
        | inr d ↦ elim (Bool-cases (same_text t "earliest_first")) [
          | inl y ↦ (earliest_first, rw (a, b, c, d, y) refl)
          | inr f ↦ absurd (ground (arith, e, other, a, b, d, f))
        ]
      ]
    ]
  ]
]

field_supported :
    (J : Json) (before_two : Bool) (kind : Option J.Value) (access : Access)
    → optional J J.is_string kind ≡ true
    → in_enum J kind ("fifo" ∷ "fifo_wait" ∷ "prio_wait" ∷ "earliest_first" ∷ "external" ∷ [])
      ≡ true
    → has_text J "external" kind ≡ false
    → (r : Request) × (request before_two (text_or J kind "fifo_wait") access ≡ some r)
field_supported J before_two none access s e other = (basic fifo_wait access, refl)
field_supported J before_two (some v) access s e other =
    rw s (kind_supported before_two (J.text v) access e other)

-- For a pool that passes the checks there is a request to Argobots, for each access and for old and
-- new Argobots: no kind that the checks let through is refused when the pool is made.
pub checked_kind_supported :
    (J : Json) (abt_runs before_two : Bool) (config : Option J.Value) (access : Access)
    → pool_validate_json J abt_runs config ≡ true
    → (r : Request) × (request before_two (text_or J (get J config "kind") "fifo_wait") access
        ≡ some r)
unfolding pool_validate_json
checked_kind_supported J abt_runs before_two none access e = (basic fifo_wait access, refl)
checked_kind_supported J abt_runs before_two (some v) access e =
    field_supported J before_two (J.field v "kind") access (ground (arith, e)) (ground (arith, e))
      (ground (arith, e))
