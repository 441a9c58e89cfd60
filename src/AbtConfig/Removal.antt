-- ===== src/AbtConfig/Removal.antt =====
-- src/margo-abt-config.c: the removals keep the invariant.
use mochi_margo.Base.Text.{same_text}
use mochi_margo.Base.{
  ℕ, zero, suc, ◌+◌, ◌≤◌, ◌≡◌, ◌≢◌, refl, ap, sym, subst, false, Bool-cases, ◌==◌, if◌then◌else◌,
  null, Option, none, some, List, [], arith, inl, inr, Option-cases, get_elem?,
}
use mochi_margo.Registry.Defs.{swap_remove}
use mochi_margo.Registry.Totals.{total-swap_remove, le-total}
use mochi_margo.AbtConfig.Entries.{PoolEntry, XstreamEntry, Abt}
use mochi_margo.AbtConfig.Xstreams.{Argobots, one_less, count_all, pools_of, xstream_destroy}
use mochi_margo.AbtConfig.Arrays.{
  remove_pool, remove_xstream, remove_unused, remove_stream, remove_empty,
}
use mochi_margo.AbtConfig.Counts.{num_at, held, times, Unique, held-count_down, count-Unique}
use mochi_margo.AbtConfig.Creation.{destroy-null, given, firsts, destroy-pools, reached_all}
use mochi_margo.AbtConfig.Usage.{stream_pools, runs, demand, Inv}

unused-Unique :
    (pools : List PoolEntry) (i : ℕ) (p : PoolEntry)
    → get_elem? pools i ≡ some p
    → Unique pools
    → Unique (swap_remove pools i)
unused-Unique pools i p at u h real =
    omega (arith, u h real, total-swap_remove (λ x. if x.pool == h then 1 else 0) pools i p at)

module _ (A : Argobots) (total_size : ℕ → Option ℕ) (abt : Abt) (index : ℕ) (v : Inv A abt) where
  remove_empty-Inv :
      (p : PoolEntry) (size : Option ℕ)
      → get_elem? abt.pools index ≡ some p
      → p.num_xstreams ≡ 0
      → Inv A (remove_empty abt index p size).1
  remove_empty-Inv p none at z = v
  remove_empty-Inv p (some (suc n)) at z = v
  remove_empty-Inv p (some zero) at z =
      let same : (h : ℕ) → held h (swap_remove abt.pools index) ≡ held h abt.pools =
        λ h. ground (arith, total-swap_remove (num_at h) abt.pools index p at, z) in
      record {
        unique = unused-Unique abt.pools index p at v.unique;
        few = λ h. omega (arith, same h, v.few h);
        counted = λ h. omega (arith, same h, v.counted h);
        real = v.real;
      }

  remove_unused-Inv :
      (o : Option PoolEntry)
      → get_elem? abt.pools index ≡ o
      → Inv A (remove_unused total_size abt index o).1
  remove_unused-Inv none at = v
  remove_unused-Inv (some p) at = elim (Bool-cases (p.refcount == 0)) [
    | inl y ↦ rw y (elim (Bool-cases (p.num_xstreams == 0)) [
      | inl z ↦ rw z (remove_empty-Inv p (total_size p.pool) at (ground (arith, z)))
      | inr n ↦ rw n v
    ])
    | inr n ↦ rw n v
  ]

  pub remove_pool-Inv : Inv A (remove_pool total_size abt index).1
  unfolding remove_pool
  remove_pool-Inv = remove_unused-Inv (get_elem? abt.pools index) refl

module _ (A : Argobots) (abt : Abt) (index : ℕ) (v : Inv A abt) (x : XstreamEntry)
    (at : get_elem? abt.xstreams index ≡ some x) where
  -- The stream's own part in the numbers.
  part : (h : ℕ) → runs A h x ≤ held h abt.pools
  part h = omega (arith, v.counted h, le-total (runs A h) abt.xstreams index x at)

  rest :
      (h : ℕ) → demand A h (swap_remove abt.xstreams index) + runs A h x ≡ demand A h abt.xstreams
  rest h = total-swap_remove (runs A h) abt.xstreams index x at

  -- What is left when the stream is counted out.
  abbrev Left : List PoolEntry → Type 0
  Left pools = Unique pools × ((h : ℕ) → held h pools + runs A h x ≡ held h abt.pools)

  Left-by :
      (hs : Option (List (Option ℕ)))
      → x.xstream ≢ null
      → pools_of A (A.main_sched x.xstream) ≡ hs
      → Left (count_all one_less abt.pools hs).0
  Left-by none real same =
      let there : (x.xstream == null) ≡ false = ground (arith, real) in
      let nothing : stream_pools A x.xstream ≡ [] = rw there (ap given same) in
      (v.unique, λ h. omega (arith, ap (times h) nothing))
  Left-by (some hs) real same =
      let there : (x.xstream == null) ≡ false = ground (arith, real) in
      let own : stream_pools A x.xstream ≡ firsts hs = rw there (ap given same) in
      let some_part : (h : ℕ) → times h (firsts hs) ≤ held h abt.pools =
        λ h. omega (arith, part h, ap (times h) own) in
      let whole = reached_all abt.pools hs some_part (omega (arith, v.counted null, v.real)) in
      (
        count-Unique one_less (λ p. refl) abt.pools hs v.unique,
        λ h. omega (
          arith,
          ap (times h) own,
          ap (times h) whole,
          held-count_down abt.pools hs v.unique
              (λ k. omega (arith, some_part k, ap (times k) whole)) v.few h,
        ),
      )

  destroy-Left : Left (xstream_destroy A x abt.pools abt.joined).0
  destroy-Left = elim (Bool-cases (x.xstream == null)) [
    | inl y ↦
        let nothing : stream_pools A x.xstream ≡ [] = rw y refl in
        subst Left (sym (destroy-null A x abt.pools abt.joined y))
          (v.unique, λ h. omega (arith, ap (times h) nothing))
    | inr n ↦
        let real : x.xstream ≢ null = ground (arith, n) in
        let hs = pools_of A (A.main_sched x.xstream) in
        subst Left (sym (destroy-pools A x abt.pools abt.joined hs real refl))
          (Left-by hs real refl)
  ]

  pub remove_stream-Inv : Inv A (remove_stream A abt index (some x)).1
  remove_stream-Inv = elim (Bool-cases (same_text x.name "__primary__")) [
    | inl y ↦ rw y v
    | inr n ↦ elim (Bool-cases (x.refcount == 0)) [
      | inl z ↦
          let after = destroy-Left in
          rw (n, z)
            (record {
              unique = after.0;
              few = λ h. omega (arith, after.1 h, v.few h);
              counted = λ h. omega (arith, after.1 h, v.counted h, rest h);
              real = omega (arith, v.real, rest null);
            })
      | inr m ↦ rw (n, m) v
    ]
  ]

pub remove_xstream-Inv :
    (A : Argobots) (abt : Abt) (index : ℕ) → Inv A abt → Inv A (remove_xstream A abt index).1
unfolding remove_xstream
remove_xstream-Inv A abt index v = elim (Option-cases (get_elem? abt.xstreams index)) [
  | inl n ↦ rw n v
  | inr (x, at) ↦ rw at (remove_stream-Inv A abt index v x at)
]
