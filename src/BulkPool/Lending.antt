-- ===== src/BulkPool/Lending.antt =====
-- src/margo-bulk-pool.c: a pool and the handles that its clients hold, over any sequence of calls.
-- The calls run one at a time, under the mutex of the pool; a client gives back what it holds.
use mathlib.Core.List.{Perm, Nodup, perm_middle, perm-append_right_iff}
use mathlib.Core.List.Perm
use mathlib.Core.Option.{some-injective}
use mochi_margo.Base.{
  ℕ, ◌+◌, ◌<◌, ◌≡◌, ◌≢◌, subst, sym, ◌∙◌, some, List, [], ◌∷◌, ◌++◌, arith, length, length-append,
  null,
}
use mochi_margo.BulkPool.Defs.{
  Pool, done, pool_get, pool_tryget, bp_get, bp_release, BulkInfo, pool_release,
}
use mochi_margo.BulkPool.Stack.{
  IsValid, contents, Got, bp_get_pops, Put, bp_release_pushes, IsAccepted, pool_release_accepted,
}

-- The pool, and the handles that are lent out.
pub record System : Type 0 where
  pub pool : Pool
  pub lent : List ℕ

pub data Step (info : BulkInfo) : System → System → Type 0 where
  get :
      (p p' : Pool) (b : ℕ) (lent : List ℕ)
      → pool_get (some p) ≡ done (b, p')
      → Step info (record { pool = p; lent = lent }) (record { pool = p'; lent = b ∷ lent })
  tryget :
      (p p' : Pool) (b : ℕ) (lent : List ℕ)
      → pool_tryget (some p) ≡ done (b, p')
      → b ≢ null
      → Step info (record { pool = p; lent = lent }) (record { pool = p'; lent = b ∷ lent })
  release :
      (p p' : Pool) (b : ℕ) (before after : List ℕ)
      → pool_release info (some p) b ≡ done p'
      → Step info
          (record { pool = p; lent = before ++ b ∷ after })
          (record { pool = p'; lent = before ++ after })

pub data Reach (info : BulkInfo) (s : System) : System → Type 0 where
  here : Reach info s s
  next : {t u : System} → Reach info s t → Step info t u → Reach info s u

-- Every handle of the pool is either free or lent.
pub record Inv (handles : List ℕ) (s : System) : Type 0 where
  pub valid : IsValid s.pool
  pub counted : length s.lent + s.pool.num_free ≡ s.pool.count
  pub kept : Perm (s.lent ++ contents s.pool) handles

Got-of : (p p' q : Pool) (b c : ℕ) → bp_get p ≡ some (b, p') → Got p c q → Got p b p'
Got-of p p' q b c e g = subst (λ t. Got p t.0 t.1) (some-injective _ _ (sym g.returns ∙ e)) g

Put-of : (p p' q : Pool) (b : ℕ) → bp_release p b ≡ some p' → Put p b q → Put p b p'
Put-of p p' q b e g = subst (λ t. Put p b t) (some-injective _ _ (sym g.returns ∙ e)) g

pub get_pops : (p p' : Pool) (b : ℕ) → IsValid p → pool_get (some p) ≡ done (b, p') → Got p b p'
unfolding pool_get
get_pops p p' b v e =
    let some_free : 0 < p.num_free = ground arith in
    let (c, q, got) = bp_get_pops p v some_free in Got-of p p' q b c (ground arith) got

tryget-get :
    (p p' : Pool) (b : ℕ)
    → pool_tryget (some p) ≡ done (b, p')
    → b ≢ null
    → pool_get (some p) ≡ done (b, p')
unfolding pool_get pool_tryget
tryget-get p p' b e n = ground arith

release_inv :
    (info : BulkInfo) (p p' : Pool) (b : ℕ)
    → pool_release info (some p) b ≡ done p'
    → bp_release p b ≡ some p'
unfolding pool_release
release_inv info p p' b e = ground arith

regroup :
    (before after rest : List ℕ) (b : ℕ)
    → Perm ((before ++ b ∷ after) ++ rest) (b ∷ (before ++ after) ++ rest)
regroup before after rest b = (perm-append_right_iff rest).1 (perm_middle before after)

get-Inv :
    {handles : List ℕ} (p p' : Pool) (b : ℕ) (lent : List ℕ)
    → pool_get (some p) ≡ done (b, p')
    → Inv handles (record { pool = p; lent = lent })
    → Inv handles (record { pool = p'; lent = b ∷ lent })
get-Inv {handles} p p' b lent e i =
    let got = get_pops p p' b i.valid e in
    record {
      valid = got.valid;
      counted = omega (arith, i.counted, got.left, got.same_count);
      kept =
          Perm.trans (Perm.symm (perm_middle lent (contents p')))
            (subst (λ t. Perm (lent ++ t) handles) got.popped i.kept);
    }

release-Inv :
    {handles : List ℕ} (info : BulkInfo) (p p' : Pool) (b : ℕ) (before after : List ℕ)
    → pool_release info (some p) b ≡ done p'
    → Inv handles (record { pool = p; lent = before ++ b ∷ after })
    → Inv handles (record { pool = p'; lent = before ++ after })
release-Inv {handles} info p p' b before after e i =
    let room : p.num_free < p.count = omega (arith, i.counted, length-append before (b ∷ after)) in
    let (q, put') = bp_release_pushes p b i.valid room in
    let put = Put-of p p' q b (release_inv info p p' b e) put' in
    record {
      valid = put.valid;
      counted = omega (
        arith,
        i.counted,
        put.left,
        put.same_count,
        length-append before (b ∷ after),
        length-append before after,
      );
      kept = rw put.pushed (
          Perm.trans (perm_middle (before ++ after) (contents p))
            (Perm.trans (Perm.symm (regroup before after (contents p) b)) i.kept));
    }

Reach-Inv :
    {handles : List ℕ} {info : BulkInfo} {s t : System}
    → Inv handles s
    → Reach info s t
    → Inv handles t
Reach-Inv i here = i
Reach-Inv i (next r (get p p' b lent e)) = get-Inv p p' b lent e (Reach-Inv i r)
Reach-Inv i (next r (tryget p p' b lent e n)) =
    get-Inv p p' b lent (tryget-get p p' b e n) (Reach-Inv i r)
Reach-Inv i (next r (release p p' b before after e)) =
    release-Inv _ p p' b before after e (Reach-Inv i r)

-- With all handles free, none is lent.
pub start_Inv :
    (p : Pool)
    → IsValid p
    → p.num_free ≡ p.count
    → Inv (contents p) (record { pool = p; lent = [] })
start_Inv p v full = record { valid = v; counted = omega arith; kept = Perm.refl (contents p) }

-- From a well-formed pool whose handles are distinct and all free, after any sequence of gets, of
-- trygets and of releases of handles that are lent then, the free handles and the lent ones are
-- together those of the start, in some order: no handle is both, none is lent twice and none is lost;
-- they are as many as the pool counts, and the pool is well-formed. A release of a handle that is not
-- lent, which the code accepts, is not among the calls.
pub handles_are_kept :
    {info : BulkInfo} (start : Pool) (s : System)
    → IsValid start
    → start.num_free ≡ start.count
    → Nodup (contents start)
    → Reach info (record { pool = start; lent = [] }) s
    → Nodup (s.lent ++ contents s.pool)
      × Perm (s.lent ++ contents s.pool) (contents start)
      × (length s.lent + s.pool.num_free ≡ s.pool.count)
      × IsValid s.pool
handles_are_kept {info} start s v full distinct r =
    let i = Reach-Inv {handles = contents start} (start_Inv start v full) r in
    (Perm.nodup (Perm.symm i.kept) distinct, i.kept, i.counted, i.valid)

-- From a pool with all of its handles free: of those that clients hold, one that passes the tests
-- of a release is taken back, on top of the free ones, and no access leaves the array.
pub lent_release :
    {info : BulkInfo} (start p : Pool) (before after : List ℕ) (b : ℕ)
    → IsValid start
    → start.num_free ≡ start.count
    → Reach info
        (record { pool = start; lent = [] })
        (record { pool = p; lent = before ++ b ∷ after })
    → IsAccepted info p b
    → (p' : Pool) × (pool_release info (some p) b ≡ done p') × (contents p' ≡ b ∷ contents p)
lent_release {info} start p before after b v full r a =
    let i = Reach-Inv {handles = contents start} (start_Inv start v full) r in
    let (p', returns, put) =
      pool_release_accepted info p b i.valid a
        (omega (arith, i.counted, length-append before (b ∷ after))) in
    (p', returns, put.pushed)
