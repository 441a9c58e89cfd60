-- ===== src/AbtConfig/Steps.antt =====
-- src/margo-abt-config.c: every operation on the arrays keeps the invariant.
use mathlib.Core.Option.{some-injective}
use Prim.Native.String.{String}
use mochi_margo.Base.Text.{same_text}
use mochi_margo.Base.{
  ℕ, suc, ◌≡◌, ◌≢◌, refl, ap, ◌∙◌, subst, Bool, true, false, Bool-cases, null, Option, none, some,
  List, arith, inl, inr, Option-cases, length,
}
use mochi_margo.AbtConfig.Json.{Json, get}
use mochi_margo.AbtConfig.Entries.{XstreamEntry, Abt, find_pool_by_handle}
use mochi_margo.AbtConfig.Pools.{
  text_or, text_of, or_else, request, access_of, pool_names, ask, pool_entry, pool_init_from_json,
  external_entry, pool_init_external, name_or_unused,
}
use mochi_margo.AbtConfig.Xstreams.{
  Argobots, Makers, Made, is_some, pools_of, counted, new_entry, start_named,
  xstream_init_from_json, register, xstream_init_external, sched_init_external,
}
use mochi_margo.AbtConfig.Arrays.{
  grow, pool_refused, xstream_refused, external_pool_refused, external_xstream_refused,
  push_xstream, push_external, add_pool_from_json, add_external_pool, add_xstream_from_json,
  add_external_xstream,
}
use mochi_margo.AbtConfig.Creation.{given}
use mochi_margo.AbtConfig.Json.{xstream_name_passes, xstream_validate_json}
use mochi_margo.AbtConfig.Names.{generated, differs}
use mochi_margo.AbtConfig.Xstreams.{sched_init_from_json, xstream_names}
use mochi_margo.AbtConfig.Usage.{
  Inv, Outcome, Roomy, Starts, Fresh, counted-Outcome, untouched, start-Outcome, push_xstream-Inv,
  IsNew, push_pool-Inv, pool_entry-IsNew, asked,
}

module _ (A : Argobots) (J : Json) (numbered : ℕ → String)
    (before_two abt_runs memory copied : Bool) (M : Makers) (abt : Abt) where
  pub add_pool-Inv :
      (config : Option J.Value)
      → Fresh M abt.pools
      → Inv A abt
      → Inv A (add_pool_from_json J numbered before_two abt_runs memory copied M abt config).1
  unfolding add_pool_from_json pool_init_from_json
  add_pool-Inv config f v =
      let kind = text_or J (get J config "kind") "fifo_wait" in
      let access = or_else (text_of J (get J config "access")) "mpmc" in
      let asks = request before_two kind (access_of access) in
      let name = name_or_unused numbered (pool_names abt.pools) (text_of J (get J config "name")) in
      elim (Bool-cases (pool_refused J abt_runs abt config)) [
        | inl y ↦ rw y v
        | inr n ↦ rw n (
            push_pool-Inv A abt (grow memory (length abt.pools) abt.pools_cap)
              (pool_entry copied kind access (ask M.create_pool asks) name)
              (pool_entry-IsNew abt.pools copied kind access (ask M.create_pool asks) name
                (asked M abt.pools asks f))
              v)
      ]

-- The streams that are checked while Argobots runs do not get the name of the primary one.
module _ (J : Json) (numbered : ℕ → String) (plain : (j : ℕ) → numbered j ≢ "__primary__")
    (names : List String) where
  checked_name :
      (sched jname : Option J.Value) (s : String)
      → xstream_name_passes J true sched jname ≡ true
      → name_or_unused numbered names (text_of J jname) ≡ some s
      → same_text s "__primary__" ≡ false
  unfolding name_or_unused
  checked_name sched none s p e =
      let (j, n) = generated numbered (suc (length names)) names (length names) s e in
      differs s "__primary__" (λ q. plain j (n ∙ q))
  checked_name sched (some v) s p e =
      let same : J.text v ≡ s = some-injective _ _ e in
      subst (λ t. same_text t "__primary__" ≡ false) same (ground (arith, p))

  other_name :
      (before_two : Bool) (abt : Abt) (config : Option J.Value) (s : String)
      → xstream_refused J before_two true abt config ≡ false
      → name_or_unused numbered names (text_of J (get J config "name")) ≡ some s
      → same_text s "__primary__" ≡ false
  unfolding xstream_validate_json
  other_name before_two abt none s p e = checked_name none none s refl e
  other_name before_two abt (some v) s p e =
      checked_name (J.field v "scheduler") (J.field v "name") s (ground (arith, p)) e

module _ (A : Argobots) (M : Makers) (copied : Bool) (abt : Abt) where
  start_named-Outcome :
      (copied : Bool) (name : Option String) (sched : String × Option ℕ)
      → ((s : String) → name ≡ some s → same_text s "__primary__" ≡ false)
      → Roomy A abt.pools
      → Starts A M
      → Inv A abt
      → Outcome A abt.pools (start_named A M copied name sched abt.pools abt.joined)
  start_named-Outcome true none sched other roomy starts v =
      untouched A abt.pools abt.joined v.unique
  start_named-Outcome false name sched other roomy starts v =
      untouched A abt.pools abt.joined v.unique
  start_named-Outcome true (some s) sched other roomy starts v =
      start-Outcome A M s sched.0 sched.1 abt.pools abt.joined (other s refl) v.unique roomy starts

  pub add_xstream-Inv :
      (J : Json) (numbered : ℕ → String) (before_two memory : Bool) (config : Option J.Value)
      → ((j : ℕ) → numbered j ≢ "__primary__")
      → Roomy A abt.pools
      → Starts A M
      → Inv A abt
      → Inv A (add_xstream_from_json J numbered before_two true memory copied M A abt config).1
  unfolding add_xstream_from_json xstream_init_from_json
  add_xstream-Inv J numbered before_two memory config plain roomy starts v =
      let names = xstream_names abt.xstreams in
      let name = name_or_unused numbered names (text_of J (get J config "name")) in
      let sched = sched_init_from_json J M abt.pools (get J config "scheduler") in
      elim (Bool-cases (xstream_refused J before_two true abt config)) [
        | inl y ↦ rw y v
        | inr n ↦ rw n (
            push_xstream-Inv A abt (grow memory (length abt.xstreams) abt.xstreams_cap)
              (start_named A M copied name sched abt.pools abt.joined)
              (start_named-Outcome copied name sched
                (λ s e. other_name J numbered plain names before_two abt config s n e) roomy starts
                v)
              v)
      ]

missing : (o : Option ℕ) → is_some o ≡ false → o ≡ none
missing none e = refl
missing (some i) e = absurd (ground (arith, e))

module _ (A : Argobots) (numbered : ℕ → String) (memory : Bool) (abt : Abt) where
  external-IsNew :
      (pool : ℕ) (name : Option String)
      → find_pool_by_handle abt.pools pool ≡ none
      → IsNew abt.pools (external_entry pool name)
  external-IsNew pool none e = tt
  external-IsNew pool (some s) e = (refl, e)

  pub add_external_pool-Inv :
      (name : Option String) (pool : ℕ)
      → Inv A abt
      → Inv A (add_external_pool numbered memory abt name pool).1
  unfolding add_external_pool pool_init_external
  add_external_pool-Inv name pool v =
      let own = name_or_unused numbered (pool_names abt.pools) name in
      elim (Bool-cases (external_pool_refused abt name pool)) [
        | inl y ↦ rw y v
        | inr n ↦
            let fresh = missing (find_pool_by_handle abt.pools pool) (ground (arith, n)) in
            rw n (
              push_pool-Inv A abt (grow memory (length abt.pools) abt.pools_cap)
                (external_entry pool own) (external-IsNew pool own fresh) v)
      ]

module _ (A : Argobots) (abt after : Abt) where
  -- A stream that is accepted was made.
  accepted :
      (room : Option ℕ) (m : Option Made)
      → ((k : Made) (x : XstreamEntry) → m ≡ some k → k.entry ≡ some x → Outcome A abt.pools k)
      → push_external abt room m ≡ some (true, after)
      → Inv A abt
      → Inv A after
  accepted none m o e v = absurd (ground (arith, e))
  accepted (some n) none o e v = absurd (ground (arith, e))
  accepted (some n) (some k) o e v = elim (Option-cases k.entry) [
    | inl none_made ↦ absurd (ground (arith, none_made, e))
    | inr (x, made) ↦
        let same : push_xstream abt (some n) k ≡ (true, after) = some-injective _ _ e in
        subst (Inv A) (ap (λ r. r.1) same) (push_xstream-Inv A abt (some n) k (o k x refl made) v)
  ]

  register-Outcome :
      (given name : Option String) (xstream : ℕ) (k : Made) (x : XstreamEntry)
      → xstream ≢ null
      → Roomy A abt.pools
      → Inv A abt
      → register A given name xstream abt.pools abt.joined ≡ some k
      → k.entry ≡ some x
      → Outcome A abt.pools k
  register-Outcome given none xstream k x real roomy v e made = absurd (ground (arith, e))
  register-Outcome none (some s) xstream k x real roomy v e made =
      elim (Bool-cases (sched_init_external abt.pools (pools_of A (A.main_sched xstream)))) [
        | inl y ↦ absurd (ground (arith, e, y))
        | inr n ↦ absurd (ground (arith, e, n, made))
      ]
  register-Outcome (some g) (some s) xstream k x real roomy v e made =
      elim (Bool-cases (sched_init_external abt.pools (pools_of A (A.main_sched xstream)))) [
        | inl y ↦
            let entry = new_entry s "external" xstream false in
            let primary = same_text g "__primary__" in
            let hs = pools_of A (A.main_sched xstream) in
            let same : counted A entry primary abt.pools abt.joined hs ≡ k = ground (arith, e, y) in
            subst (Outcome A abt.pools) same
              (counted-Outcome A entry primary abt.pools abt.joined hs real refl v.unique roomy)
        | inr n ↦ absurd (ground (arith, e, n, made))
      ]

  pub add_external_xstream-Inv :
      (numbered : ℕ → String) (memory : Bool) (name : Option String) (xstream : ℕ)
      → xstream ≢ null
      → Roomy A abt.pools
      → add_external_xstream numbered memory A abt name xstream ≡ some (true, after)
      → Inv A abt
      → Inv A after
  unfolding add_external_xstream xstream_init_external
  add_external_xstream-Inv numbered memory name xstream real roomy e v =
      let own = name_or_unused numbered (xstream_names abt.xstreams) name in
      let room = grow memory (length abt.xstreams) abt.xstreams_cap in
      elim (Bool-cases (external_xstream_refused abt name xstream)) [
        | inl y ↦ absurd (ground (arith, e, y))
        | inr n ↦
            accepted room (register A name own xstream abt.pools abt.joined)
              (λ k x same made. register-Outcome name own xstream k x real roomy v same made)
              (ground (arith, e, n)) v
      ]
