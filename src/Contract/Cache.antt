-- ===== src/Contract/Cache.antt =====
-- The view cache of apps/coordination-hub/src/blockchain/ethers-contract.service.ts.
use qr_blockchain_anticounte.Prelude.{
  ℕ, ◌+◌, ◌<◌, Str, codes, ◌++◌, str_eq_refl, str_eq_iff, includes, includes-append, ◌≡◌, refl, ap,
  subst, none, some, List, [], ◌∷◌, true, not, filter_by, arith,
}
use qr_blockchain_anticounte.World.{World, CacheEntry, CacheValue, M, Result, ok, err, Outside, Env}
use qr_blockchain_anticounte.Contract.{
  cache_get, cache_set, invalidate_cache, verify_key, project_key, cached_view, hit_or_miss,
  live_value, count_hit, count_miss,
}

pub cache_get-cache_set :
    (k : Str) (e : CacheEntry) (m : List (Str × CacheEntry))
    → cache_get k (cache_set k e m) ≡ some e
unfolding cache_get cache_set
cache_get-cache_set k e [] = ground (arith, str_eq_refl k)
cache_get-cache_set k e ((j, d) ∷ m) = ground (arith, cache_get-cache_set k e m, str_eq_refl k)

cache_get-filter_by :
    (k phi : Str) (m : List (Str × CacheEntry))
    → includes k phi ≡ true
    → cache_get k (filter_by (λ kv. not (includes kv.0 phi)) m) ≡ none
unfolding cache_get filter_by
cache_get-filter_by k phi [] h = refl
cache_get-filter_by k phi ((j, d) ∷ m) h =
    ground (
      arith,
      cache_get-filter_by k phi m h,
      str_eq_iff j k,
      ap (λ i. includes i phi) {x = j} {y = k},
    )

cache_get-[] : (k : Str) → cache_get k [] ≡ none
unfolding cache_get
cache_get-[] k = refl

append-[] : (s : Str) → s ++ [] ≡ s
append-[] [] = refl
append-[] (a ∷ s) = ap (λ t. a ∷ t) (append-[] s)

-- After an invalidation for a phi, no answer about that phi is in the cache: neither of the
-- project's existence nor of any of its products.
pub cache_get-invalidate_cache :
    (phi h : Str) (w : World)
    → (cache_get (verify_key phi h) (invalidate_cache phi w).view_cache ≡ none)
      × (cache_get (project_key phi) (invalidate_cache phi w).view_cache ≡ none)
unfolding invalidate_cache
cache_get-invalidate_cache [] h w = (cache_get-[] (verify_key [] h), cache_get-[] (project_key []))
cache_get-invalidate_cache (c ∷ phi) h w =
    let k = project_key (c ∷ phi) in
    let inside : includes k (c ∷ phi) ≡ true =
      subst (λ z. includes (codes "projectExists:" ++ z) (c ∷ phi) ≡ true) (append-[] (c ∷ phi))
        (includes-append (codes "projectExists:") (c ∷ phi) []) in
    (
      ground (
        arith,
        cache_get-filter_by (verify_key (c ∷ phi) h) (c ∷ phi) w.view_cache
            (includes-append (codes "verify:") (c ∷ phi) (codes ":" ++ h)),
      ),
      ground (arith, cache_get-filter_by k (c ∷ phi) w.view_cache inside),
    )

-- what a call that missed leaves under its key
stored_after :
    (key : Str) (now : ℕ) (fn : M CacheValue) (v : CacheValue) (w w' : World)
    (r : Result CacheValue × World)
    → fn (count_miss w) ≡ r
    → hit_or_miss key now fn none w ≡ (ok v, w')
    → cache_get key w'.view_cache ≡ some (record { value = v; expires_at = now + 5_000 })
stored_after key now fn v w w' (ok a, u) ran e = ground (
  arith,
  ran,
  e,
  cache_get-cache_set key (record { value = a; expires_at = now + 5_000 }) u.view_cache,
)
stored_after key now fn v w w' (err a, u) ran e = absurd (ground (arith, ran, e))

module _ (x : Outside) (env : Env) where
  -- When a view call missed the cache and returned within five seconds of its beginning, a call at the
  -- same key that follows it at once, whatever it would fetch, returns the same value without fetching it,
  -- and only counts a hit.
  pub cached_view-again :
      (key : Str) (fn other : M CacheValue) (v : CacheValue) (w w' : World)
      → live_value (cache_get key w.view_cache) (x.clock w.tick) ≡ none
      → cached_view x env key fn w ≡ (ok v, w')
      → x.clock w'.tick < x.clock w.tick + 5_000
      → cached_view x env key other w' ≡ (ok v, count_hit w')
  unfolding cached_view
  cached_view-again key fn other v w w' miss e soon =
      let kept =
        stored_after key (x.clock w.tick) fn v w w' (fn (count_miss w)) refl (rw miss at e) in
      ground (arith, kept, soon)
