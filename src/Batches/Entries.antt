-- ===== src/Batches/Entries.antt =====
-- The entries of a batch's manifest
-- (apps/coordination-hub/src/projects/batches/batches.service.ts): each secret stands beside its hash.
use qr_blockchain_anticounte.Prelude.{
  ℕ, ◌+◌, Str, ◌≡◌, refl, ap, subst, ◌⊎◌, inl, inr, List, [], ◌∷◌, length, map, All, arith,
  Bool-cases, every, strip_0x, ◌==◌, ◌%◌, codes, ◌++◌,
}
use qr_blockchain_anticounte.Errors.{Err, js, plain_error}
use qr_blockchain_anticounte.World.{Outside, Env, World, M, Result, ok, err}
use qr_blockchain_anticounte.Hex.{is_hex_digit}
use qr_blockchain_anticounte.Hashing.{hash_sid_text, sid_string_to_bytes}
use qr_blockchain_anticounte.Batches.{
  BatchManifestEntry, ZipEntry, BatchManifest, entries_from, hash_sids,
}

-- the bytes of a secret
abbrev pub sid_bytes : Outside → Str → List ℕ
sid_bytes x sid = x.noble_hex_to_bytes (strip_0x sid)

abbrev pub hash_of : Outside → Str → Str
hash_of x sid = codes "0x" ++ x.digest_hex (x.sha256 (sid_bytes x sid))

abbrev bad_hex : Err
bad_hex = js (plain_error (codes "expected 0x-prefixed hex string"))

hash_sid_text-cases :
    (x : Outside) (sid : Str)
    → ((w : World) → hash_sid_text x sid w ≡ (ok (hash_of x sid), w))
      ⊎ ((w : World) → hash_sid_text x sid w ≡ (err bad_hex, w))
unfolding hash_sid_text sid_string_to_bytes
hash_sid_text-cases x sid = elim (Bool-cases (every is_hex_digit (strip_0x sid))) [
  | inr bad ↦ inr (λ w. ground (arith, bad))
  | inl good ↦ elim (Bool-cases (length (strip_0x sid) % 2 == 0)) [
    | inr odd ↦ inr (λ w. ground (arith, good, odd))
    | inl even ↦ inl (λ w. ground (arith, good, even))
  ]
]

pub hash_of_hashed :
    (x : Outside) (sid h : Str) (w w' : World)
    → hash_sid_text x sid w ≡ (ok h, w')
    → h ≡ hash_of x sid
hash_of_hashed x sid h w w' e = elim (hash_sid_text-cases x sid) [
  | inl fine ↦ ground (arith, fine w, e)
  | inr bad ↦ absurd (ground (arith, bad w, e))
]

module _ (x : Outside) (env : Env) (to_png : Str → List ℕ) (build_zip : List ZipEntry → List ℕ)
    (to_json : BatchManifest → List ℕ) where
  abbrev hashed : List Str → M (List Str)
  hashed = hash_sids x env to_png build_zip to_json

  -- the entries hold the secrets in their order, each beside its hash
  pub record Paired (w : World) (sids : List Str) (es : List BatchManifestEntry) : Type 0 where
    pub secrets : map (λ e. e.secret_id) es ≡ sids
    pub right : All (λ (e : BatchManifestEntry). hash_sid_text x e.secret_id w ≡ (ok e.hash, w)) es

  rest-Paired :
      (i : ℕ) (s h : Str) (sids hashes : List Str) (w w' : World) (r : Result (List Str) × World)
      → hashed sids w ≡ r
      → hash_sid_text x s w ≡ (ok h, w)
      → ((hs : List Str) (v : World)
          → hashed sids w ≡ (ok hs, v)
          → Paired w sids (entries_from (i + 1) sids hs))
      → elim r.0 as (λ _. Result (List Str) × World) [
        | ok hs ↦ (ok (h ∷ hs), r.1)
        | err e ↦ (err e, r.1)
      ]
        ≡ (ok hashes, w')
      → Paired w (s ∷ sids) (entries_from i (s ∷ sids) hashes)
  unfolding entries_from
  rest-Paired i s h sids hashes w w' (ok hs, v) ran now rest e =
      let p = rest hs v ran in
      let same : h ∷ hs ≡ hashes = ground (arith, e) in
      subst (λ z. Paired w (s ∷ sids) (entries_from i (s ∷ sids) z)) same
        (record { secrets = ap (λ z. s ∷ z) p.secrets; right = (now, p.right) })
  rest-Paired i s h sids hashes w w' (err x', v) ran now rest e = absurd (cc e)

  -- When the secrets of a batch have been hashed, the secrets of the manifest's entries are those of the
  -- batch, each once and in their order, and the hash of an entry is the hash of its own secret.
  pub entries_from-hash_sids :
      (i : ℕ) (sids hashes : List Str) (w w' : World)
      → hashed sids w ≡ (ok hashes, w')
      → Paired w sids (entries_from i sids hashes)
  unfolding hash_sids entries_from
  entries_from-hash_sids i [] hashes w w' e = record { secrets = refl; right = tt }
  entries_from-hash_sids i (s ∷ sids) hashes w w' e = elim (hash_sid_text-cases x s) [
    | inl fine ↦
        rest-Paired i s (hash_of x s) sids hashes w w' (hashed sids w) refl (fine w)
          (λ hs v ran. entries_from-hash_sids (i + 1) sids hs w v ran) (ground (arith, fine w, e))
    | inr bad ↦ absurd (ground (arith, bad w, e))
  ]
