-- ===== src/Scan/Authentic.antt =====
-- What the answers of `privateScan` (apps/coordination-hub/src/scan/scan.service.ts) prove of the
-- registry, whatever the network, the database and the chain's other users do during the scan.
use qr_blockchain_anticounte.Prelude.{ℕ, Str, ◌≡◌, subst, ◌≢◌, arith}
use qr_blockchain_anticounte.Registry.{Storage}
use qr_blockchain_anticounte.Registry.Monotone.{Extends}
use qr_blockchain_anticounte.Registry.Redeem.{Spent, Extends-Spent}
use qr_blockchain_anticounte.World.{Outside, Env, World, ok}
use qr_blockchain_anticounte.World.Laws.{Grows, bind-Grows}
use qr_blockchain_anticounte.World.Reaching.{Reaches, later-Reaches}
use qr_blockchain_anticounte.Hex.{hex_to_bytes}
use qr_blockchain_anticounte.Contract.Redemption.{TakenFor}
use qr_blockchain_anticounte.Scan.{
  ScanContext, ScanPrivateDto, authentic_outcome, ProductRedeemedEvent, hash_sid, pre_check,
  private_scan,
}
use qr_blockchain_anticounte.Scan.Soundness.{
  Proves, Proves-IsClosed, pre_check-Grows, by_pre_check-Fine, by_pre_check-Grows,
}

-- the SHA-256 word of the secret that a scan presents
abbrev pub secret_word : Outside → ScanPrivateDto → ℕ
secret_word x input = x.sha256 (hex_to_bytes input.secret_id)

module _ (x : Outside) (env : Env) (fallback : Str) where
  private_scan-Proves :
      (input : ScanPrivateDto) (ctx : ScanContext)
      → Reaches
          (Proves x input.project_id (secret_word x input))
          (private_scan x env fallback input ctx)
  unfolding private_scan
  private_scan-Proves input ctx =
      later-Reaches _ (Proves-IsClosed x input.project_id (secret_word x input))
        (pre_check x env fallback input.project_id (hash_sid x env (hex_to_bytes input.secret_id)))
        _ (pre_check-Grows x env fallback input.project_id _ ctx)
        (by_pre_check-Fine x env fallback input.project_id _ ctx (hex_to_bytes input.secret_id))

  -- A private scan that answers AUTHENTIC redeemed the product: its identifier codes a word, the
  -- product under that word and the secret's hash was not redeemed when the scan began, and it is
  -- registered and redeemed when it ends. Errors, retries and other users' transactions included.
  pub private_scan-authentic :
      (input : ScanPrivateDto) (ctx : ScanContext) (w : World) (t : Str) (ev : ProductRedeemedEvent)
      (at : ℕ) (w' : World)
      → private_scan x env fallback input ctx w ≡ (ok (authentic_outcome t ev at), w')
      → TakenFor x input.project_id (secret_word x input) w.registry w'.registry
  private_scan-authentic input ctx w t ev at w' e =
      (private_scan-Proves input ctx).reaches w (authentic_outcome t ev at) w' e

  -- A private scan, whatever it answers or throws, only extends the registry.
  pub private_scan-Grows :
      (input : ScanPrivateDto) (ctx : ScanContext) → Grows (private_scan x env fallback input ctx)
  unfolding private_scan
  private_scan-Grows input ctx =
      bind-Grows
        (pre_check x env fallback input.project_id (hash_sid x env (hex_to_bytes input.secret_id)))
        _ (pre_check-Grows x env fallback input.project_id _ ctx)
        (by_pre_check-Grows x env fallback input.project_id _ ctx (hex_to_bytes input.secret_id))

  taken_twice :
      {phi phi' : Str} {h h' : ℕ} {s t u v : Storage}
      → x.bytes32 phi ≡ x.bytes32 phi'
      → h ≡ h'
      → TakenFor x phi h s t
      → Extends t u
      → ¬ TakenFor x phi' h' u v
  taken_twice {h' = h'} {u = u} same same_h k g l =
      let words : k.word ≡ l.word = ground (arith, k.coded, l.coded, same) in
      l.taken.unspent (
        subst (λ z. Spent z h' u) words
          (subst (λ z. Spent k.word z u) same_h (Extends-Spent k.word _ g k.taken.spent)))

  -- A product is reported AUTHENTIC at most once: after a scan that answers so, and whatever extends
  -- the registry since, no scan whose project identifier codes the same word and whose secret has the
  -- same hash answers AUTHENTIC.
  pub authentic_once :
      (input again : ScanPrivateDto) (ctx ctx' : ScanContext) (w : World) (t : Str)
      (ev : ProductRedeemedEvent) (at : ℕ) (w' v : World) (t' : Str) (ev' : ProductRedeemedEvent)
      (at' : ℕ) (v' : World)
      → x.bytes32 input.project_id ≡ x.bytes32 again.project_id
      → secret_word x input ≡ secret_word x again
      → private_scan x env fallback input ctx w ≡ (ok (authentic_outcome t ev at), w')
      → Extends w'.registry v.registry
      → private_scan x env fallback again ctx' v ≢ (ok (authentic_outcome t' ev' at'), v')
  authentic_once input again ctx ctx' w t ev at w' v t' ev' at' v' same same_h e g e' =
      taken_twice same same_h (private_scan-authentic input ctx w t ev at w' e) g
        (private_scan-authentic again ctx' v t' ev' at' v' e')
