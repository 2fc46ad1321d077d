-- ===== src/Uploads/Gate.antt =====
-- What reaches the pinning service through the checks of apps/coordination-hub/src/uploads.
use qr_blockchain_anticounte.Prelude.{
  ℕ, Str, ◌≡◌, ◌∙◌, refl, ap, Option, none, some, List, [], ◌∷◌, true, false, ltb, length,
  Bool-cases, inl, inr, arith, map, ◌++◌,
}
use qr_blockchain_anticounte.World.{Outside, Env, World, M, Result, ok, err, ◌>>=◌, ◌>>◌, pure}
use qr_blockchain_anticounte.Projects.{find_owned_by_producer, save_project}
use qr_blockchain_anticounte.Documents.{ProjectDoc}
use qr_blockchain_anticounte.Uploads.{
  IpfsAdapter, UploadedFile, PinResult, has, max_bytes, accepted_image_mimes, pin_file,
  pin_detected, pin_image, pin_images, upload_images,
}

after_same :
    {A B : Type 0} (f g : A → M B) (r : Result A) (v : World)
    → ((a : A) (u : World) → f a u ≡ g a u)
    → (elim r as (λ _. Result B × World) [ ok a ↦ f a v | err e ↦ (err e, v) ])
      ≡ (elim r as (λ _. Result B × World) [ ok a ↦ g a v | err e ↦ (err e, v) ])
after_same f g (ok a) v k = k a v
after_same f g (err e) v k = refl

-- Two methods that start alike and go on alike are alike.
bind_same :
    {A B : Type 0} (m n : M A) (f g : A → M B) (w : World)
    → m w ≡ n w
    → ((a : A) (u : World) → f a u ≡ g a u)
    → (m >>= f) w ≡ (n >>= g) w
bind_same {A} {B} m n f g w e k =
    ap (λ z. elim z.0 as (λ _. Result B × World) [ ok a ↦ f a z.1 | err e ↦ (err e, z.1) ]) e
    ∙ after_same f g (n w).0 (n w).1 k

module _ {Payload : Type 0} (file_type : List ℕ → Option Str) (a b : IpfsAdapter Payload) where
  -- The two services do the same with bytes that are small enough and whose type is one of these.
  unfoldable pub Agree : List Str → Type 0
  Agree accepted =
      (bytes : List ℕ) (filename mime : Str) (w : World)
      → ltb max_bytes (length bytes) ≡ false
      → file_type bytes ≡ some mime
      → has accepted mime ≡ true
      → a.pin_bytes bytes filename mime w ≡ b.pin_bytes bytes filename mime w

  detected_same :
      (accepted : List Str) (f : UploadedFile) (o : Option Str) (w : World)
      → Agree accepted
      → ltb max_bytes (length f.buffer) ≡ false
      → file_type f.buffer ≡ o
      → pin_detected file_type a accepted f o w ≡ pin_detected file_type b accepted f o w
  unfolding Agree
  detected_same accepted f none w k small e = refl
  detected_same accepted f (some mime) w k small e = elim (Bool-cases (has accepted mime)) [
    | inl h ↦ rw h (k f.buffer f.originalname mime w small e h)
    | inr h ↦ rw h refl
  ]

  pin_file_same :
      (accepted : List Str) (f : UploadedFile) (w : World)
      → Agree accepted
      → pin_file file_type a accepted f w ≡ pin_file file_type b accepted f w
  unfolding pin_file
  pin_file_same accepted f w k = elim (Bool-cases (ltb max_bytes (length f.buffer))) [
    | inl h ↦ ground (arith, h)
    | inr h ↦ ground (arith, h, detected_same accepted f (file_type f.buffer) w k h refl)
  ]

  pin_images_same :
      (fs : List UploadedFile) (w : World)
      → Agree accepted_image_mimes
      → pin_images file_type a fs w ≡ pin_images file_type b fs w
  unfolding pin_images pin_image
  pin_images_same [] w k = refl
  pin_images_same (f ∷ fs) w k =
      bind_same (pin_image file_type a f) (pin_image file_type b f)
        (λ r. pin_images file_type a fs >>= λ rs. pure (r ∷ rs))
        (λ r. pin_images file_type b fs >>= λ rs. pure (r ∷ rs)) w
        (pin_file_same accepted_image_mimes f w k)
        λ r u.
          bind_same (pin_images file_type a fs) (pin_images file_type b fs) (λ rs. pure (r ∷ rs))
            (λ rs. pure (r ∷ rs)) u (pin_images_same fs u k) (λ rs v. refl)

  module _ (x : Outside) (env : Env) where
    -- the rest of the handler, which no longer calls the service
    abbrev stored : ProjectDoc → List PinResult → M (List Str)
    stored d rs = do
      save_project x env (record d { image_urls = d.image_urls ++ map (λ r. r.url) rs })
      pure (map (λ r. r.url) rs)

    -- An upload of images shows nothing to the pinning service but files of at most ten megabytes whose
    -- bytes show one of the accepted image types: two services that agree on those give the same answer
    -- and the same state, whatever they would do with other files.
    pub upload_images-gated :
        (producer_id phi : Str) (files : List UploadedFile) (w : World)
        → Agree accepted_image_mimes
        → upload_images file_type a x env producer_id phi files w
          ≡ upload_images file_type b x env producer_id phi files w
    unfolding upload_images
    upload_images-gated producer_id phi files w k =
        bind_same (find_owned_by_producer x env producer_id phi)
          (find_owned_by_producer x env producer_id phi)
          (λ d. pin_images file_type a files >>= stored d)
          (λ d. pin_images file_type b files >>= stored d) w refl
          λ d u.
            bind_same (pin_images file_type a files) (pin_images file_type b files) (stored d)
              (stored d) u (pin_images_same files u k) (λ rs v. refl)
