-- ===== src/Uploads.antt =====
-- apps/coordination-hub/src/uploads: pinning images and certificates to IPFS (uploads.service.ts, the
-- three adapters, uploads.controller.ts and cert-uploads.controller.ts).
pub mod Gate
pub mod RoundTrip
use qr_blockchain_anticounte.Prelude.{
  ℕ, ◌*◌, Str, codes, ◌++◌, str_eq, Option, none, some, List, [], ◌∷◌, Bool, true, false, ltb,
  if◌then◌else◌, length, take, map, get_or,
}
use qr_blockchain_anticounte.Errors.{
  domain, js, plain_error, unsupported_media_type, payload_too_large,
}
use qr_blockchain_anticounte.Documents.{ProjectDoc}
use qr_blockchain_anticounte.World.{Outside, Env, World, M, pure, throw, ◌>>=◌, ◌>>◌, throw_unless}
use qr_blockchain_anticounte.Wallet.{is_set}
use qr_blockchain_anticounte.Projects.{find_owned_by_producer, save_project}

pub record PinResult : Type 0 where
  pub cid : Str
  pub url : Str

abbrev pub pinned : (cid : Str) → PinResult
pinned cid = record { cid = cid; url = codes "ipfs://" ++ cid }

-- The interface of the adapters; a payload is whatever `JSON.stringify` takes.
pub record IpfsAdapter (Payload : Type 0) : Type 1 where
  pub pin_bytes : (bytes : List ℕ) → (filename mime_type : Str) → M PinResult
  pub pin_json : Payload → (name : Str) → M PinResult

-- the body of a request to Pinata, and what `fetch` answers
pub data PinataBody (Payload : Type 0) : Type 0 where
  form : (bytes : List ℕ) → (filename mime_type : Str) → PinataBody Payload
  json : (name : Str) → Payload → PinataBody Payload

pub record PinataResponse : Type 0 where
  pub ok : Bool
  pub ipfs_hash : Str

-- `JSON.stringify`, and `new TextEncoder().encode`
module _ {Payload : Type 0} (stringify : Payload → Str) (encode : Str → List ℕ) where
  module _ (x : Outside) where
    unfoldable pub deterministic : (bytes : List ℕ) → PinResult
    deterministic bytes = pinned (codes "bamock" ++ take 50 (x.sha256_hex bytes))

    abbrev pub mock_adapter : IpfsAdapter Payload
    mock_adapter = record {
      pin_bytes = λ bytes _ _. pure (deterministic bytes);
      pin_json = λ payload _. pure (deterministic (encode (stringify payload)));
    }

  -- `client.add(bytes)` answers a CID; there is no client when the library failed to load
  unfoldable pub kubo_pin_bytes : Option (List ℕ → M Str) → List ℕ → M PinResult
  kubo_pin_bytes none bytes = throw (js (plain_error (codes "Kubo IPFS client not initialised")))
  kubo_pin_bytes (some add) bytes = do cid ← add bytes; pure (pinned cid)

  abbrev pub kubo_adapter : Option (List ℕ → M Str) → IpfsAdapter Payload
  kubo_adapter client = record {
    pin_bytes = λ bytes _ _. kubo_pin_bytes client bytes;
    pin_json = λ payload _. kubo_pin_bytes client (encode (stringify payload));
  }

  module _ (pinata_jwt : Option Str)
      (fetch : (url jwt : Str) → PinataBody Payload → M PinataResponse) where
    abbrev pub pinata_base : Str
    pinata_base = codes "https://api.pinata.cloud/pinning"

    unfoldable pub require_jwt : M Str
    require_jwt =
        throw_unless (is_set pinata_jwt)
          (js (plain_error (codes "PINATA_JWT env var is required when IPFS_PROVIDER=pinata")))
        >> pure (get_or [] pinata_jwt)

    unfoldable pub pinata_pin : (path failure : Str) → PinataBody Payload → M PinResult
    pinata_pin path failure body = do
      jwt ← require_jwt
      res ← fetch (pinata_base ++ path) jwt body
      throw_unless res.ok (js (plain_error failure))
      pure (pinned res.ipfs_hash)

    abbrev pub pinata_adapter : IpfsAdapter Payload
    pinata_adapter = record {
      pin_bytes = λ bytes filename mime_type.
          pinata_pin (codes "/pinFileToIPFS") (codes "Pinata pinFile failed")
            (form bytes filename mime_type);
      pin_json = λ payload name.
          pinata_pin (codes "/pinJSONToIPFS") (codes "Pinata pinJSON failed") (json name payload);
    }

abbrev pub accepted_image_mimes : List Str
accepted_image_mimes =
    codes "image/jpeg" ∷ codes "image/png" ∷ codes "image/webp" ∷ codes "image/avif" ∷ []

abbrev pub accepted_pdf_mimes : List Str
accepted_pdf_mimes = codes "application/pdf" ∷ []

abbrev pub max_bytes : ℕ
max_bytes = 10 * 1024 * 1024

-- `accepted.has(mime)`
unfoldable pub has : List Str → Str → Bool
has [] mime = false
has (m ∷ ms) mime = if str_eq m mime then true else has ms mime

pub record UploadedFile : Type 0 where
  pub buffer : List ℕ
  pub originalname : Str

-- `file_type` is `fileTypeFromBuffer` of the library file-type: the MIME type that the bytes show.
module _ {Payload : Type 0} (file_type : List ℕ → Option Str) (adapter : IpfsAdapter Payload) where
  abbrev pub pin_detected : List Str → UploadedFile → Option Str → M PinResult
  pin_detected accepted f none = throw (domain (unsupported_media_type none))
  pin_detected accepted f (some mime) =
      if has accepted mime
      then adapter.pin_bytes f.buffer f.originalname mime
      else throw (domain (unsupported_media_type (some mime)))

  unfoldable pub pin_file : List Str → UploadedFile → M PinResult
  pin_file accepted f =
      if ltb max_bytes (length f.buffer)
      then throw (domain (payload_too_large (length f.buffer)))
      else pin_detected accepted f (file_type f.buffer)

  unfoldable pub pin_image : UploadedFile → M PinResult
  pin_image f = pin_file accepted_image_mimes f

  unfoldable pub pin_pdf : UploadedFile → M PinResult
  pin_pdf f = pin_file accepted_pdf_mimes f

  -- `Promise.all` over the files; here they are pinned one after the other
  unfoldable pub pin_images : List UploadedFile → M (List PinResult)
  pin_images [] = pure []
  pin_images (f ∷ fs) = do r ← pin_image f; rs ← pin_images fs; pure (r ∷ rs)

  module _ (x : Outside) (env : Env) where
    abbrev pub with_images : List Str → ProjectDoc → ProjectDoc
    with_images urls d = record d { image_urls = d.image_urls ++ urls }

    unfoldable pub upload_images : (producer_id phi : Str) → List UploadedFile → M (List Str)
    upload_images producer_id phi files = do
      project ← find_owned_by_producer x env producer_id phi
      results ← pin_images files
      save_project x env (with_images (map (λ r. r.url) results) project)
      pure (map (λ r. r.url) results)

    abbrev pub pin_given : Option UploadedFile → M Str
    pin_given none = throw (js (plain_error (codes "file is required")))
    pin_given (some f) = do r ← pin_pdf f; pure r.url

    unfoldable pub upload_certificate : (producer_id phi : Str) → Option UploadedFile → M Str
    upload_certificate producer_id phi file =
        find_owned_by_producer x env producer_id phi >> pin_given file
