-- ===== src/Tests/Files.antt =====
-- An image that is pinned for the farmer's project.
use qr_blockchain_anticounte.Prelude.{
  ℕ, Str, codes, ◌≡◌, refl, some, [], ◌∷◌, List, Option, arith, true, ltb, length, if◌then◌else◌,
}
use qr_blockchain_anticounte.Fixtures.{calm, settings, planted, field, farmer, phi_text}
use qr_blockchain_anticounte.Errors.{domain, payload_too_large}
use qr_blockchain_anticounte.Documents.{ProjectDoc}
use qr_blockchain_anticounte.World.{ok, ticked, throw}
use qr_blockchain_anticounte.Projects.{project_is_valid, find_live}
use qr_blockchain_anticounte.Uploads.{
  IpfsAdapter, mock_adapter, deterministic, UploadedFile, PinResult, has, pin_file, pin_image,
  pin_images, upload_images, with_images, max_bytes, accepted_image_mimes,
}
use qr_blockchain_anticounte.Uploads.Gate.{Agree, upload_images-gated}
use qr_blockchain_anticounte.Uploads.RoundTrip.{upload_images-Stored}
use qr_blockchain_anticounte.Tests.Scans.{running}
use qr_blockchain_anticounte.Tests.Hub.{field-Stored}

abbrev sniffed : List ℕ → Option Str
sniffed _ = some (codes "image/png")

abbrev service : IpfsAdapter (Unit {0})
service = mock_adapter (λ _. []) (λ s. s) calm

-- the same service, which refuses what is too large
abbrev picky : IpfsAdapter (Unit {0})
picky = record {
  pin_bytes = λ bytes filename mime_type.
      if ltb max_bytes (length bytes)
      then throw (domain (payload_too_large (length bytes)))
      else service.pin_bytes bytes filename mime_type;
  pin_json = service.pin_json;
}

abbrev photo : UploadedFile
photo = record { buffer = 1 ∷ 2 ∷ []; originalname = codes "field.png" }

same_services : Agree sniffed service picky accepted_image_mimes
unfolding Agree
same_services bytes filename mime w small shown known = ground (arith, small)

upload_images-gated_example :
    upload_images sniffed service calm settings farmer.id phi_text (photo ∷ []) planted
    ≡ upload_images sniffed picky calm settings farmer.id phi_text (photo ∷ []) planted
upload_images-gated_example =
    upload_images-gated sniffed service picky calm settings farmer.id phi_text (photo ∷ []) planted
      same_services

abbrev photo_pin : PinResult
photo_pin = record { cid = codes "bamock5a17"; url = codes "ipfs://bamock5a17" }

photo_run :
    pin_images sniffed service (photo ∷ []) (ticked planted) ≡ (ok (photo_pin ∷ []), ticked planted)
unfolding running pin_images pin_image pin_file has deterministic
photo_run = refl

photo_valid :
    project_is_valid (with_images sniffed service calm settings (photo_pin.url ∷ []) field) ≡ true
unfolding running project_is_valid
photo_valid = refl

upload_images-Stored_example :
    let r = upload_images sniffed service calm settings farmer.id phi_text (photo ∷ []) planted in
    (r.0 ≡ ok (photo_pin.url ∷ []))
    × ((doc : ProjectDoc) × (find_live phi_text r.1.projects ≡ some doc)
        × (doc.image_urls ≡ photo_pin.url ∷ []))
upload_images-Stored_example =
    upload_images-Stored sniffed service calm settings (λ _. refl) phi_text (photo ∷ []) field
      planted (photo_pin ∷ []) field-Stored photo_run photo_valid
