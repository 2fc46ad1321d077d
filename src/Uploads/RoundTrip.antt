-- ===== src/Uploads/RoundTrip.antt =====
-- What an upload of images leaves in the project (apps/coordination-hub/src/uploads).
use qr_blockchain_anticounte.Prelude.{
  ℕ, Str, ◌≡◌, refl, none, some, Option, List, ◌++◌, map, true, arith,
}
use qr_blockchain_anticounte.Documents.{ProjectDoc}
use qr_blockchain_anticounte.World.{Outside, Env, World, ok, ticked}
use qr_blockchain_anticounte.Projects.{project_is_valid, find_live}
use qr_blockchain_anticounte.Projects.Store.{Stored, find_live-is_live}
use qr_blockchain_anticounte.Projects.Access.{find_owned_of_owner, save_project-Stored}
use qr_blockchain_anticounte.Uploads.{
  IpfsAdapter, UploadedFile, PinResult, pin_images, with_images, upload_images,
}

module _ {Payload : Type 0} (file_type : List ℕ → Option Str) (adapter : IpfsAdapter Payload)
    (x : Outside) (env : Env) (quiet : (t : ℕ) → x.db t ≡ none) where
  abbrev pub urls_of : List PinResult → List Str
  urls_of rs = map (λ r. r.url) rs

  -- When the database answers and the service pins the files without changing the hub's state, the
  -- owner of a live project gets the files' addresses, and the project that is read next shows them
  -- after those that were there.
  pub upload_images-Stored :
      (phi : Str) (files : List UploadedFile) (d : ProjectDoc) (w : World) (rs : List PinResult)
      → Stored phi w.projects d
      → pin_images file_type adapter files (ticked w) ≡ (ok rs, ticked w)
      → project_is_valid (with_images file_type adapter x env (urls_of rs) d) ≡ true
      → let r = upload_images file_type adapter x env d.owner_producer_id phi files w in
        (r.0 ≡ ok (urls_of rs))
        × ((doc : ProjectDoc) × (find_live phi r.1.projects ≡ some doc)
            × (doc.image_urls ≡ d.image_urls ++ urls_of rs))
  unfolding upload_images
  upload_images-Stored phi files d w rs s pinned valid =
      let v = ticked w in
      let next = with_images file_type adapter x env (urls_of rs) d in
      let looked = find_owned_of_owner x env phi d w (quiet w.tick) s.live in
      let (ran, after) =
        save_project-Stored x env phi d next v (quiet v.tick) s refl
          (find_live-is_live phi w.projects d s.live) valid in
      let saved = record next { updated_at = x.clock v.tick } in
      (
        ground (arith, looked, ran, pinned),
        (saved, ground (arith, looked, ran, pinned, after.live), refl),
      )
