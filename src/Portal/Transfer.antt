-- ===== src/Portal/Transfer.antt =====
-- Batches and uploads of the management portal, apps/management-portal/src/lib/batch-api.ts and
-- sub-resource-api.ts: what becomes of the hub's answers.
use qr_blockchain_anticounte.Prelude.{
  ℕ, Str, codes, ◌++◌, starts_with, Option, none, some, List, [], ◌∷◌, ◌==◌, if◌then◌else◌, get_or,
  take, drop,
}
use qr_blockchain_anticounte.Portal.Client.{ErrorFields, is_ok, no_fields, get_header}

-- The raw answer to a batch: its status, headers, body and the `error` object of its JSON.
pub record BatchResponse : Type 0 where
  pub status : ℕ
  pub headers : List (Str × Str)
  pub blob : List ℕ
  pub error : Option ErrorFields

pub record Download : Type 0 where
  pub blob : List ℕ
  pub filename : Str
  pub tx_hash : Option Str

pub data BatchResult : Type 0 where
  downloaded : Download → BatchResult
  batch_failed : (status : ℕ) → (code : Str) → BatchResult

-- the units before the next quotation mark, if there is one and they are not none
abbrev non_empty : Str → Option Str
non_empty [] = none
non_empty (c ∷ s) = some (c ∷ s)

unfoldable pub quoted : (acc : Str) → Str → Option Str
quoted acc [] = none
quoted acc (c ∷ s) =
    let rest = quoted (acc ++ c ∷ []) s in if c == b'"' then non_empty acc else rest

-- `/filename="([^"]+)"/`: the first place where it matches
unfoldable pub filename_in : Str → Option Str
filename_in [] = none
filename_in (c ∷ s) =
    let rest = filename_in s in
    let here = quoted [] (drop 9 s) in
    if starts_with (c ∷ s) (codes "filename=\"")
    then elim here [ some f ↦ some f | none ↦ rest ]
    else rest

abbrev pub truthy_text : Option Str → Option Str
truthy_text none = none
truthy_text (some s) = non_empty s

unfoldable pub post_batch : (phi : Str) → BatchResponse → BatchResult
post_batch phi res =
    if is_ok res.status
    then downloaded (record {
      blob = res.blob;
      filename =
          get_or (codes "batch-" ++ (take 10 phi ++ codes ".zip"))
            (filename_in (get_or [] (get_header (codes "Content-Disposition") res.headers)));
      tx_hash = truthy_text (get_header (codes "X-Tx-Hash") res.headers);
    })
    else batch_failed res.status (get_or (codes "UNKNOWN") (get_or no_fields res.error).code)

-- `listBatches` shows no batch when the hub refuses.
unfoldable pub list_batches : {A : Type 0} → (status : ℕ) → List A → List A
list_batches status items = if is_ok status then items else []

-- The end of an upload: its status and what its text is as JSON, an error of the network, or `abort`.
pub data UploadEnd (A : Type 0) : Type 0 where
  loaded : (status : ℕ) → (json : Option A) → UploadEnd A
  network_error aborted : UploadEnd A

pub data Uploaded (A : Type 0) : Type 0 where
  resolved : A → Uploaded A
  rejected : Str → Uploaded A

abbrev pub or_rejected : {A : Type 0} → Option A → Uploaded A
or_rejected none = rejected (codes "upload returned invalid JSON")
or_rejected (some a) = resolved a

-- `uploadCertPdf`, and `uploadImages`, which takes no JSON for no items
unfoldable pub upload_cert_pdf : {A : Type 0} → (number : ℕ → Str) → UploadEnd A → Uploaded A
upload_cert_pdf number (loaded status json) =
    if is_ok status
    then or_rejected json
    else rejected (codes "cert upload failed: " ++ number status)
upload_cert_pdf number network_error = rejected (codes "upload network error")
upload_cert_pdf number aborted = rejected (codes "upload cancelled")

unfoldable pub upload_images :
    {A : Type 0} → (number : ℕ → Str) → (no_items : A) → UploadEnd A → Uploaded A
upload_images number no_items (loaded status json) =
    if is_ok status
    then resolved (get_or no_items json)
    else rejected (codes "upload failed: " ++ number status)
upload_images number no_items network_error = rejected (codes "upload network error")
upload_images number no_items aborted = rejected (codes "upload cancelled")
