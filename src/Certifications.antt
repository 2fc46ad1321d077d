-- ===== src/Certifications.antt =====
-- apps/coordination-hub/src/certifications/certifications.service.ts: the certifications that a
-- producer keeps in a project of its own.
use qr_blockchain_anticounte.Prelude.{
  ℕ, Str, Option, none, some, List, [], ◌∷◌, ◌++◌, get_or, or_else,
}
use qr_blockchain_anticounte.Errors.{domain, certification_not_found}
use qr_blockchain_anticounte.Documents.{ProjectDoc, Certification}
use qr_blockchain_anticounte.World.{Outside, Env, M, ok, pure, throw, ◌>>=◌, ◌>>◌, ticked}
use qr_blockchain_anticounte.Projects.{find_owned_by_producer, save_project}
use qr_blockchain_anticounte.Subdocs.{sub_by_id, change_sub, remove_sub}

pub record CreateCertificationDto : Type 0 where
  pub name : Str
  pub issuer : Str
  pub issue_date : ℕ
  pub expiry_date : Option ℕ
  pub document_url : Option Str

pub record UpdateCertificationDto : Type 0 where
  pub name : Option Str
  pub issuer : Option Str
  pub issue_date : Option ℕ
  pub expiry_date : Option ℕ
  pub document_url : Option Str

abbrev pub certification_id : Certification → Str
certification_id a = a.id

abbrev pub new_certification : (id : Str) → CreateCertificationDto → Certification
new_certification id dto = record {
  id = id;
  name = dto.name;
  issuer = dto.issuer;
  issue_date = dto.issue_date;
  expiry_date = dto.expiry_date;
  document_url = dto.document_url;
}

-- `Object.assign(subdoc, dto)`
abbrev pub assign_certification : UpdateCertificationDto → Certification → Certification
assign_certification u c = record c {
  name = get_or c.name u.name;
  issuer = get_or c.issuer u.issuer;
  issue_date = get_or c.issue_date u.issue_date;
  expiry_date = or_else u.expiry_date c.expiry_date;
  document_url = or_else u.document_url c.document_url;
}

abbrev pub with_certification : Certification → ProjectDoc → ProjectDoc
with_certification a d = record d { certifications = d.certifications ++ a ∷ [] }

abbrev pub changed_certification : (id : Str) → UpdateCertificationDto → ProjectDoc → ProjectDoc
changed_certification id u d = record d {
  certifications = change_sub certification_id id (assign_certification u) d.certifications;
}

abbrev pub without_certification : (id : Str) → ProjectDoc → ProjectDoc
without_certification id d = record d {
  certifications = remove_sub certification_id id d.certifications;
}

module _ (x : Outside) (env : Env) where
  -- the id that mongoose gives a new embedded document
  unfoldable pub certification_fresh_id : M Str
  certification_fresh_id w = (ok (x.new_id w.tick), ticked w)

  unfoldable pub add_certification : (producer_id phi : Str) → CreateCertificationDto → M Str
  add_certification producer_id phi dto = do
    doc ← find_owned_by_producer x env producer_id phi
    id ← certification_fresh_id
    save_project x env (with_certification (new_certification id dto) doc)
    pure id

  abbrev pub found_certification : (id : Str) → Option Certification → M (Unit {0})
  found_certification id none = throw (domain (certification_not_found id))
  found_certification id (some _) = pure tt

  unfoldable pub update_certification :
      (producer_id phi certification : Str) → UpdateCertificationDto → M (Unit {0})
  update_certification producer_id phi certification dto = do
    doc ← find_owned_by_producer x env producer_id phi
    found_certification certification (sub_by_id certification_id certification doc.certifications)
    save_project x env (changed_certification certification dto doc)
    pure tt

  unfoldable pub remove_certification : (producer_id phi certification : Str) → M (Unit {0})
  remove_certification producer_id phi certification = do
    doc ← find_owned_by_producer x env producer_id phi
    found_certification certification (sub_by_id certification_id certification doc.certifications)
    save_project x env (without_certification certification doc)
    pure tt

  unfoldable pub list_certifications : (producer_id phi : Str) → M (List Certification)
  list_certifications producer_id phi = do
    doc ← find_owned_by_producer x env producer_id phi
    pure doc.certifications
