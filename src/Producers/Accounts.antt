-- ===== src/Producers/Accounts.antt =====
-- The account that an e-mail address finds in the collection of producers, and what an update by id
-- (apps/coordination-hub/src/producers/producers.service.ts) does to it.
use qr_blockchain_anticounte.Prelude.{Str, str_eq, ◌≡◌, ap, some, List, [], ◌∷◌, true, find, arith}
use qr_blockchain_anticounte.Documents.{ProducerDoc}
use qr_blockchain_anticounte.Producers.{by_id, by_email, update_by_id}

-- The document is the one that the address finds, and the one that its own id finds.
pub record Account (email : Str) (ds : List ProducerDoc) (doc : ProducerDoc) : Type 0 where
  pub named : by_email email ds ≡ some doc
  pub stored : by_id doc.id ds ≡ some doc

by_email-email :
    (email : Str) (ds : List ProducerDoc) (d : ProducerDoc)
    → by_email email ds ≡ some d
    → str_eq d.email email ≡ true
unfolding by_email find
by_email-email email [] d e = cc
by_email-email email (c ∷ ds) d e = ground (arith, by_email-email email ds d)

by_id-id :
    (id : Str) (ds : List ProducerDoc) (d : ProducerDoc)
    → by_id id ds ≡ some d
    → str_eq d.id id ≡ true
unfolding by_id find
by_id-id id [] d e = cc
by_id-id id (c ∷ ds) d e = ground (arith, by_id-id id ds d)

-- The update keeps the ids and the addresses.
pub record Keeps (f : ProducerDoc → ProducerDoc) : Type 0 where
  pub id : (d : ProducerDoc) → (f d).id ≡ d.id
  pub email : (d : ProducerDoc) → (f d).email ≡ d.email

module _ (f : ProducerDoc → ProducerDoc) (keeps : Keeps f) where
  pub by_id-update_by_id :
      (id : Str) (ds : List ProducerDoc) (d : ProducerDoc)
      → by_id id ds ≡ some d
      → by_id id (update_by_id id f ds) ≡ some (f d)
  unfolding by_id find update_by_id
  by_id-update_by_id id [] d e = cc
  by_id-update_by_id id (c ∷ ds) d e =
      ground (
        arith,
        by_id-update_by_id id ds d,
        ap (λ i. str_eq i id) (keeps.id c),
        ap f {x = c} {y = d},
      )

  by_email-update_by_id :
      (email id : Str) (ds : List ProducerDoc) (d : ProducerDoc)
      → by_email email ds ≡ some d
      → by_id id ds ≡ some d
      → by_email email (update_by_id id f ds) ≡ some (f d)
  unfolding by_email by_id find update_by_id
  by_email-update_by_id email id [] d e k = cc
  by_email-update_by_id email id (c ∷ ds) d e k = ground (
    arith,
    by_email-update_by_id email id ds d,
    by_email-email email (c ∷ ds) d e,
    by_id-id id (c ∷ ds) d k,
    ap (λ i. str_eq i email) (keeps.email c),
  )

  pub update-Account :
      (email : Str) (ds : List ProducerDoc) (d : ProducerDoc)
      → Account email ds d
      → Account email (update_by_id d.id f ds) (f d)
  update-Account email ds d a = record {
    named = by_email-update_by_id email d.id ds d a.named a.stored;
    stored = ground (
      arith,
      by_id-update_by_id d.id ds d a.stored,
      ap (λ i. by_id i (update_by_id d.id f ds)) (keeps.id d),
    );
  }
