-- ===== src/Producers/Growth.antt =====
-- The queries of the collection of producers leave the registry alone.
use qr_blockchain_anticounte.Prelude.{ℕ, Str, Option, none, some}
use qr_blockchain_anticounte.World.{Outside}
use qr_blockchain_anticounte.World.Laws.{
  Grows, bind-Grows, pure-Grows, throw-Grows, db_read-Grows, throw_unless-Grows,
}
use qr_blockchain_anticounte.Producers.{find_by_id, or_http}

module _ (x : Outside) where
  or_http-Grows : {A : Type 0} (o : Option A) (status : ℕ) → Grows (or_http o status)
  or_http-Grows {A} none status = throw-Grows A _
  or_http-Grows (some a) status = pure-Grows a

  pub find_by_id-Grows : (id : Str) → Grows (find_by_id x id)
  unfolding find_by_id
  find_by_id-Grows id = search (bind-Grows, throw_unless-Grows, db_read-Grows, or_http-Grows)
