-- ===== src/Contract/Chain.antt =====
-- What ethers and the node do with a call: a view call, the sending of a transaction, the wait for its
-- receipt, and the reading of a block. Before each of them the transactions of others are mined.
use qr_blockchain_anticounte.Prelude.{ℕ, ◌+◌, Str, Option, none, some, if◌then◌else◌}
use qr_blockchain_anticounte.Errors.{js}
use qr_blockchain_anticounte.Registry.{
  Storage, Tx, Mined, done, reverted, execute, settle, apply_tx, apply_all,
}
use qr_blockchain_anticounte.World.{Outside, World, Net, up, fail, lost, M, Result, ok, err}

pub record Receipt : Type 0 where
  pub hash : Str
  pub block_number : ℕ

-- The answer, if it gets back.
abbrev pub answered : {A : Type 0} → Net → Result A → World → Result A × World
answered up r w = (r, w)
answered (fail e) r w = (err (js e), w)
answered (lost e) r w = (err (js e), w)

module _ (x : Outside) where
  -- The transactions of others are mined, and the call is counted.
  abbrev pub advance : World → World
  advance w = record w {
    registry = apply_all x.sha256 (x.others w.tick) (x.block_time w.tick) w.registry;
    tick = w.tick + 1;
  }

  unfoldable pub eth_call : {A : Type 0} → (Storage → A) → M A
  eth_call f w = let w' = advance w in answered (x.net w.tick) (ok (f w'.registry)) w'

  -- A `bytes32` argument is encoded before anything is sent.
  unfoldable pub encode_bytes32 : Str → M ℕ
  encode_bytes32 text w = elim (x.bytes32 text) [
    | none ↦ (err (js x.invalid_argument), w)
    | some word ↦ (ok word, w)
  ]

  abbrev pub estimate : Mined → Result (Unit {0})
  estimate (done _) = ok tt
  estimate (reverted r) = err (js (x.revert_error r))

  -- The gas estimate runs the transaction on the state of that moment; only a call that passes it is
  -- broadcast. When the answer to the broadcast is lost, the transaction is mined all the same.
  abbrev pub sent : Net → Tx → (now : ℕ) → World → Result (Unit {0}) × World
  sent up t now w = (estimate (execute x.sha256 t now w.registry), w)
  sent (fail e) t now w = (err (js e), w)
  sent (lost e) t now w = (err (js e), record w { registry = apply_tx x.sha256 t now w.registry })

  unfoldable pub send_transaction : Tx → M (Unit {0})
  send_transaction t w = sent (x.net w.tick) t (x.block_time w.tick) (advance w)

  abbrev pub receipt_of : Mined → (tick : ℕ) → Result (Option Receipt)
  receipt_of (reverted _) tick = err (js x.mined_revert)
  receipt_of (done _) tick = ok (
      if x.has_receipt tick
      then some (record { hash = x.tx_hash tick; block_number = tick })
      else none)

  -- `tx.wait`: the transaction is mined, after those of others, whether or not the answer gets back.
  unfoldable pub wait_receipt : Tx → M (Option Receipt)
  wait_receipt t w =
      let w' = advance w in
      let m = execute x.sha256 t (x.block_time w.tick) w'.registry in
      answered (x.net w.tick) (receipt_of m w.tick) (record w' { registry = settle m w'.registry })

  -- `provider.getBlock(number)`, its timestamp
  unfoldable pub get_block : ℕ → M (Option ℕ)
  get_block n w =
      answered (x.net w.tick) (ok (if x.has_block w.tick then some (x.block_time n) else none))
        (advance w)
