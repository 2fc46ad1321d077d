-- ===== src/Tests/Calm.antt =====
-- A private scan on the calm outside, and a batch and a project that are put on its chain.
use qr_blockchain_anticounte.Documents.{pos}
use qr_blockchain_anticounte.Prelude.{ℕ, codes, refl, none, [], arith, List}
use qr_blockchain_anticounte.Fixtures.{
  calm, settings, start, scan_input, anonymous, stocked, farmer, field, phi_text,
}
use qr_blockchain_anticounte.World.{Outside}
use qr_blockchain_anticounte.World.Runs.{Runs}
use qr_blockchain_anticounte.World.Reaching.{Reaches}
use qr_blockchain_anticounte.Hex.{hex_to_bytes}
use qr_blockchain_anticounte.Registry.Invariant.{IsValid}
use qr_blockchain_anticounte.Registry.Status.{fresh}
use qr_blockchain_anticounte.Contract.Runs.{IsCalm}
use qr_blockchain_anticounte.Contract.Registered.{Created}
use qr_blockchain_anticounte.Scan.{private_scan, hash_sid}
use qr_blockchain_anticounte.Scan.Answers.{IsReadable, Follows}
use qr_blockchain_anticounte.Scan.Refinement.{private_scan-Follows}
use qr_blockchain_anticounte.Projects.{CreateProjectDto, create}
use qr_blockchain_anticounte.Projects.Registration.{create-Created}
use qr_blockchain_anticounte.Batches.{generate}
use qr_blockchain_anticounte.Batches.Registration.{IsDigest, OnChain, generate-OnChain}
use qr_blockchain_anticounte.Tests.Scans.{running}

calm-IsCalm : IsCalm calm
unfolding running
calm-IsCalm = record {
  answers = λ _. refl;
  alone = λ _. refl;
  receipts = λ _. refl;
  stores = λ _. refl;
  hashes = λ _. refl;
}

calm-IsReadable : IsReadable calm settings scan_input 5
unfolding running
calm-IsReadable = record {
  coded = refl;
  shaped = refl;
  hash_coded = refl;
  hash_shaped = refl;
  salted = λ _. refl;
  paid = refl;
}

stocked-IsValid : IsValid stocked
stocked-IsValid = record {
  counted = refl;
  once = λ _ _. refl;
  real = λ _ _ e. cc;
  owned = λ phi h e. ground (arith, e);
}

private_scan-Follows_example :
    Runs
      (private_scan calm settings (codes "fallback") scan_input anonymous)
      start
      (Follows 5 3 phi_text (hash_sid calm settings (hex_to_bytes scan_input.secret_id)) fresh [])
unfolding running
private_scan-Follows_example =
    private_scan-Follows calm settings (codes "fallback") calm-IsCalm scan_input 5 calm-IsReadable
      anonymous start refl stocked-IsValid tt (λ c e. cc)

-- an outside whose hash function sends everything to 7
abbrev one_hash : Outside
one_hash = record calm { sha256 = λ _. 7 }

one_hash-IsDigest : IsDigest one_hash
unfolding running
one_hash-IsDigest = record { word = λ _. refl }

abbrev no_bytes : {A : Type 0} → A → List ℕ
no_bytes _ = []

generate-OnChain_example :
    Reaches
      (λ g _ s'.
        OnChain one_hash settings no_bytes no_bytes no_bytes phi_text g.manifest.entries s')
      (generate one_hash settings no_bytes no_bytes no_bytes farmer.id phi_text 1 none)
generate-OnChain_example =
    generate-OnChain one_hash settings no_bytes no_bytes no_bytes one_hash-IsDigest farmer.id
      phi_text 1 none

abbrev pub spring : CreateProjectDto
spring = record {
  cooperative_name = field.cooperative_name;
  vegetable_type = field.vegetable_type;
  cultivation_location = field.cultivation_location;
  start_date = 0;
  harvest_date = 1;
  cultivation_area = pos 1;
  expected_output = pos 1;
  description = [];
}

create-Created_example :
    Reaches (λ d. Created calm d.project_id) (create calm settings farmer.id spring)
create-Created_example = create-Created calm settings farmer.id spring
