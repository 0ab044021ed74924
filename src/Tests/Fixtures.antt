-- ===== src/Tests/Fixtures.antt =====
-- What the tests share: a host, an empty state, a ledger and some commands.
use fincore_ledger.Prelude.{ByteString, codes, true, false, Option, none, some, List, [], ◌∷◌}
use fincore_ledger.Prelude.Int.{pos}
use fincore_ledger.Storage.Records.{LedgerRecord}
use fincore_ledger.Storage.World.{World, Tables}
use fincore_ledger.Planner.Inputs.{Host, PostingInput, BatchIntent}
use fincore_ledger.System.{Command, create_ledger, post, seal_ledger}

abbrev pub host : Host
host = record {
  sha256 = λ x. x;
  format_time = λ t. t ∷ [];
  is_float = λ s. true;
  marshal_metadata = λ m. [];
  base64 = λ x. x;
  compile = λ s. none;
  parse_json = λ s. none;
  has_subscribers = false;
}

abbrev pub decode : ByteString → Option BatchIntent
decode s = none

abbrev pub no_tables : Tables
no_tables = record {
  ledgers = [];
  log_events = [];
  idempotency_keys = [];
  accounts = [];
  transactions = [];
  volumes = [];
  schemas = [];
  metadata_history = [];
  holds = [];
  relationships = [];
  policies = [];
  approvals = [];
}

abbrev pub fresh : World
fresh = record {
  tables = no_tables;
  aborted = false;
  batches = [];
  open_batch = [];
  closing = [];
  cache = [];
  published = [];
  clock = 1000;
  ulid = λ n. n ∷ [];
  minted = 0;
  faults = [];
}

abbrev pub main_ledger : LedgerRecord
main_ledger = record {
  id = codes "main";
  bucket_id = codes "_default";
  state = codes "in-use";
  features = [];
  metadata = [];
  created_at = 1000;
  sealed_at = none;
  issuer_accounts = codes "_world" ∷ [];
}

abbrev pub funding : PostingInput
funding = record {
  source = codes "_world";
  destination = codes "users:1";
  amount = some (pos 500);
  asset = codes "USD/2";
}

abbrev pub commands : List Command
commands =
    create_ledger (codes "main") [] []
    ∷ post (codes "main") (funding ∷ []) [] [] [] none false
    ∷ post (codes "main") (funding ∷ []) [] [] (codes "key") none false
    ∷ seal_ledger (codes "main")
    ∷ []
