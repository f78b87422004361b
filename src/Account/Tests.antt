-- ===== src/Account/Tests.antt =====
-- Runs of the account's requests, and their theorems at concrete rows.
use stead.Prelude.{
  ℕ, zero, suc, ◌⊎◌, ◌≡◌, refl, subst, true, false, Option, none, some, List, [], ◌∷◌, ok, err,
  Error, arith, inr,
}
use stead.Store.Memory.{memory}
use stead.Auth.Sessions
use stead.Auth.Otp.{User, user_clash, otp_clash, no_clash}
use stead.Goals.{Goal, active}
use stead.Goals
use stead.Transactions.{transaction_clash}
use stead.Alerts.{state_clash}
use stead.Alerts.Evaluation
use stead.Notifications.{
  otp_requested, pending, plain, JobRow, Job, Payload, Content, otp, body, Cipher, shown,
  decrypt_payload, job_clash, attempt_clash, lock_job,
}
use stead.Notifications.Delivery.{Sms}
use stead.Notifications.Consumer.{Poll, cancelled, process_claimed_job}
use stead.Notifications.Deletion.{Blocks, belongs, begin_account_deletion}
use stead.Account.{
  analytics, product_research, AccountDb, AccountTables, AccountResponse, preference_clash,
  record_clash, UpdateConsents, get_account, record_consents, upsert_preference, insert_all,
  update_consents,
}
use stead.Account.Consents.{Ledger, last_granted, update_consents-Ledger}
use stead.Account.Deletion.{Vault, VaultTables, erase_jobs, erase_rows, erase, delete_account}
use stead.Account.Erasure.{is_erased, delete_account-is_erased, delete_account-silent}

abbrev bytes_of : ℕ → Content → List ℕ
bytes_of phone (otp x) = phone ∷ 0 ∷ x ∷ []
bytes_of phone (body x) = phone ∷ 1 ∷ x ∷ []

abbrev seal : ℕ → Payload → Option (ℕ × List ℕ)
seal iv p = some (iv, bytes_of p.phone p.content)

abbrev payload_of : List ℕ → Option Payload
payload_of (phone ∷ zero ∷ x ∷ []) = some (record { phone = phone; content = otp x })
payload_of (phone ∷ suc k ∷ x ∷ []) = some (record { phone = phone; content = body x })
payload_of _ = none

read_back :
    (phone : ℕ) (x : Content)
    → payload_of (bytes_of phone x) ≡ some (record { phone = phone; content = x })
read_back phone (otp x) = refl
read_back phone (body x) = refl

unseal-seal :
    (iv tag : ℕ) (p : Payload) (text : List ℕ)
    → seal iv p ≡ some (tag, text)
    → payload_of text ≡ some p
unseal-seal iv tag p text e =
    let same : bytes_of p.phone p.content ≡ text = ground arith in
    subst (λ w. payload_of w ≡ some p) same (read_back p.phone p.content)

abbrev cipher : Cipher
cipher = record { seal = seal; unseal = λ iv tag text. payload_of text; unseal-seal = unseal-seal }

abbrev tables : AccountTables
tables = record {
  users = memory user_clash;
  preferences = memory preference_clash;
  records = memory record_clash;
}

abbrev ada : User
ada = record { id = 7; phone = 555; display_name = none }

abbrev ben : User
ben = record { id = 8; phone = 556; display_name = none }

abbrev accounts : AccountDb
accounts = record { users = ada ∷ ben ∷ []; preferences = []; records = [] }

abbrev agrees : UpdateConsents
agrees = record { analytics_enabled = some true; product_research_enabled = some false }

abbrev agreed : AccountDb
agreed = record accounts {
  preferences =
      record { user_id = 7; analytics_enabled = true; product_research_enabled = false } ∷ [];
  records = record { user_id = 7; category = analytics; granted = true } ∷ [];
}

abbrev answer : AccountResponse
answer = record { profile = ada; analytics_enabled = true; product_research_enabled = false }

update_consents-Ledger_example :
    Ledger agreed
    × (answer.analytics_enabled ≡ last_granted 7 analytics false agreed.records)
    × (answer.product_research_enabled ≡ last_granted 7 product_research false agreed.records)
unfolding update_consents record_consents upsert_preference insert_all get_account memory
update_consents-Ledger_example =
    update_consents-Ledger tables 7 agrees accounts agreed answer refl ledger
  where
    ledger : Ledger accounts
    ledger user analytics = refl
    ledger user product_research = refl

abbrev all_tables : VaultTables
all_tables = record {
  account = tables;
  otps = memory otp_clash;
  events = memory no_clash;
  tokens = memory Sessions.clash;
  goals = memory Goals.clash;
  transactions = memory transaction_clash;
  states = memory state_clash;
  alert_preferences = memory Evaluation.preference_clash;
  jobs = record { jobs = memory job_clash; failures = memory attempt_clash };
}

-- A message without a user to the phone number of ada.
abbrev message : JobRow
message = record {
  id = 1;
  type = otp_requested;
  payload_json = plain (record { phone = 555; content = otp 1234 });
  status = pending;
  attempts = 0;
  max_attempts = 3;
  next_run_at = 100;
  locked_at = none;
  sent_at = none;
  failed_at = none;
  last_error = none;
  provider = none;
  provider_message_id = none;
  correlation_id = 61;
  user_id = none;
  otp_code_id = none;
  goal_id = none;
  dedupe_key = none;
  created_at = 100;
}

abbrev others : JobRow
others = record message {
  id = 2;
  payload_json = plain (record { phone = 556; content = otp 1235 });
}

abbrev vault : Vault
vault = record {
  account = agreed;
  otps = [];
  events = [];
  tokens = [];
  goals = [];
  transactions = [];
  states = [];
  alert_preferences = [];
  queue = record { jobs = message ∷ others ∷ []; failures = [] };
}

abbrev no_blocks : Blocks
no_blocks = record { accounts = []; phones = []; ids = []; by_account = [] }

abbrev done : Vault × Blocks
done = (delete_account all_tables cipher 7 vault no_blocks).1

abbrev claimed : Job
claimed = record {
  row = lock_job 200 message;
  payload = shown (record { phone = 555; content = otp 1234 });
}

deletes : (done.0.queue.jobs ≡ others ∷ []) × (done.0.account.users ≡ ben ∷ [])
unfolding delete_account begin_account_deletion belongs decrypt_payload erase erase_rows erase_jobs
    memory
deletes = (refl, refl)

delete_account-is_erased_example :
    (((delete_account all_tables cipher 7 vault no_blocks).0 ≡ ok tt)
      × (is_erased 7 555 done.0 ≡ true))
    ⊎ ((x : Error) × ((delete_account all_tables cipher 7 vault no_blocks).0 ≡ err x)
        × (done.0 ≡ vault))
delete_account-is_erased_example =
    delete_account-is_erased all_tables cipher 7 vault no_blocks ada refl

abbrev sms : Sms
sms = record { send_otp = λ phone code. inr 9; send_message = λ phone text. inr 9 }

-- A consumer that claimed the message before the deletion and checks after it, when the blocks of
-- another process say nothing.
abbrev poll : Poll
poll = record {
  now = 200;
  later = 300;
  before_claim = λ q. q;
  before_check = λ q. q;
  while_sending = λ q. q;
  blocks = no_blocks;
}

delete_account-silent_example :
    process_claimed_job all_tables.jobs cipher sms poll claimed done.0.queue
    ≡ (cancelled, done.0.queue)
unfolding delete_account begin_account_deletion belongs decrypt_payload erase erase_rows erase_jobs
    memory
delete_account-silent_example =
    delete_account-silent all_tables cipher sms poll 7 vault done.0 no_blocks done.1 ada claimed
      done.0.queue refl refl refl refl
